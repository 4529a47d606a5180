-- ===== src/UniquePtr.antt =====
-- `offset_unique_ptr<T, D>` of libipsm_mem/inc/offset_unique_ptr.hpp: an object holds a target and a
-- deleter, and every call of a deleter is written to a log. A move leaves the source's target null,
-- as the move of its `offset_ptr` does. The calls are total: a deleter is a parameter that only
-- leaves its mark in the log.
pub mod Compare
pub mod Owners
mod Factory
mod Tests
use procshared_mem.Base.{
  ℕ, zero, suc, ◌+◌, ◌≤◌, ◌<◌, ◌≡◌, Bool, true, false, not, List, [], ◌∷◌, ◌==◌, if◌then◌else◌,
  arith,
}
use procshared_mem.Base.Tally.{update}

-- `op_target_`, 0 for null, and `deleter_`, of which only the identity matters.
pub record Unique : Type 0 where
  pub op_target : ℕ
  pub deleter : ℕ

-- The objects in memory, and the pointers that a deleter was called on, the last one first.
pub record Memory : Type 0 where
  pub objects : ℕ → Unique
  pub deleted : List ℕ

-- The deleter, called when the target is not null.
unfoldable pub call_deleter : List ℕ → ℕ → List ℕ
call_deleter deleted p = if p == 0 then deleted else p ∷ deleted

unfoldable pub construct : Memory → ℕ → ℕ → ℕ → Memory
construct m this p d = record m {
  objects = update m.objects this (record { op_target = p; deleter = d });
}

unfoldable pub set_target : Memory → ℕ → ℕ → Memory
set_target m this p = record m {
  objects = update m.objects this (record (m.objects this) { op_target = p });
}

unfoldable pub get : Memory → ℕ → ℕ
get m this = (m.objects this).op_target

unfoldable pub operator_bool : Memory → ℕ → Bool
operator_bool m this = not (get m this == 0)

unfoldable pub release : Memory → ℕ → ℕ × Memory
release m this = (get m this, set_target m this 0)

unfoldable pub reset : Memory → ℕ → ℕ → Memory
reset m this p = set_target (record m { deleted = call_deleter m.deleted (get m this) }) this p

unfoldable pub destroy : Memory → ℕ → Memory
destroy m this = reset m this 0

unfoldable pub move_construct : Memory → ℕ → ℕ → Memory
move_construct m this u =
    let p = get m u in let d = (m.objects u).deleter in construct (set_target m u 0) this p d

unfoldable pub convert_construct : Memory → ℕ → ℕ → Memory
convert_construct m this u = let r = release m u in construct r.1 this r.0 (r.1.objects u).deleter

unfoldable pub move_assign : Memory → ℕ → ℕ → Memory
move_assign m this x =
    if this == x
    then m
    else let m1 = reset m this 0 in
      let p = get m1 x in let d = (m1.objects x).deleter in construct (set_target m1 x 0) this p d

unfoldable pub swap : Memory → ℕ → ℕ → Memory
swap m this x =
    let a = m.objects this in
    let b = m.objects x in
    construct (construct m this b.op_target b.deleter) x a.op_target a.deleter
