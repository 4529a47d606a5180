-- ===== src/UniquePtr/Tests.antt =====
-- Two objects, the first with the target 7: it is moved into the second, which is then reset.
use procshared_mem.Base.{false, ◌≡◌, refl, ◌⊎◌, [], ◌∷◌, ◌==◌, if◌then◌else◌, arith}
use procshared_mem.Base.Tally.{tally, count}
use procshared_mem.UniquePtr.{
  Memory, call_deleter, construct, set_target, get, reset, move_construct,
}
use procshared_mem.Typed
use procshared_mem.Typed.{Layout, delete_array, need_header_size}
use procshared_mem.UniquePtr.Factory.{
  Restored, allocate_unique_array, destroy_both, allocate_unique_array-Restored,
}
use procshared_mem.UniquePtr.Owners.{
  targets, destroy_all, account-Run, stay, then_step, move_constructs, resets,
}

abbrev owner : Memory
owner = record {
  objects = λ a. record { op_target = if a == 0 then 7 else 0; deleter = 1 };
  deleted = [];
}

abbrev moved : Memory
moved = move_construct owner 1 0

abbrev dropped : Memory
dropped = reset moved 1 0

account-Run_example :
    ((tally (targets dropped) 2 7 ≡ 1 × count dropped.deleted 7 ≡ 0)
      ⊎ (tally (targets dropped) 2 7 ≡ 0 × count dropped.deleted 7 ≡ 1))
    × (tally (targets (destroy_all 2 dropped)) 2 7 ≡ 0)
    × (count (destroy_all 2 dropped).deleted 7 ≡ 1)
unfolding tally count get
account-Run_example =
    account-Run 2 7 owner dropped (λ e. ground (arith, e))
      (then_step owner moved dropped
        (then_step owner owner moved (stay owner)
          (move_constructs owner 1 0 (omega arith) (omega arith) refl))
        (resets moved 1 (omega arith)))
      refl

-- The second disjunct is the one that holds.
dropped_deleted : dropped.deleted ≡ 7 ∷ []
unfolding reset move_construct construct set_target get call_deleter
dropped_deleted = refl

-- An array of four objects of 24 bytes in a block at 4096, whose unique pointer is moved from 0 to 1.
abbrev layout : Layout
layout = record { size = 24; align = 8 }

abbrev unused : Typed.Memory
unused = record { taken = λ a. false; word_at = λ a. 0; alive = λ a. false }

abbrev nobody : Memory
nobody = record { objects = λ a. record { op_target = 0; deleter = 0 }; deleted = [] }

allocate_unique_array-Restored_example :
    let r = allocate_unique_array layout unused nobody 0 1 4096 (λ i. false) 4 in
    let r' = destroy_both (delete_array layout) (r.0, move_construct r.1 1 0) 1 0 in
    Restored unused r'.0
    × (r'.1.deleted ≡ 4104 ∷ [])
    × (allocate_unique_array layout unused nobody 0 1 0 (λ i. false) 4 ≡ (unused, nobody))
unfolding need_header_size
allocate_unique_array-Restored_example =
    allocate_unique_array-Restored layout unused nobody 1 0 1 4096 4 (λ i. false) (omega arith)
      (omega arith) (omega arith) (omega arith) (omega arith) refl (λ i l. refl) (λ i l. refl)
