-- ===== src/Typed.antt =====
-- The typed allocation of libipsm_mem/inc/offset_malloc.hpp: objects and arrays in memory of
-- `offset_malloc`. What `allocate` answers is a parameter, 0 for null, and so is whether the constructor
-- of an object throws. Blocks that are handed out, words in the memory, and objects that are alive are
-- kept by address.
pub mod Arrays
pub mod Loops
mod Tests
use procshared_mem.Base.{
  ℕ, zero, suc, ◌+◌, ◌*◌, ◌%◌, ◌≡◌, Bool, true, false, not, Option, none, some, ◌==◌, ltb,
  if◌then◌else◌,
}
use procshared_mem.Base.Word.{word_mod, add_word, sub_word}
use procshared_mem.Base.Tally.{update}

pub record Memory : Type 0 where
  pub taken : ℕ → Bool
  pub word_at : ℕ → ℕ
  pub alive : ℕ → Bool

-- `sizeof( T )` and `alignof( T )`.
pub record Layout : Type 0 where
  pub size : ℕ
  pub align : ℕ

-- A pointer, or an exception: `std::bad_alloc`, or what a constructor has thrown.
pub data Made : Type 0 where
  made : ℕ → Made
  bad_alloc : Made
  constructor_threw : Made

abbrev pub take : Memory → ℕ → Memory
take m p = record m { taken = update m.taken p true }

abbrev pub give_back : Memory → ℕ → Memory
give_back m p = record m { taken = update m.taken p false }

-- `new_instance`, with the answer of `allocate`.
unfoldable pub new_instance : Memory → ℕ → Bool → Memory × Made
new_instance m p throws =
    if p == 0
    then (m, bad_alloc)
    else if throws
    then (give_back (take m p) p, constructor_threw)
    else (record (take m p) { alive = update m.alive p true }, made p)

-- `delete_instance`, with the answer of `is_belong_to`.
unfoldable pub delete_instance : Memory → ℕ → Bool → Memory
delete_instance m p belongs =
    let m' = record m { alive = update m.alive p false } in if belongs then give_back m' p else m'

unfoldable pub need_header_size : Layout → ℕ
need_header_size t = if ltb 8 t.align then t.align else 8

unfoldable pub need_bytes : Layout → ℕ → ℕ
need_bytes t n = add_word (need_header_size t) (t.size * n % word_mod)

-- `&p[i]`.
abbrev pub element : Layout → ℕ → ℕ → ℕ
element t top i = top + t.size * i

-- The loop of the constructors, and the number of the element whose constructor throws.
unfoldable pub construct_elements : Layout → ℕ → (ℕ → Bool) → ℕ → (ℕ → Bool) → (ℕ → Bool) × Option ℕ
construct_elements t top throws zero alive = (alive, none)
construct_elements t top throws (suc i) alive =
    let r = construct_elements t top throws i alive in
    elim r.1 [
      | some j ↦ (r.0, some j)
      | none ↦ if throws i then (r.0, some i) else (update r.0 (element t top i) true, none)
    ]

-- The loop of the `catch` block, from the last element that was constructed down.
unfoldable pub destroy_down : Layout → ℕ → ℕ → (ℕ → Bool) → ℕ → Bool
destroy_down t top zero alive = alive
destroy_down t top (suc j) alive = destroy_down t top j (update alive (element t top j) false)

-- The loop of `delete_array`.
unfoldable pub destroy_up : Layout → ℕ → ℕ → (ℕ → Bool) → ℕ → Bool
destroy_up t top zero alive = alive
destroy_up t top (suc i) alive = update (destroy_up t top i alive) (element t top i) false

unfoldable pub new_array : Layout → Memory → ℕ → (ℕ → Bool) → ℕ → Memory × Made
new_array t m p throws n =
    if p == 0
    then (m, bad_alloc)
    else (let top = add_word p (need_header_size t) in
        let m' = record (take m p) { word_at = update m.word_at p n } in
        let r = construct_elements t top throws n m.alive in
        elim r.1 [
          | none ↦ (record m' { alive = r.0 }, made top)
          | some i ↦ (record m' { alive = destroy_down t top i r.0 }, constructor_threw)
        ])

unfoldable pub delete_array : Layout → Memory → ℕ → Memory
delete_array t m p =
    let p_size = sub_word p (need_header_size t) in
    give_back (record m { alive = destroy_up t p (m.word_at p_size) m.alive }) p_size
