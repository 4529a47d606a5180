-- ===== src/UniquePtr/Factory.antt =====
-- libipsm_mem/inc/offset_unique_ptr.hpp: `allocate_offset_unique`, and objects whose deleter gives what
-- they hold back to `offset_malloc` (`deleter_by_offset_malloc`).
use procshared_mem.Base.{
  ℕ, ◌<◌, ◌≡◌, ◌≢◌, refl, sym, ap, ◌∙◌, sym, ap, ◌∙◌, Bool, true, false, List, ◌∷◌, ◌==◌,
  if◌then◌else◌, arith,
}
use procshared_mem.Base.Word.{word_mod, add_word}
use procshared_mem.Base.Tally.{update}
use procshared_mem.UniquePtr.{
  Memory, construct, set_target, get, reset, destroy, move_construct, call_deleter,
}
use procshared_mem.Typed
use procshared_mem.Typed.{
  Layout, Made, made, bad_alloc, constructor_threw, new_instance, delete_instance, new_array,
  delete_array, need_header_size, element, take, give_back,
}
use procshared_mem.Typed.Arrays.{delete_array-new_array, given_back}

-- The unique pointer to what was made; an exception leaves none.
unfoldable pub with_unique : Memory → ℕ → ℕ → Typed.Memory → Made → Typed.Memory × Memory
with_unique um this d m (made q) = (m, construct um this q d)
with_unique um this d m bad_alloc = (m, um)
with_unique um this d m constructor_threw = (m, um)

-- `allocate_offset_unique<T>` and `allocate_offset_unique<T[]>`; `d` stands for the deleter.
unfoldable pub allocate_unique_instance :
    Typed.Memory → Memory → ℕ → ℕ → (p : ℕ) → Bool → Typed.Memory × Memory
unfolding with_unique
allocate_unique_instance m um this d p throws =
    let r = new_instance m p throws in with_unique um this d r.0 r.1

unfoldable pub allocate_unique_array :
    Layout → Typed.Memory → Memory → ℕ → ℕ → (p : ℕ) → (ℕ → Bool) → ℕ → Typed.Memory × Memory
unfolding with_unique
allocate_unique_array t m um this d p throws n =
    let r = new_array t m p throws n in with_unique um this d r.0 r.1

-- The destructor, with what `deleter_by_offset_malloc` does to the memory.
unfoldable pub destroy_owned :
    (Typed.Memory → ℕ → Typed.Memory) → Typed.Memory → Memory → ℕ → Typed.Memory × Memory
destroy_owned deleter m um this =
    (if get um this == 0 then m else deleter m (get um this), destroy um this)

abbrev pub Restored : Typed.Memory → Typed.Memory → Type 0
Restored m m' = ((a : ℕ) → m'.alive a ≡ m.alive a) × ((a : ℕ) → m'.taken a ≡ m.taken a)

-- An object that was moved into another one holds nothing, and the other one what it held.
get-moved :
    (um : Memory) (this u d q : ℕ)
    → this ≢ u
    → let um' = move_construct (construct um u q d) this u in (get um' this ≡ q) × (get um' u ≡ 0)
unfolding move_construct construct get set_target
get-moved um this u d q ne = (ground arith, ground arith)

-- The destructor of both of them, the new one first.
unfoldable pub destroy_both :
    (Typed.Memory → ℕ → Typed.Memory) → Typed.Memory × Memory → ℕ → ℕ → Typed.Memory × Memory
destroy_both deleter r this u =
    let r' = destroy_owned deleter r.0 r.1 this in destroy_owned deleter r'.0 r'.1 u

destroy_lem :
    (um : Memory) (this u : ℕ)
    → this ≢ u
    → (get (destroy um this) u ≡ get um u)
      × ((destroy um this).deleted ≡ call_deleter um.deleted (get um this))
unfolding destroy reset set_target get
destroy_lem um this u ne = (ground (arith, ne), refl)

deleted-move_construct :
    (um : Memory) (this u d q : ℕ)
    → (move_construct (construct um u q d) this u).deleted ≡ um.deleted
unfolding move_construct construct set_target
deleted-move_construct um this u d q = refl

empty_call : (l : List ℕ) → call_deleter l 0 ≡ l
unfolding call_deleter
empty_call l = refl

call_lem : (l : List ℕ) (q : ℕ) → q ≢ 0 → call_deleter l q ≡ q ∷ l
unfolding call_deleter
call_lem l q h = ground (arith, h)

destroy_both-moved :
    (deleter : Typed.Memory → ℕ → Typed.Memory) (m : Typed.Memory) (um : Memory) (this u d q : ℕ)
    → q ≢ 0
    → this ≢ u
    → let um' = move_construct (construct um u q d) this u in
      ((destroy_both deleter (m, um') this u).0 ≡ deleter m q)
      × ((destroy_both deleter (m, um') this u).1.deleted ≡ q ∷ um.deleted)
unfolding destroy_both destroy_owned
destroy_both-moved deleter m um this u d q hq ne =
    let um' = move_construct (construct um u q d) this u in
    let g = get-moved um this u d q ne in
    let x = destroy_lem um' this u ne in
    let y = destroy_lem (destroy um' this) u this (λ e. ne (sym e)) in
    let z : (q == 0) ≡ false = ground (arith, hq) in
    (
      rw (x.0, g.1, g.0, z) refl,
      y.1
          ∙ ap (call_deleter (destroy um' this).deleted) (x.0 ∙ g.1)
          ∙ empty_call (destroy um' this).deleted
          ∙ x.1
          ∙ rw (g.0, deleted-move_construct um this u d q) (call_lem um.deleted q hq),
    )

-- A unique pointer to a new array that is moved into another object: when both objects are destroyed
-- the deleter is called once, every element is destroyed and every block and object is as before.
-- When there is no memory, no unique pointer is made and nothing changes.
pub allocate_unique_array-Restored :
    (t : Layout) (m : Typed.Memory) (um : Memory) (this u d p n : ℕ) (throws : ℕ → Bool)
    → p ≢ 0
    → p < word_mod
    → t.align < word_mod
    → add_word p (need_header_size t) ≢ 0
    → this ≢ u
    → m.taken p ≡ false
    → ((i : ℕ) → i < n → m.alive (element t (add_word p (need_header_size t)) i) ≡ false)
    → ((i : ℕ) → i < n → throws i ≡ false)
    → let r = allocate_unique_array t m um u d p throws n in
      let r' = destroy_both (delete_array t) (r.0, move_construct r.1 this u) this u in
      Restored m r'.0
      × (r'.1.deleted ≡ add_word p (need_header_size t) ∷ um.deleted)
      × (allocate_unique_array t m um u d 0 throws n ≡ (m, um))
unfolding allocate_unique_array new_array
allocate_unique_array-Restored t m um this u d p n throws hp w v top ne fresh free ok =
    let r = delete_array-new_array t m p n throws hp w v fresh free ok in
    let b =
      destroy_both-moved (delete_array t) (new_array t m p throws n).0 um this u d
        (add_word p (need_header_size t)) top ne in
    rw (r.0, b.0) ((r.1, r.2), b.1, refl)

-- The same for a single object.
pub allocate_unique_instance-Restored :
    (m : Typed.Memory) (um : Memory) (this u d p : ℕ)
    → p ≢ 0
    → this ≢ u
    → m.taken p ≡ false
    → m.alive p ≡ false
    → let r = allocate_unique_instance m um u d p false in
      let r' =
        destroy_both (λ x q. delete_instance x q true) (r.0, move_construct r.1 this u) this u in
      Restored m r'.0 × (r'.1.deleted ≡ p ∷ um.deleted)
unfolding allocate_unique_instance new_instance delete_instance
allocate_unique_instance-Restored m um this u d p hp ne fresh dead =
    let z : (p == 0) ≡ false = ground (arith, hp) in
    let b =
      destroy_both-moved (λ x q. delete_instance x q true)
        (record (take m p) { alive = update m.alive p true }) um this u d p hp ne in
    rw z (rw (b.0) ((λ a. given_back m.alive p a dead, λ a. given_back m.taken p a fresh), b.1))
