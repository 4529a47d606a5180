-- ===== src/SharedPtr/Factory.antt =====
-- libipsm_mem/inc/offset_shared_ptr.hpp: `allocate_offset_shared`, which makes the object or the array
-- with `offset_malloc` (Typed) and then a shared object whose deleter gives it back.
use procshared_mem.Base.{ℕ, ◌<◌, ◌≡◌, ◌≢◌, Bool, true, false, Option, none, some}
use procshared_mem.Base.Word.{word_mod, add_word}
use procshared_mem.SharedPtr.{Construction, constructed, threw_early, threw_late}
use procshared_mem.SharedPtr.Objects.{State}
use procshared_mem.SharedPtr.Shared
use procshared_mem.Typed.{
  Memory, Layout, Made, made, bad_alloc, constructor_threw, new_instance, delete_instance,
  new_array, delete_array, need_header_size, element,
}
use procshared_mem.Typed.Arrays.{delete_array-new_array}

-- What is left of the typed memory once the constructor of the shared object has returned or thrown. Where
-- the deleter is called for the second time, it finds what it has given back.
unfoldable pub kept_memory : (Memory → ℕ → Memory) → Option ℕ → Construction → Memory → ℕ → Memory
kept_memory deleter none ends m q = deleter m q
kept_memory deleter (some cb) constructed m q = m
kept_memory deleter (some cb) threw_early m q = deleter m q
kept_memory deleter (some cb) threw_late m q = deleter (deleter m q) q

-- The shared object for what was made; an exception of the object's own goes on, and no shared object is
-- begun.
unfoldable pub with_shared :
    (Memory → ℕ → Memory) → State → ℕ → Option ℕ → Construction → Memory → Made → Memory × State
unfolding kept_memory
with_shared deleter st this cb ends m (made q) =
    (kept_memory deleter cb ends m q, Shared.construct st this cb ends q)
with_shared deleter st this cb ends m bad_alloc = (m, st)
with_shared deleter st this cb ends m constructor_threw = (m, st)

-- `p` is what `offset_malloc` answers for the object, `throws` whether its constructor does, `cb` and
-- `ends` what becomes of the control block.
unfoldable pub allocate_shared_instance :
    Memory → State → ℕ → (p : ℕ) → (throws : Bool) → Option ℕ → Construction → Memory × State
unfolding with_shared
allocate_shared_instance m st this p throws cb ends =
    let r = new_instance m p throws in
    with_shared (λ x q. delete_instance x q true) st this cb ends r.0 r.1

unfoldable pub allocate_shared_array :
    Layout
    → Memory
    → State
    → ℕ
    → (p : ℕ) → (ℕ → Bool)
    → ℕ
    → Option ℕ
    → Construction
    → Memory × State
unfolding with_shared
allocate_shared_array t m st this p throws n cb ends =
    let r = new_array t m p throws n in with_shared (delete_array t) st this cb ends r.0 r.1

-- The memory is as before, object by object and block by block.
abbrev pub Restored : Memory → Memory → Type 0
Restored m m' = ((a : ℕ) → m'.alive a ≡ m.alive a) × ((a : ℕ) → m'.taken a ≡ m.taken a)

-- When the array was made but its control block cannot be allocated, or throws early, all its elements are
-- destroyed again and its block is given back.
pub allocate_shared_array-Restored :
    (t : Layout) (m : Memory) (st : State) (this p n c : ℕ) (throws : ℕ → Bool)
    → p ≢ 0
    → p < word_mod
    → t.align < word_mod
    → m.taken p ≡ false
    → ((i : ℕ) → i < n → m.alive (element t (add_word p (need_header_size t)) i) ≡ false)
    → ((i : ℕ) → i < n → throws i ≡ false)
    → Restored m (allocate_shared_array t m st this p throws n none constructed).0
      × Restored m (allocate_shared_array t m st this p throws n (some c) threw_early).0
unfolding allocate_shared_array
allocate_shared_array-Restored t m st this p n c throws hp w v fresh free ok =
    let r = delete_array-new_array t m p n throws hp w v fresh free ok in
    rw (r.0) ((r.1, r.2), (r.1, r.2))
