-- ===== src/SharedPtr/Convert.antt =====
-- libipsm_mem/inc/offset_shared_ptr.hpp: the members that take an object of another type `Y`, whose
-- pointer converts by `up`, and the constructor that takes over an `offset_unique_ptr`.
use procshared_mem.Base.{ℕ, ◌≡◌, ◌≢◌, refl, true, Option, none, some, ◌==◌, if◌then◌else◌, arith}
use procshared_mem.Base.Tally.{update, count, count-cons}
use procshared_mem.UniquePtr
use procshared_mem.SharedPtr.{
  Handle, null_handle, shrd, weak, increment, construct_ctrl, make_shared, Construction,
  constructed, threw_early, try_dispose_com,
}
use procshared_mem.SharedPtr.Objects.{State, put_shared, put_weak}
use procshared_mem.SharedPtr.Resource.{Held, Deleted}

abbrev pub converted : (ℕ → ℕ) → Handle → Handle
converted up a = record { impl = a.impl; ptr = if a.ptr == 0 then 0 else up a.ptr }

-- `offset_shared_ptr( const offset_shared_ptr<Y>& )` and `( offset_shared_ptr<Y>&& )`.
unfoldable pub copy_construct : (ℕ → ℕ) → State → ℕ → Handle → State
copy_construct up st this orig =
    if orig.impl == 0 then record st { shared = update st.shared this null_handle } else record st {
      heap = increment st.heap orig.impl shrd;
      shared = update st.shared this (converted up orig);
    }

-- The object that was moved from is the second part of the answer.
unfoldable pub move_construct : (ℕ → ℕ) → State → ℕ → Handle → State × Handle
move_construct up st this orig =
    if orig.impl == 0
    then (record st { shared = update st.shared this null_handle }, orig)
    else (record st { shared = update st.shared this (converted up orig) }, null_handle)

-- `offset_weak_ptr( const offset_weak_ptr<Y>& )` and `( offset_weak_ptr<Y>&& )`.
unfoldable pub weak_copy_construct : (ℕ → ℕ) → State → ℕ → Handle → State
weak_copy_construct up st this r = record st {
  heap = if r.impl == 0 then st.heap else increment st.heap r.impl weak;
  weaks = update st.weaks this (converted up r);
}

unfoldable pub weak_move_construct : (ℕ → ℕ) → State → ℕ → Handle → State × Handle
weak_move_construct up st this r =
    (record st { weaks = update st.weaks this (converted up r) }, null_handle)

-- The assignments make a temporary and swap it in, with no test for the object itself.
unfoldable pub weak_copy_assign : (ℕ → ℕ) → State → ℕ → Handle → State
weak_copy_assign up st this r =
    put_weak st this
      (if r.impl == 0 then st.heap else increment st.heap r.impl weak, converted up r)

unfoldable pub weak_move_assign : (ℕ → ℕ) → State → ℕ → Handle → State × Handle
weak_move_assign up st this r = (put_weak st this (st.heap, converted up r), null_handle)

-- `offset_shared_ptr( offset_unique_ptr<Y, Deleter>&& )` as the object `this`: the members are null when
-- the temporary is swapped in. The block is made with `std::allocator`, whose copies do not throw, so its
-- constructor can only throw early.
unfoldable pub from_unique :
    State → UniquePtr.Memory → ℕ → ℕ → Option ℕ → Construction → State × UniquePtr.Memory
from_unique st um this orig cb ends =
    let u = UniquePtr.release um orig in
    let r = make_shared st.heap cb ends u.0 in
    let st' = record st { shared = update st.shared this null_handle } in
    elim r.1 [
      | none ↦ (record st { heap = r.0 }, u.1)
      | some a ↦ (put_shared st' this (r.0, a), u.1)
    ]

-- Ownership goes over from a unique pointer that holds `p`: it is null after that. With a control block
-- the block owns the resource alone and counts one shared object, and no deleter is called; when the
-- block cannot be made the deleter is called on it, once, and no shared object changes.
pub from_unique-Held :
    (st : State) (um : UniquePtr.Memory) (this orig c p : ℕ)
    → p ≢ 0
    → UniquePtr.get um orig ≡ p
    → ((b : ℕ) → (st.heap.ctrl b).op_to_obj ≢ p)
    → count st.heap.deleted p ≡ 0
    → let taken = from_unique st um this orig (some c) constructed in
      let thrown = from_unique st um this orig (some c) threw_early in
      let refused = from_unique st um this orig none constructed in
      (Held p c taken.0.heap
        × ((taken.0.heap.ctrl c).shrd_refc ≡ 1)
        × (taken.0.shared this ≡ record { impl = c; ptr = p })
        × (UniquePtr.get taken.1 orig ≡ 0)
        × (taken.1.deleted ≡ um.deleted))
      × (Deleted p thrown.0.heap
          × (thrown.0.shared ≡ st.shared)
          × (UniquePtr.get thrown.1 orig ≡ 0))
      × (Deleted p refused.0.heap
          × (refused.0.shared ≡ st.shared)
          × (UniquePtr.get refused.1 orig ≡ 0))
unfolding from_unique UniquePtr.release UniquePtr.set_target UniquePtr.get make_shared increment
    construct_ctrl try_dispose_com
from_unique-Held st um this orig c p hp e nobody new = (
  (
    record {
      owner = ground (arith, e);
      alone = λ b ne. ground (arith, nobody b);
      untouched = ground (arith, new);
    },
    ground arith,
    let self : (this == this) ≡ true = ground arith in rw (self, e) refl,
    ground arith,
    ground arith,
  ),
  (
    record { nobody = nobody; once = ground (arith, e, new, count-cons st.heap.deleted p p) },
    refl,
    ground arith,
  ),
  (
    record { nobody = nobody; once = ground (arith, e, new, count-cons st.heap.deleted p p) },
    refl,
    ground arith,
  ),
)
