-- ===== src/SharedPtr.antt =====
-- `offset_shared_ptr<T>` and `offset_weak_ptr<T>` of libipsm_mem/inc/offset_shared_ptr.hpp, with the
-- control blocks that count them (libipsm_mem/src/offset_shared_ptr.cpp). Every operation that reads
-- or writes a count holds the mutex of its control block, so an operation is one step here; an
-- assignment is one step as well where nobody comes between its parts (SharedPtr/Assign). A
-- control block is found at its address; what the allocator of control blocks answers is a parameter,
-- and so is how the construction of the block ends. The counts are `long`, words in two's
-- complement.
pub mod Counts
pub mod Objects
pub mod Shared
pub mod Weak
mod Temporaries
pub mod Steps
mod WeakSteps
pub mod Resource
pub mod Turns
mod Run
pub mod Disposal
pub mod Assign
pub mod Convert
pub mod Factory
mod Tests
mod OwnerTests
use procshared_mem.Base.{
  ℕ, ◌+◌, ◌-◌, ◌^◌, ◌≤◌, ◌<◌, ◌≡◌, Bool, true, false, not, ◌||◌, ◌&&◌, Option, none, some, List,
  ◌∷◌, ltb, leb, ◌==◌, if◌then◌else◌, arith,
}
use procshared_mem.Base.Word.{add_word, sub_word}
use procshared_mem.Base.Tally.{update}
use procshared_mem.UniquePtr.{call_deleter}

-- `ctrl_data`, with the target of `op_to_obj_` (0 for null) and whether the block is constructed.
pub record Ctrl : Type 0 where
  weak_refc : ℕ
  shrd_refc : ℕ
  op_to_obj : ℕ
  live : Bool

-- The control blocks by address, and the resources that a deleter was called on, the last one first.
pub record Heap : Type 0 where
  ctrl : ℕ → Ctrl
  deleted : List ℕ

-- An `offset_shared_ptr` or `offset_weak_ptr` object: `p_r_impl_` and `p_`, 0 for null.
pub record Handle : Type 0 where
  impl : ℕ
  ptr : ℕ

abbrev pub null_handle : Handle
null_handle = record { impl = 0; ptr = 0 }

-- `cnt <= 0` of a `long`.
abbrev pub not_positive : ℕ → Bool
not_positive c = (c == 0) || leb (2 ^ 63) c

-- `offset_shared_ptr_ctrl_block_concrete`: a new block, which owns the resource.
unfoldable pub construct_ctrl : Heap → ℕ → ℕ → Heap
construct_ctrl h c p = record h {
  ctrl = update h.ctrl c (record { weak_refc = 0; shrd_refc = 0; op_to_obj = p; live = true });
}

-- `op_to_obj_.reset()`.
unfoldable pub dispose_resource : Heap → ℕ → Heap
dispose_resource h c = record {
  ctrl = update h.ctrl c (record (h.ctrl c) { op_to_obj = 0 });
  deleted = call_deleter h.deleted (h.ctrl c).op_to_obj;
}

-- The destructor of the block runs that of `op_to_obj_`; then its memory is given back.
unfoldable pub call_destroy_deallocate : Heap → ℕ → Heap
call_destroy_deallocate h c = if c == 0 then h else record {
  ctrl = update h.ctrl c (record (h.ctrl c) { op_to_obj = 0; live = false });
  deleted = call_deleter h.deleted (h.ctrl c).op_to_obj;
}

-- The pointers to members that `try_dispose_com` takes.
pub data Counter : Type 0 where
  shrd : Counter
  weak : Counter

abbrev pub with_count : Ctrl → Counter → (ℕ → ℕ) → Ctrl
with_count k shrd f = record k { shrd_refc = f k.shrd_refc }
with_count k weak f = record k { weak_refc = f k.weak_refc }

-- `cnt++` and `cnt--` of a count of a control block.
unfoldable pub increment : Heap → ℕ → Counter → Heap
increment h c t = record h { ctrl = update h.ctrl c (with_count (h.ctrl c) t (λ n. add_word n 1)) }

unfoldable pub decrement : Heap → ℕ → Counter → Heap
decrement h c t = record h { ctrl = update h.ctrl c (with_count (h.ctrl c) t (λ n. sub_word n 1)) }

-- What follows the decrement in `try_dispose_com`.
unfoldable pub settle : Heap → ℕ → Heap
settle h c =
    if not_positive (h.ctrl c).shrd_refc && not_positive (h.ctrl c).weak_refc
    then call_destroy_deallocate h c
    else if not_positive (h.ctrl c).shrd_refc && not (not_positive (h.ctrl c).weak_refc)
    then dispose_resource h c
    else h

unfoldable pub try_dispose_com : Heap → ℕ → Counter → Heap
try_dispose_com h c t = if c == 0 then h else settle (decrement h c t) c

-- Another owner of what `orig` shows: the copy constructors. An object of no control block is null,
-- whatever `orig.p_` is, and the weak copy takes both fields over.
unfoldable pub copy_shared : Heap → Handle → Heap × Handle
copy_shared h orig = if orig.impl == 0 then (h, null_handle) else (increment h orig.impl shrd, orig)

unfoldable pub copy_weak : Heap → Handle → Heap × Handle
copy_weak h r = (if r.impl == 0 then h else increment h r.impl weak, r)

-- `offset_weak_ptr::lock`.
unfoldable pub lock : Heap → Handle → Heap × Handle
lock h w =
    if w.impl == 0
    then (h, null_handle)
    else if (h.ctrl w.impl).shrd_refc == 0
    then (h, null_handle)
    else (increment h w.impl shrd, w)

-- `offset_shared_ptr( const offset_weak_ptr<Y>& )`; `none` is `std::bad_weak_ptr`.
unfoldable pub shared_of_weak : Heap → Handle → Option (Heap × Handle)
shared_of_weak h w =
    if w.impl == 0
    then none
    else if (h.ctrl w.impl).shrd_refc == 0
    then none
    else some (increment h w.impl shrd, w)

-- How the constructor of a control block ends: it returns; it throws before the block owns the resource,
-- where the deleter is copied; or it throws after that, where the allocator is copied, and then the
-- destructor of the member that owns the resource calls the deleter.
pub data Construction : Type 0 where
  constructed : Construction
  threw_early : Construction
  threw_late : Construction

-- `offset_shared_ptr( Y*, D, Alloc )`. `cb` is what the allocator answers (`none` when it throws). An
-- exception leaves no object, and the `catch` block has called the deleter on `p`: for the second time
-- where the block had owned the resource.
unfoldable pub make_shared : Heap → Option ℕ → Construction → ℕ → Heap × Option Handle
make_shared h none ends p = (record h { deleted = p ∷ h.deleted }, none)
make_shared h (some cb) constructed p =
    (increment (construct_ctrl h cb p) cb shrd, some (record { impl = cb; ptr = p }))
make_shared h (some cb) threw_early p = (record h { deleted = p ∷ h.deleted }, none)
make_shared h (some cb) threw_late p = (record h { deleted = p ∷ p ∷ h.deleted }, none)

-- `offset_shared_ptr::use_count`, `offset_weak_ptr::use_count` and `expired`.
unfoldable pub use_count : Heap → Handle → ℕ
use_count h a = if a.impl == 0 then 0 else (h.ctrl a.impl).shrd_refc

unfoldable pub expired : Heap → Handle → Bool
expired h w = use_count h w == 0

-- `owner_before`, and `operator bool`.
unfoldable pub owner_before : Handle → Handle → Bool
owner_before a b = ltb a.impl b.impl

unfoldable pub operator_bool : Handle → Bool
operator_bool a = not (a.ptr == 0)
