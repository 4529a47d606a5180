-- ===== src/IpsmMalloc.antt =====
-- `ipsm_malloc` of libipsm_mem/inc/ipsm_malloc.hpp and libipsm_mem/src/ipsm_malloc.cpp as an object of
-- three parts: the mapped memory (ShmMem), a handle on the allocator in it (OffsetMalloc), and the
-- address of the message channels (Channels). Objects are named by an index, a temporary one too.
pub mod Parts
pub mod Moved
pub mod Connect
mod Tests
use procshared_mem.Base.{
  ℕ, Bool, true, false, Option, none, some, List, [], ◌∷◌, ◌==◌, if◌then◌else◌,
}
use procshared_mem.Base.Tally.{update}
use procshared_mem.Malloc
use procshared_mem.Malloc.{Outcome}
use procshared_mem.OffsetMalloc
use procshared_mem.ShmMem.Setup.{
  Header, Impl, Exit, goes_on, address_of, get, get_hint_value, move_mem, swap_mem,
}
use procshared_mem.Channels.{find_channels, channels_offset}

-- `shm_obj_`, `shm_heap_` and `p_msgch_` of every object, the header that stands at each address that is
-- mapped, and the memories whose destructor ran.
pub record State : Type 0 where
  pub shm_obj : ℕ → Option Impl
  pub heaps : OffsetMalloc.State
  pub p_msgch : ℕ → ℕ
  pub headers : ℕ → Header
  pub released : List Impl

unfoldable pub construct_default : State → ℕ → State
construct_default st this = record st {
  shm_obj = update st.shm_obj this none;
  heaps = record st.heaps { p_impl = update st.heaps.p_impl this 0 };
  p_msgch = update st.p_msgch this 0;
}

-- How the constructor ends: with an object, an exception of `setup`, or `std::runtime_error`.
pub data Constructed : Type 0 where
  made : Constructed
  threw : Exit → Constructed
  runtime_error : Constructed

-- `shm_heap_ = offset_malloc( p )`, with the temporary handle at `tmp`.
unfoldable pub set_heap : OffsetMalloc.State → ℕ → ℕ → ℕ → OffsetMalloc.State
set_heap h this tmp p =
    OffsetMalloc.destroy (OffsetMalloc.move_assign (OffsetMalloc.attach h tmp p) this tmp) tmp

-- The end of the constructor, once the memory is set up.
unfoldable pub find_parts : State → ℕ → ℕ → Option Impl → State
unfolding set_heap
find_parts st this tmp p = record st {
  shm_obj = update st.shm_obj this p;
  heaps = set_heap st.heaps this tmp (get p);
  p_msgch =
      update st.p_msgch this (find_channels (get p) (get_hint_value p (st.headers (address_of p))));
}

-- The constructor, over what `shm_obj_.setup` comes to.
unfoldable pub construct : State → ℕ → ℕ → Option Impl × Exit × Bool → State × Constructed
unfolding construct_default find_parts
construct st this tmp (p, goes_on, true) = (find_parts (construct_default st this) this tmp p, made)
construct st this tmp (p, goes_on, false) = (construct_default st this, runtime_error)
construct st this tmp (p, e, b) = (construct_default st this, threw e)

-- The functor for `setup`: a handle on the new allocator at `p`, two allocators that copy it, and at the
-- end the destructors of the three. It answers where the channels are that `allocate` put at `q`.
unfoldable pub setup_functor :
    OffsetMalloc.State → (heap a b : ℕ) → (p q : ℕ) → OffsetMalloc.State × ℕ
setup_functor h heap a b p q =
    let h1 = OffsetMalloc.copy_construct (OffsetMalloc.place h heap p) a heap in
    let h2 = OffsetMalloc.copy_construct h1 b heap in
    (
      OffsetMalloc.destroy (OffsetMalloc.destroy (OffsetMalloc.destroy h2 b) a) heap,
      channels_offset q p,
    )

-- The members are destroyed from the last one up.
unfoldable pub destroy : State → ℕ → State
destroy st this = record st {
  heaps = OffsetMalloc.destroy st.heaps this;
  shm_obj = update st.shm_obj this none;
  released = elim (st.shm_obj this) [ none ↦ st.released | some x ↦ x ∷ st.released ];
}

-- `ipsm_malloc( ipsm_malloc&& ) = default`: the address of the channels is copied.
unfoldable pub move_construct : State → ℕ → ℕ → State
move_construct st this src =
    let m = move_mem (st.shm_obj src) in
    record st {
      shm_obj = update (update st.shm_obj this m.0) src m.1;
      heaps = OffsetMalloc.move_construct st.heaps this src;
      p_msgch = update st.p_msgch this (st.p_msgch src);
    }

unfoldable pub swap : State → ℕ → ℕ → State
swap st this src =
    let m = swap_mem (st.shm_obj this) (st.shm_obj src) in
    record st {
      shm_obj = update (update st.shm_obj this m.0) src m.1;
      heaps = OffsetMalloc.swap st.heaps this src;
      p_msgch = update (update st.p_msgch this (st.p_msgch src)) src (st.p_msgch this);
    }

-- The temporary object is at `tmp`.
unfoldable pub move_assign : State → (this src tmp : ℕ) → State
unfolding move_construct swap destroy
move_assign st this src tmp =
    if this == src then st else destroy (swap (move_construct st tmp src) tmp this) tmp

unfoldable pub allocate : ℕ → (ℕ → Malloc.Impl) → State → ℕ → (n alignment : ℕ) → Option Outcome
allocate fuel impls st this n alignment = OffsetMalloc.allocate fuel impls st.heaps this n alignment

unfoldable pub deallocate : ℕ → (ℕ → Malloc.Impl) → State → ℕ → ℕ → Option Outcome
deallocate fuel impls st this p = OffsetMalloc.deallocate fuel impls st.heaps this p

unfoldable pub get_bind_count : State → ℕ → ℕ
get_bind_count st this = OffsetMalloc.get_bind_count st.heaps this
