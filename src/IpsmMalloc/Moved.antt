-- ===== src/IpsmMalloc/Moved.antt =====
-- An object that was moved from keeps the address of the channels.
use procshared_mem.Base.{ℕ, ◌≡◌, ◌≢◌, refl, subst, true, false, none, some, ◌∷◌, ◌==◌, arith}
use procshared_mem.Malloc
use procshared_mem.OffsetMalloc
use procshared_mem.ShmMem.Setup.{Impl, address_of, get, get_hint_value, move_mem}
use procshared_mem.Channels.{find_channels}
use procshared_mem.IpsmMalloc.{State, destroy, move_construct, allocate}
use procshared_mem.IpsmMalloc.Parts.{Whole, AllWhole}

-- The source of a move has no memory after it and its allocator answers null, but its `p_msgch_` is
-- still the address of the channels, and so it is after the new object was destroyed and has released
-- the memory.
pub move_construct-stale :
    (st : State) (this src : ℕ) (x : Impl)
    → this ≢ src
    → AllWhole st
    → st.shm_obj src ≡ some x
    → let moved = move_construct st this src in
      let gone = destroy moved this in
      let channels =
        find_channels (get (some x)) (get_hint_value (some x) (st.headers (address_of (some x)))) in
      (moved.shm_obj src ≡ none)
      × ((fuel : ℕ) (impls : ℕ → Malloc.Impl) (n alignment : ℕ)
          → allocate fuel impls moved src n alignment ≡ none)
      × (moved.p_msgch src ≡ channels)
      × (gone.released ≡ x ∷ st.released)
      × (gone.p_msgch src ≡ channels)
unfolding move_construct destroy move_mem allocate OffsetMalloc.allocate OffsetMalloc.move_construct
move_construct-stale st this src x ne w e =
    let whole = subst (λ o. Whole st.headers o (st.heaps.p_impl src) (st.p_msgch src)) e (w src) in
    let self : (src == src) ≡ true = ground arith in
    let new : (this == this) ≡ true = ground arith in
    let other : (src == this) ≡ false = ground (arith, ne) in
    let other' : (this == src) ≡ false = ground (arith, ne) in
    (
      rw self refl,
      λ fuel impls n alignment. rw (self, allocate) refl,
      rw other (whole.1),
      rw (other', new, e, destroy) refl,
      rw other (whole.1),
    )
