-- ===== src/IpsmMalloc/Connect.antt =====
-- How a process finds the channels and the allocator that the first one has made.
use procshared_mem.Base.{
  ℕ, ◌+◌, ◌%◌, ◌≡◌, ◌≢◌, refl, ◌∙◌, true, false, some, ◌==◌, if◌then◌else◌, arith,
}
use procshared_mem.Base.Word.{IsWord, sub_word}
use procshared_mem.Base.Tally.{update}
use procshared_mem.OffsetMalloc
use procshared_mem.OffsetMalloc.{int_mod}
use procshared_mem.ShmMem.Setup.{Header, Impl, goes_on, address_of, get, get_hint_value}
use procshared_mem.Channels.{find_channels, channels_offset}
use procshared_mem.IpsmMalloc.Parts.{p_impl-set_heap}
use procshared_mem.IpsmMalloc.{
  State, made, construct_default, construct, set_heap, find_parts, setup_functor,
}

-- The functor leaves the allocator at `p` with no handle on it and the counts of the others as they are.
functor_count :
    (h : OffsetMalloc.State) (heap a b p q c : ℕ)
    → p ≢ 0
    → heap ≢ a
    → heap ≢ b
    → a ≢ b
    → (setup_functor h heap a b p q).0.bind_cnt c ≡ (if c == p then 0 else h.bind_cnt c)
unfolding setup_functor OffsetMalloc.place OffsetMalloc.copy_construct OffsetMalloc.destroy
    OffsetMalloc.bind OffsetMalloc.unbind
functor_count h heap a b p q c hp x y z = ground (arith, hp, x, y, z)

set_heap_count :
    (h : OffsetMalloc.State) (this tmp p c : ℕ)
    → this ≢ tmp
    → p ≢ 0
    → h.p_impl this ≡ 0
    → (set_heap h this tmp p).bind_cnt c
      ≡ (if c == p then (h.bind_cnt c + 1) % int_mod else h.bind_cnt c)
unfolding set_heap OffsetMalloc.attach OffsetMalloc.move_assign OffsetMalloc.destroy
    OffsetMalloc.bind OffsetMalloc.unbind
set_heap_count h this tmp p c ne hp z = ground (arith, ne, hp, z)

found_place :
    (x : Impl) (hd : Header) (q p : ℕ)
    → address_of (some x) ≢ 0
    → IsWord q
    → IsWord p
    → IsWord (get (some x))
    → hd.sharing_value_ ≡ channels_offset q p
    → sub_word (find_channels (get (some x)) (get_hint_value (some x) hd)) (get (some x))
      ≡ sub_word q p
unfolding find_channels channels_offset get_hint_value
found_place x hd q p live hq hp hg e = ground (arith, live, hq, hp, hg, e)

-- A process whose memory is set up, whoever has set it up: its object has the channels at the same
-- place of the memory as the process whose functor put them at `q` in a memory at `p`, a handle on the
-- allocator at the start of the memory, and counts once in the allocator.
pub construct-setup_functor :
    (h : OffsetMalloc.State) (heap a b p q : ℕ) (st : State) (this tmp : ℕ) (x : Impl)
    → address_of (some x) ≢ 0
    → get (some x) ≢ 0
    → this ≢ tmp
    → IsWord q
    → IsWord p
    → IsWord (get (some x))
    → (st.headers (address_of (some x))).sharing_value_ ≡ (setup_functor h heap a b p q).1
    → let r = construct st this tmp (some x, goes_on, true) in
      (r.1 ≡ made)
      × (sub_word (r.0.p_msgch this) (get (some x)) ≡ sub_word q p)
      × (r.0.heaps.p_impl this ≡ get (some x))
      × (r.0.heaps.bind_cnt (get (some x)) ≡ (st.heaps.bind_cnt (get (some x)) + 1) % int_mod)
unfolding construct construct_default find_parts setup_functor
construct-setup_functor h heap a b p q st this tmp x live there ne hq hp hg e =
    let hs = record st.heaps { p_impl = update st.heaps.p_impl this 0 } in
    let z : hs.p_impl this ≡ 0 = ground arith in
    let self : (this == this) ≡ true = ground arith in
    let other : (this == tmp) ≡ false = ground (arith, ne) in
    let same : (get (some x) == get (some x)) ≡ true = ground arith in
    (
      refl,
      rw self (found_place x (st.headers (address_of (some x))) q p live hq hp hg e),
      p_impl-set_heap hs this tmp (get (some x)) this ne z ∙ rw (other, self) refl,
      set_heap_count hs this tmp (get (some x)) (get (some x)) ne there z ∙ rw same refl,
    )

-- The functor leaves no handle behind on the allocator that it has made, and no count of another one
-- changes.
pub setup_functor-bind_cnt :
    (h : OffsetMalloc.State) (heap a b p q : ℕ)
    → p ≢ 0
    → heap ≢ a
    → heap ≢ b
    → a ≢ b
    → (c : ℕ) → (setup_functor h heap a b p q).0.bind_cnt c ≡ (if c == p then 0 else h.bind_cnt c)
setup_functor-bind_cnt h heap a b p q hp x y z c = functor_count h heap a b p q c hp x y z
