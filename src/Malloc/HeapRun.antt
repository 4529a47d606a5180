-- ===== src/Malloc/HeapRun.antt =====
-- Runs of releases and of requests at the alignments up to that of a header, from the constructor on.
use procshared_mem.Base.{
  ℕ, ◌+◌, ◌-◌, ◌≤◌, ◌<◌, ◌≡◌, refl, sym, ap, ◌∙◌, subst, ◌≢◌, ◌⊎◌, inl, inr, some, List, [], ◌∷◌,
  ◌++◌, length, arith,
}
use procshared_mem.Base.Word.{word_mod}
use procshared_mem.OffsetPtr.{null}
use procshared_mem.Malloc.{
  Blocks, Impl, Outcome, returns, done, get_next_ptr, allocate, deallocate, construct,
}
use procshared_mem.Malloc.Cells.{Cell}
use procshared_mem.Malloc.Carve.{SmallAlign}
use procshared_mem.Malloc.Fresh.{IsFresh, construct-IsFresh}
use procshared_mem.Malloc.Heap.{
  Heap, AllocatedHeap, refused, handed, used_up, allocate-AllocatedHeap, FreedHeap, back,
  deallocate-FreedHeap,
}

-- The call ends with `o`, whatever fuel it is given beyond what it needs.
pub record Ends (call : ℕ → Outcome) (o : Outcome) : Type 0 where
  pub needs : ℕ
  pub ends : (fuel : ℕ) → needs ≤ fuel → call fuel ≡ o

-- Requests of at least one byte at no alignment or one up to 16, and releases of blocks that are handed out, until a request uses up the
-- free list. The list has the blocks that are handed out, with the sizes in their headers.
pub data HeapRun (h0 : Impl) : Impl → List Cell → Type 0 where
  begin : HeapRun h0 h0 []
  refuses :
      {h h' : Impl} {live : List Cell} (bytes align : ℕ)
      → HeapRun h0 h live
      → 0 < bytes
      → bytes + 32 < word_mod
      → (align ≡ 0) ⊎ SmallAlign align
      → Ends (λ fuel. allocate fuel h bytes align) (returns null h')
      → HeapRun h0 h' live
  hands_out :
      {h h' : Impl} {live : List Cell} (bytes align body : ℕ)
      → HeapRun h0 h live
      → 0 < bytes
      → bytes + 32 < word_mod
      → (align ≡ 0) ⊎ SmallAlign align
      → Ends (λ fuel. allocate fuel h bytes align) (returns body h')
      → body ≢ null
      → get_next_ptr h'.blocks h'.freep ≢ null
      → HeapRun h0 h' ((body - 16, h'.blocks.size (body - 16)) ∷ live)
  takes_back :
      {h h' : Impl} (us vs : List Cell) (a k : ℕ)
      → HeapRun h0 h (us ++ (a, k) ∷ vs)
      → Ends (λ fuel. deallocate fuel h (a + 16)) (done h')
      → HeapRun h0 h' (us ++ vs)

after_refusal :
    (lo hi n : ℕ) (h h' : Impl) (free live : List Cell)
    → Heap lo hi n h free live
    → AllocatedHeap lo hi n h free live (returns null h')
    → (rest : List Cell) × Heap lo hi n h' rest live
after_refusal lo hi n h h' free live s refused = (free, s)
after_refusal lo hi n h h' free live s (handed a k rest e t) = absurd (omega (arith, e))
after_refusal lo hi n h h' free live s (used_up ne e) = absurd (ne refl)

after_request :
    (lo hi n : ℕ) (h h' : Impl) (free live : List Cell) (body : ℕ)
    → AllocatedHeap lo hi n h free live (returns body h')
    → body ≢ null
    → get_next_ptr h'.blocks h'.freep ≢ null
    → (rest : List Cell) × Heap lo hi n h' rest ((body - 16, h'.blocks.size (body - 16)) ∷ live)
after_request lo hi n h h' free live body refused ne nx = absurd (ne refl)
after_request lo hi n h h' free live body (handed a k rest e t) ne nx =
    let place : a ≡ body - 16 = omega (arith, e) in
    let size : k ≡ h'.blocks.size (body - 16) = sym t.owned.0.header ∙ ap h'.blocks.size place in
    (
      rest,
      subst (λ x. Heap lo hi n h' rest ((body - 16, x) ∷ live)) size
          (subst (λ x. Heap lo hi n h' rest ((x, k) ∷ live)) place t),
    )
after_request lo hi n h h' free live body (used_up _ e) ne nx = absurd (nx e)

after_release :
    (lo hi n : ℕ) (h' : Impl) (live : List Cell)
    → FreedHeap lo hi n live (done h')
    → (rest : List Cell) × Heap lo hi n h' rest live
after_release lo hi n h' live (back rest s) = (rest, s)

HeapRun-steps :
    (lo hi n : ℕ) (h0 h : Impl) (free0 live : List Cell)
    → Heap lo hi n h0 free0 []
    → HeapRun h0 h live
    → (free : List Cell) × Heap lo hi n h free live
HeapRun-steps lo hi n h0 h free0 live s begin = (free0, s)
HeapRun-steps lo hi n h0 h free0 live s (refuses {h = g} bytes align r pos w al e) =
    let t = HeapRun-steps lo hi n h0 g free0 live s r in
    let fuel = e.needs + length t.0 + 1 in
    after_refusal lo hi n g h t.0 live t.1 (
      subst (AllocatedHeap lo hi n g t.0 live) (e.ends fuel (omega arith))
        (allocate-AllocatedHeap lo hi n fuel g bytes align t.0 live t.1 pos w al (omega arith)))
HeapRun-steps lo hi n h0 h free0 live s
      (hands_out {h = g} {live = l} bytes align body r pos w al e ne nx) =
    let t = HeapRun-steps lo hi n h0 g free0 l s r in
    let fuel = e.needs + length t.0 + 1 in
    after_request lo hi n g h t.0 l body
      (subst (AllocatedHeap lo hi n g t.0 l) (e.ends fuel (omega arith))
        (allocate-AllocatedHeap lo hi n fuel g bytes align t.0 l t.1 pos w al (omega arith)))
      ne nx
HeapRun-steps lo hi n h0 h free0 live s (takes_back {h = g} us vs a k r e) =
    let t = HeapRun-steps lo hi n h0 g free0 (us ++ (a, k) ∷ vs) s r in
    let fuel = e.needs + length t.0 + 1 in
    after_release lo hi n h (us ++ vs) (
      subst (FreedHeap lo hi n (us ++ vs)) (e.ends fuel (omega arith))
        (deallocate-FreedHeap lo hi n fuel g t.0 us vs a k t.1 (omega arith)))

IsFresh-Heap :
    (base end_pointer : ℕ) (h : Impl)
    → end_pointer + 16 < word_mod
    → (f : IsFresh base end_pointer h)
    → Heap base end_pointer f.count h ((base, 0) ∷ (f.top, f.count) ∷ []) []
IsFresh-Heap base end_pointer h w f = record {
  members = f.members;
  room = w;
  ring = f.ring;
  many = omega arith;
  anchored = ground arith;
  within = (inl refl, (inr (omega (arith, f.above), f.below), tt));
  owned = tt;
  disjoint = tt;
  conserved = omega arith;
}

-- However releases and requests of 1 to 2 ^ 64 - 33 bytes, at no alignment or one up to 16, follow each
-- other after the constructor, as long as no request uses up the free list: the blocks that are handed out overlap neither each other nor a free block, all lie in
-- the area, their headers keep their sizes, and together with the free blocks they have all of the
-- headers that the constructor found.
pub HeapRun-Heap :
    (impl_size : ℕ) (m : Blocks) (base end_pointer : ℕ) (h0 h : Impl) (live : List Cell)
    → 0 < base
    → base + 48 + impl_size < word_mod
    → end_pointer + 16 < word_mod
    → construct impl_size m base end_pointer ≡ some h0
    → HeapRun h0 h live
    → (n : ℕ) × (free : List Cell) × Heap base end_pointer n h free live
HeapRun-Heap impl_size m base end_pointer h0 h live pos w top e r =
    let f = construct-IsFresh impl_size m base end_pointer h0 pos w (omega (arith, top)) e in
    let t =
      HeapRun-steps base end_pointer f.count h0 h ((base, 0) ∷ (f.top, f.count) ∷ []) live
        (IsFresh-Heap base end_pointer h0 top f) r in
    (f.count, t.0, t.1)
