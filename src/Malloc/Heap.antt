-- ===== src/Malloc/Heap.antt =====
-- The whole memory of the allocator: the free blocks and the blocks that are handed out.
use procshared_mem.Base.{
  ℕ, ◌+◌, ◌*◌, ◌/◌, ◌≤◌, ◌<◌, ◌≡◌, refl, sym, ◌∙◌, subst, ◌≢◌, ◌⊎◌, inl, inr, true, List, [], ◌∷◌,
  ◌++◌, length, arith,
}
use procshared_mem.Base.Word.{word_mod}
use procshared_mem.OffsetPtr.{null}
use procshared_mem.Malloc.{Impl, Outcome, returns, done, get_next_ptr, allocate, deallocate}
use procshared_mem.Malloc.Cells.{Cell, Disjoint, total, total-append, has_empty, Within}
use procshared_mem.Malloc.Rings.{Ring}
use procshared_mem.Malloc.Carve.{SmallAlign, Got, Allocated, full, got}
use procshared_mem.Malloc.Allocate.{allocate-Allocated}
use procshared_mem.Malloc.Release.{Freeing, freed}
use procshared_mem.Malloc.Deallocate.{deallocate-Freeing}
use procshared_mem.Malloc.Owned.{
  Owned, Owned-Leaves, Owned-tail, Owned-apart, Owned-middle, Disjoint-middle, Owned-more,
}

-- The memory from `lo` to `hi`, of `n` headers: the blocks of `free` form the free list, those of
-- `live` are handed out, no two of all these overlap, and together they have all the headers.
pub record Heap (lo hi n : ℕ) (h : Impl) (free live : List Cell) : Type 0 where
  pub members : (h.base ≡ lo) × (h.end ≡ hi)
  pub room : hi + 16 < word_mod
  pub ring : Ring h.blocks h.freep free
  pub many : 1 < length free
  pub anchored : has_empty lo free ≡ true
  pub within : Within lo hi free
  pub owned : Owned h.blocks lo hi free live
  pub disjoint : Disjoint live
  pub conserved : total free + total live ≡ n

-- What `allocate` comes to: nothing changes; a new block is handed out; or one is handed out whose
-- free list was the last one that the allocator can use.
pub data AllocatedHeap (lo hi n : ℕ) (h : Impl) (free live : List Cell) : Outcome → Type 0 where
  refused : AllocatedHeap lo hi n h free live (returns null h)
  handed :
      {h' : Impl} {body : ℕ} (a k : ℕ) (rest : List Cell)
      → body ≡ a + 16
      → Heap lo hi n h' rest ((a, k) ∷ live)
      → AllocatedHeap lo hi n h free live (returns body h')
  used_up :
      {h' : Impl} {body : ℕ}
      → body ≢ null
      → get_next_ptr h'.blocks h'.freep ≡ null
      → AllocatedHeap lo hi n h free live (returns body h')

one_or_more : (b : ℕ) (zs : List Cell) → has_empty b zs ≡ true → (length zs ≡ 1) ⊎ (1 < length zs)
one_or_more b [] e = absurd (ground (arith, e))
one_or_more b (z ∷ []) e = inl refl
one_or_more b (z ∷ y ∷ zs) e = inr (omega arith)

handed_out :
    (lo hi n : ℕ) (h h' : Impl) (free live : List Cell) (req body : ℕ)
    → Heap lo hi n h free live
    → 1 < req
    → Got h h' free req body
    → AllocatedHeap lo hi n h free live (returns body h')
handed_out lo hi n h h' free live req body s r g = elim g.free [
  | inr x ↦ used_up (omega (arith, g.at)) x.3
  | inl ring ↦ elim (one_or_more lo g.rest (g.kept lo s.anchored)) [
    | inl one ↦ used_up (omega (arith, g.at)) (g.last lo s.anchored one).3
    | inr many ↦
        let o =
          Owned-Leaves h.blocks h'.blocks lo hi free ((g.block, g.count) ∷ g.rest) live g.leaves
            s.owned in
        let w = g.leaves.within lo hi s.within in
        let e = g.enough in
        let low : lo < g.block = omega (arith, w.0, e, r) in
        let top : g.block + 16 * g.count ≤ hi = omega (arith, w.0, e, r) in
        let room = s.room in
        handed g.block g.count g.rest g.at (record {
          members = (g.bounds.1 ∙ s.members.0, g.bounds.0 ∙ s.members.1);
          room = s.room;
          ring = ring;
          many = many;
          anchored = g.kept lo s.anchored;
          within = w.1;
          owned = (
            record {
              header = g.header;
              pos = omega (arith, e, r);
              aligned = g.aligned;
              fits = omega (arith, top, room);
              apart = g.apart;
            },
            omega (arith, e, r),
            low,
            top,
            Owned-tail h'.blocks lo hi (g.block, g.count) g.rest live o,
          );
          disjoint = (Owned-apart h'.blocks lo hi g.block g.count g.rest live o, s.disjoint);
          conserved = omega (arith, g.conserved, s.conserved);
        })
  ]
]

allocated_heap :
    (lo hi n : ℕ) (h : Impl) (free live : List Cell) (req : ℕ) (o : Outcome)
    → Heap lo hi n h free live
    → 1 < req
    → Allocated h free req o
    → AllocatedHeap lo hi n h free live o
allocated_heap lo hi n h free live req o s r (full x) = refused
allocated_heap lo hi n h free live req o s r (got {h' = h'} {body = body} g) =
    handed_out lo hi n h h' free live req body s r g

-- With enough fuel, a request of at least one byte ends: it is refused and nothing changes, or it gets a
-- block that overlaps neither a free block nor one that is handed out, while all of those keep their
-- places and headers, or it uses up the free list.
pub allocate-AllocatedHeap :
    (lo hi n fuel : ℕ) (h : Impl) (bytes align : ℕ) (free live : List Cell)
    → Heap lo hi n h free live
    → 0 < bytes
    → bytes + 32 < word_mod
    → (align ≡ 0) ⊎ SmallAlign align
    → length free < fuel
    → AllocatedHeap lo hi n h free live (allocate fuel h bytes align)
allocate-AllocatedHeap lo hi n fuel h bytes align [] live s pos w al f =
    absurd (omega (arith, s.many))
allocate-AllocatedHeap lo hi n fuel h bytes align (c ∷ zs) live s pos w al f =
    allocated_heap lo hi n h (c ∷ zs) live ((bytes + 15) / 16 + 1) (allocate fuel h bytes align) s
      (omega (arith, pos))
      (allocate-Allocated fuel h bytes align c zs s.ring w al (omega (arith, f)))

-- What `deallocate` of the block `(a, k)` comes to.
pub data FreedHeap (lo hi n : ℕ) (live : List Cell) : Outcome → Type 0 where
  back :
      {h' : Impl} (rest : List Cell) → Heap lo hi n h' rest live → FreedHeap lo hi n live (done h')

freed_heap :
    (lo hi n : ℕ) (h : Impl) (free live : List Cell) (a k : ℕ) (o : Outcome)
    → Heap lo hi n h free ((a, k) ∷ live)
    → Freeing h free a k lo o
    → FreedHeap lo hi n live o
freed_heap lo hi n h free live a k o s (freed {h' = h'} g) =
    let b = s.owned in
    back g.rest (record {
      members = (g.bounds.1 ∙ s.members.0, g.bounds.0 ∙ s.members.1);
      room = s.room;
      ring = g.ring;
      many = g.many;
      anchored = g.anchored;
      within = g.leaves.within lo hi (inr (b.2, b.3), s.within);
      owned =
          Owned-Leaves h.blocks h'.blocks lo hi ((a, k) ∷ free) g.rest live g.leaves
            (Owned-more h.blocks lo hi a k free live b.4 s.disjoint.0);
      disjoint = s.disjoint.1;
      conserved = omega (arith, g.conserved, s.conserved);
    })

Heap-middle :
    (lo hi n : ℕ) (h : Impl) (free us vs : List Cell) (a k : ℕ)
    → Heap lo hi n h free (us ++ (a, k) ∷ vs)
    → Heap lo hi n h free ((a, k) ∷ us ++ vs)
Heap-middle lo hi n h free us vs a k s =
    let d = Disjoint-middle (a, k) us vs s.disjoint in
    record {
      members = s.members;
      room = s.room;
      ring = s.ring;
      many = s.many;
      anchored = s.anchored;
      within = s.within;
      owned = Owned-middle h.blocks lo hi a k free us vs s.owned;
      disjoint = (d.1, d.0);
      conserved = omega (arith, s.conserved, total-append us ((a, k) ∷ vs), total-append us vs);
    }

first_freed :
    (lo hi n fuel : ℕ) (h : Impl) (free live : List Cell) (a k : ℕ)
    → Heap lo hi n h free ((a, k) ∷ live)
    → length free < fuel
    → FreedHeap lo hi n live (deallocate fuel h (a + 16))
first_freed lo hi n fuel h [] live a k s f = absurd (omega (arith, s.many))
first_freed lo hi n fuel h (c ∷ []) live a k s f = absurd (omega (arith, s.many))
first_freed lo hi n fuel h (c ∷ d ∷ zs) live a k s f =
    let b = s.owned in
    let base = s.members.0 in
    let end = s.members.1 in
    freed_heap lo hi n h (c ∷ d ∷ zs) live a k (deallocate fuel h (a + 16)) s (
      subst (λ q. Freeing h (c ∷ d ∷ zs) a k q (deallocate fuel h (a + 16))) base
        (deallocate-Freeing fuel h a k c d zs s.ring b.0
          (subst (λ q. has_empty q (c ∷ d ∷ zs) ≡ true) (sym base) s.anchored)
          (omega (arith, b.2, base)) (omega (arith, b.1, b.3, end)) (omega (arith, f))))

-- With enough fuel, the release of any block that is handed out ends without an error: the block is free
-- again, and all others that are handed out keep their places and headers.
pub deallocate-FreedHeap :
    (lo hi n fuel : ℕ) (h : Impl) (free us vs : List Cell) (a k : ℕ)
    → Heap lo hi n h free (us ++ (a, k) ∷ vs)
    → length free < fuel
    → FreedHeap lo hi n (us ++ vs) (deallocate fuel h (a + 16))
deallocate-FreedHeap lo hi n fuel h free us vs a k s f =
    first_freed lo hi n fuel h free (us ++ vs) a k (Heap-middle lo hi n h free us vs a k s) f
