-- ===== src/Malloc/Deallocate.antt =====
-- What `deallocate` does with a block that was handed out.
use procshared_mem.Base.{
  ℕ, zero, suc, ◌+◌, ◌%◌, ◌≤◌, ◌<◌, ◌≡◌, refl, sym, ◌∙◌, ◌≢◌, ◌⊎◌, inl, inr, true, false, List, [],
  ◌∷◌, ◌++◌, length, Bool-cases, arith,
}
use mathlib.Core.List.{append_assoc}
use mathlib.Core.Path.{subst}
use native.Mathlib.Decide.{dec_lt}
use procshared_mem.Base.Word.{word_mod}
use procshared_mem.OffsetPtr.{Ptr, null}
use procshared_mem.Malloc.{
  Impl, get_next_ptr, release, in_gap, deallocate_loop, deallocate, target_block, is_belong_to,
}
use procshared_mem.Malloc.Cells.{Cell, has, has_empty, has_empty-has}
use procshared_mem.Malloc.Rings.{Ring, Ring-rotate, rover_away}
use procshared_mem.Malloc.Joins.{IsBlock}
use procshared_mem.Malloc.Release.{
  Freeing, Freeing-rotate, IsBlock-rotate, has_empty-rotate, release-Freeing,
}

-- What the allocator holds while the block `(a, k)` comes back to the ring `zs` from `f`.
record Held (h : Impl) (f : Ptr) (zs : List Cell) (a k anchor : ℕ) : Type 0 where
  ring : Ring h.blocks f zs
  block : IsBlock h.blocks zs a k
  low : anchor < a
  anchored : has_empty anchor zs ≡ true

Held-rotate :
    (h : Impl) (f p s : ℕ) (us ws : List Cell) (a k anchor : ℕ)
    → Held h f (us ++ (p, s) ∷ ws) a k anchor
    → Held h p ((p, s) ∷ ws ++ us) a k anchor
Held-rotate h f p s us ws a k anchor d = record {
  ring = Ring-rotate h.blocks f p s us ws d.ring;
  block = IsBlock-rotate h.blocks us ((p, s) ∷ ws) a k anchor d.block;
  low = d.low;
  anchored = sym (has_empty-rotate h.blocks us ((p, s) ∷ ws) a k anchor) ∙ d.anchored;
}

-- The gap behind `p` is the one: the neighbour behind it is the next block, or the first one.
release_here :
    (h : Impl) (f p s : ℕ) (us ws : List Cell) (a k anchor : ℕ)
    → Held h f (us ++ (p, s) ∷ ws) a k anchor
    → us ++ ws ≢ []
    → p < a
    → in_gap p a (get_next_ptr h.blocks p) ≡ true
    → Freeing h (us ++ (p, s) ∷ ws) a k anchor (release h p a (get_next_ptr h.blocks p))
release_here h f p s us ((q, u) ∷ ws) a k anchor d two above gap =
    let d' = Held-rotate h f p s us ((q, u) ∷ ws) a k anchor d in
    rw d'.ring.chain.3.0 (
      Freeing-rotate h us ((p, s) ∷ (q, u) ∷ ws) a k anchor (
        release-Freeing h p s q u a k anchor (ws ++ us) d'.ring d'.block above d'.low d'.anchored
          (rw d'.ring.chain.3.0 at gap)))
release_here h f p s ((q, u) ∷ us) [] a k anchor d two above gap =
    let d' = Held-rotate h f p s ((q, u) ∷ us) [] a k anchor d in
    rw d'.ring.chain.3.0 (
      Freeing-rotate h ((q, u) ∷ us) ((p, s) ∷ []) a k anchor (
        release-Freeing h p s q u a k anchor us d'.ring d'.block above d'.low d'.anchored
          (rw d'.ring.chain.3.0 at gap)))
release_here h f p s [] [] a k anchor d two above gap = absurd (two refl)

two_blocks : (c d x : Cell) (zs us ws : List Cell) → c ∷ d ∷ zs ≡ us ++ x ∷ ws → us ++ ws ≢ []
two_blocks c d x zs [] [] e = λ h. cc
two_blocks c d x zs [] (y ∷ ws) e = λ h. cc
two_blocks c d x zs (y ∷ us) ws e = λ h. cc

-- One round of the loop, at the block `p` whose header leads to `q`.
deallocate_loop-here :
    (fuel : ℕ) (h : Impl) (f a p q : ℕ)
    → get_next_ptr h.blocks p ≡ q
    → in_gap p a q ≡ true
    → deallocate_loop (suc fuel) h f a p (get_next_ptr h.blocks p)
      ≡ release h p a (get_next_ptr h.blocks p)
unfolding deallocate_loop
deallocate_loop-here fuel h f a p q e gap = rw e (rw gap)

deallocate_loop-on :
    (fuel : ℕ) (h : Impl) (f a p q : ℕ)
    → get_next_ptr h.blocks p ≡ q
    → in_gap p a q ≡ false
    → q ≢ null
    → q ≢ f
    → deallocate_loop (suc fuel) h f a p (get_next_ptr h.blocks p)
      ≡ deallocate_loop fuel h f a q (get_next_ptr h.blocks q)
unfolding deallocate_loop
deallocate_loop-on fuel h f a p q e gap nn nf = rw e (rw gap (ground arith))

module _ (h : Impl) (f a k anchor : ℕ) (c d : Cell) (zs : List Cell)
    (held : Held h f (c ∷ d ∷ zs) a k anchor) where
  -- Below `a` the walk has climbed from the rover; above it, the block of size zero is still ahead.
  abbrev Phase : Ptr → List Cell → Type 0
  Phase p ws = ((p < a) × ((a < f) ⊎ (f ≤ p))) ⊎ ((a < p) × (a < f) × (has anchor ws ≡ true))

  Phase-next :
      (p q u : ℕ) (ws : List Cell)
      → p ≢ q
      → q ≢ a
      → in_gap p a q ≡ false
      → Phase p ((q, u) ∷ ws)
      → Phase q ws
  unfolding in_gap
  Phase-next p q u ws pq qa gap (inl (below, inl high)) = elim (dec_lt q a) [
    | yes under ↦ inl (under, inl high)
    | no over ↦ absurd (ground arith)
  ]
  Phase-next p q u ws pq qa gap (inl (below, inr climbed)) = elim (dec_lt q a) [
    | yes under ↦ inl (under, inr (ground arith))
    | no over ↦ absurd (ground arith)
  ]
  Phase-next p q u ws pq qa gap (inr (over_p, high, ahead)) = elim (dec_lt q a) [
    | yes under ↦ inl (under, inl high)
    | no over ↦ inr (omega arith, high, ground (arith, held.low))
  ]

  here :
      (fuel p s q : ℕ) (us ws : List Cell)
      → c ∷ d ∷ zs ≡ us ++ (p, s) ∷ ws
      → get_next_ptr h.blocks p ≡ q
      → p < a
      → in_gap p a q ≡ true
      → Freeing h
          (c ∷ d ∷ zs)
          a
          k
          anchor
          (deallocate_loop (suc fuel) h f a p (get_next_ptr h.blocks p))
  here fuel p s q us ws e n above gap = rw (deallocate_loop-here fuel h f a p q n gap) (
      subst (λ l. Freeing h l a k anchor (release h p a (get_next_ptr h.blocks p))) (sym e)
        (release_here h f p s us ws a k anchor (subst (λ l. Held h f l a k anchor) e held)
          (two_blocks c d (p, s) zs us ws e) above (rw n gap)))

  walk :
      (fuel p s : ℕ) (us ws : List Cell)
      → c ∷ d ∷ zs ≡ us ++ (p, s) ∷ ws
      → has f ws ≡ false
      → Phase p ws
      → length ws < fuel
      → Freeing h (c ∷ d ∷ zs) a k anchor (deallocate_loop fuel h f a p (get_next_ptr h.blocks p))
  unfolding in_gap
  walk zero p s us ws e away ph lt = absurd (omega arith)
  walk (suc fuel) p s [] [] e away ph lt = absurd (cc)
  walk (suc fuel) p s ((b, t) ∷ us) [] e away ph lt =
      let d' =
        Held-rotate h f p s ((b, t) ∷ us) [] a k anchor
          (subst (λ l. Held h f l a k anchor) e held) in
      let start : f ≡ b = (subst (λ l. Held h f l a k anchor) e held).ring.chain.0 in
      here fuel p s b ((b, t) ∷ us) [] e d'.ring.chain.3.0 (ground arith)
        (ground (arith, d'.ring.disjoint.0.0))
  walk (suc fuel) p s us ((q, u) ∷ ws) e away ph lt =
      let d' =
        Held-rotate h f p s us ((q, u) ∷ ws) a k anchor
          (subst (λ l. Held h f l a k anchor) e held) in
      elim (Bool-cases (in_gap p a q)) [
        | inl gap ↦ here fuel p s q us ((q, u) ∷ ws) e d'.ring.chain.3.0 (ground arith) gap
        | inr no_gap ↦
            rw
              (deallocate_loop-on fuel h f a p q d'.ring.chain.3.0 no_gap d'.ring.chain.3.1
                (ground arith))
              (walk fuel q u (us ++ (p, s) ∷ []) ws
                (e ∙ sym (append_assoc us ((p, s) ∷ []) ((q, u) ∷ ws))) (ground arith)
                (Phase-next p q u ws (omega (arith, d'.ring.disjoint.0.0))
                  (omega (arith, d'.block.apart.1.0)) no_gap ph)
                (omega arith))
      ]

target_block_lem : (a : ℕ) → a % 16 ≡ 0 → a + 16 < word_mod → target_block (a + 16) ≡ a
unfolding target_block
target_block_lem a h w = omega arith

-- A block that was handed out comes back: with a ring of two blocks or more that holds the block of
-- size zero at `h.base`, enough fuel, and a body pointer to a block above it that is apart from every
-- free block and carries its size, `deallocate` ends without an error, and the free blocks form a ring
-- of disjoint blocks again, with as many headers more as the block has and `h.base` still in it. The
-- rover stands at the free block behind which the block belongs, and the block is joined with this one
-- where it begins at its end, and with the next one where it ends at its start: the ring has one block
-- more, less one for each of the two that it touches.
pub deallocate-Freeing :
    (fuel : ℕ) (h : Impl) (a k : ℕ) (c d : Cell) (zs : List Cell)
    → Ring h.blocks h.freep (c ∷ d ∷ zs)
    → IsBlock h.blocks (c ∷ d ∷ zs) a k
    → has_empty h.base (c ∷ d ∷ zs) ≡ true
    → h.base < a
    → a + 16 < h.end
    → length zs + 2 < fuel
    → Freeing h (c ∷ d ∷ zs) a k h.base (deallocate fuel h (a + 16))
unfolding deallocate is_belong_to
deallocate-Freeing fuel h a k c d zs ring b anch low top lt =
    let target : target_block (a + 16) ≡ a = target_block_lem a b.aligned (omega (arith, b.fits)) in
    let inside : is_belong_to h (a + 16) ≡ true = ground arith in
    let held : Held h h.freep (c ∷ d ∷ zs) a k h.base = record {
      ring = ring;
      block = b;
      low = low;
      anchored = anch;
    } in
    rw inside (
      rw target (
        subst
          (λ p.
            Freeing h (c ∷ d ∷ zs) a k h.base
              (deallocate_loop fuel h h.freep a p (get_next_ptr h.blocks p)))
          (sym ring.chain.0)
          (walk h h.freep a k h.base c d zs held fuel c.0 c.1 [] (d ∷ zs) refl
            (rover_away h.blocks h.freep c.0 c.1 (d ∷ zs) ring) start (omega arith))))
  where
    start :
        ((c.0 < a) × ((a < h.freep) ⊎ (h.freep ≤ c.0)))
        ⊎ ((a < c.0) × (a < h.freep) × (has h.base (d ∷ zs) ≡ true))
    start = elim (dec_lt c.0 a) [
      | yes under ↦ inl (under, inr (omega (arith, ring.chain.0)))
      | no over ↦ inr (
        omega (arith, b.apart.0),
        omega (arith, b.apart.0, ring.chain.0),
        ground (arith, has_empty-has h.base (c ∷ d ∷ zs) anch, b.apart.0),
      )
    ]
