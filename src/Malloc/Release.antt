-- ===== src/Malloc/Release.antt =====
-- What `release` makes of the free list, and what it leaves alone.
use procshared_mem.Base.{
  ℕ, ◌+◌, ◌*◌, ◌<◌, ◌≡◌, refl, ap, ◌∙◌, ◌⊎◌, inl, inr, true, false, ◌&&◌, List, [], ◌∷◌, ◌++◌, ◌==◌,
  if◌then◌else◌, length, length-append, Bool-cases, arith,
}
use procshared_mem.Base.Word.{add_word}
use procshared_mem.OffsetPtr.{Ptr}
use procshared_mem.Malloc.{
  in_gap, Blocks, Impl, Outcome, done, get_next_ptr, set_next_ptr, set_blk_size, release,
}
use procshared_mem.Malloc.Cells.{
  Cell, ApartAll-split, ApartAll-append, total, total-append, has, has-append, has_empty,
  has_empty-append, Within-rotate, ApartAll-rotate,
}
use procshared_mem.Malloc.Rings.{Ring, Leaves}
use procshared_mem.Malloc.Joins.{
  IsBlock, Ring-insert, Ring-join_both, Ring-join_nxt, Ring-join_pre, get_end_ptr_lem,
}

-- Whether the block `(a, k)` begins where the free block at `p` ends, and ends where the next one begins.
abbrev pub touches_pre : Blocks → (p a : Ptr) → ℕ
touches_pre m p a = if p + 16 * m.size p == a then 1 else 0

abbrev pub touches_nxt : Blocks → (p a k : ℕ) → ℕ
touches_nxt m p a k = if a + 16 * k == get_next_ptr m p then 1 else 0

-- The allocator after the block `(a, k)` came back to the free blocks `zs`: the ring holds the headers of
-- all of them, still the block of size zero at `anchor`, and at least one more. The rover is the free
-- block behind which the block belongs, and each of its two neighbours there that it touches has become
-- one block with it.
pub record Freed (h h' : Impl) (zs : List Cell) (a k anchor : ℕ) : Type 0 where
  pub rest : List Cell
  pub ring : Ring h'.blocks h'.freep rest
  pub conserved : total rest ≡ total zs + k
  pub anchored : has_empty anchor rest ≡ true
  pub bounds : (h'.end ≡ h.end) × (h'.base ≡ h.base)
  pub leaves : Leaves h.blocks h'.blocks ((a, k) ∷ zs) rest
  pub many : 1 < length rest
  pub known : has h'.freep zs ≡ true
  pub between : in_gap h'.freep a (get_next_ptr h.blocks h'.freep) ≡ true
  pub merged :
      length rest + touches_pre h.blocks h'.freep a + touches_nxt h.blocks h'.freep a k
      ≡ length zs + 1

pub data Freeing (h : Impl) (zs : List Cell) (a k anchor : ℕ) : Outcome → Type 0 where
  freed : {h' : Impl} → Freed h h' zs a k anchor → Freeing h zs a k anchor (done h')

-- What the four cases leave alone.
both-Leaves :
    (m : Blocks) (n p s q u a k : ℕ) (ws : List Cell)
    → p < a
    → 0 < k
    → p + 16 * s ≡ a
    → a + 16 * k ≡ q
    → Leaves m
        (set_blk_size (set_next_ptr m p n) p (s + k + u))
        ((a, k) ∷ (p, s) ∷ (q, u) ∷ ws)
        ((p, s + k + u) ∷ ws)
unfolding set_blk_size set_next_ptr
both-Leaves m n p s q u a k ws above pos e e' = record {
  others = λ b t x. ((omega (arith, x.0, x.1.0, x.1.1.0, e, e'), x.1.1.1), ground (arith, x.1.0));
  within = λ lo hi x. (inr (omega (arith, x.0, x.1.0, x.1.1.0, e, e')), x.1.1.1);
}

pre-Leaves :
    (m : Blocks) (p s a k : ℕ) (ws : List Cell)
    → p < a
    → 0 < k
    → p + 16 * s ≡ a
    → Leaves m (set_blk_size m p (s + k)) ((a, k) ∷ (p, s) ∷ ws) ((p, s + k) ∷ ws)
unfolding set_blk_size
pre-Leaves m p s a k ws above pos e = record {
  others = λ b t x. ((omega (arith, x.0, x.1.0, e), x.1.1), ground (arith, x.1.0));
  within = λ lo hi x. (inr (omega (arith, x.0, x.1.0, e)), x.1.1);
}

nxt-Leaves :
    (m : Blocks) (n p s q u a k : ℕ) (ws : List Cell)
    → p < a
    → 0 < k
    → a + 16 * k ≡ q
    → Leaves m
        (set_blk_size (set_next_ptr (set_next_ptr m a n) p a) a (k + u))
        ((a, k) ∷ (p, s) ∷ (q, u) ∷ ws)
        ((p, s) ∷ (a, k + u) ∷ ws)
unfolding set_blk_size set_next_ptr
nxt-Leaves m n p s q u a k ws above pos e = record {
  others = λ b t x. ((x.1.0, (omega (arith, x.0, x.1.1.0, e), x.1.1.1)), ground (arith, x.0));
  within = λ lo hi x. (x.1.0, (inr (omega (arith, x.0, x.1.1.0, e)), x.1.1.1));
}

alone-Leaves :
    (m : Blocks) (p s q a k : ℕ) (ws : List Cell)
    → Leaves m (set_next_ptr (set_next_ptr m a q) p a) ((a, k) ∷ (p, s) ∷ ws) ((p, s) ∷ (a, k) ∷ ws)
unfolding set_next_ptr
alone-Leaves m p s q a k ws = record {
  others = λ b t x. ((x.1.0, (x.0, x.1.1)), refl);
  within = λ lo hi x. (x.1.0, (x.0, x.1.1));
}

module _ (h : Impl) (p s q u a k anchor : ℕ) where
  abbrev before : List Cell → List Cell
  before ws = (p, s) ∷ (q, u) ∷ ws

  -- The block of size zero is neither of the neighbours that `a` touches, so the ring goes on.
  freed_both :
      (ws : List Cell)
      → Ring h.blocks p (before ws)
      → IsBlock h.blocks (before ws) a k
      → p < a
      → anchor < a
      → has_empty anchor (before ws) ≡ true
      → p + 16 * s ≡ a
      → a + 16 * k ≡ q
      → in_gap p a q ≡ true
      → Freeing h (before ws) a k anchor (
          done (record h {
            freep = p;
            blocks = set_blk_size (set_next_ptr h.blocks p (get_next_ptr h.blocks q)) p (s + k + u);
          }))
  freed_both [] r b above low anch e e' gap = absurd (ground arith)
  freed_both ((d, v) ∷ ws) r b above low anch e e' gap = freed (record {
    rest = (p, s + k + u) ∷ (d, v) ∷ ws;
    ring = Ring-join_both h.blocks p s q u a k d v ws r b e e';
    conserved = omega arith;
    anchored = ground arith;
    bounds = (refl, refl);
    leaves =
        both-Leaves h.blocks (get_next_ptr h.blocks q) p s q u a k ((d, v) ∷ ws) above b.pos e e';
    many = omega arith;
    known = ground arith;
    between = rw r.chain.3.0 gap;
    merged = rw (r.chain.2, r.chain.3.0) (ground (arith, e, e'));
  })

  module _ (ws : List Cell) (r : Ring h.blocks p (before ws)) (b : IsBlock h.blocks (before ws) a k)
      (above : p < a) (low : anchor < a) (anch : has_empty anchor (before ws) ≡ true)
      (gap : in_gap p a q ≡ true) where
    freed_pre :
        p + 16 * s ≡ a
        → (a + 16 * k == q) ≡ false
        → Freeing h
            (before ws)
            a
            k
            anchor
            (done (record h { freep = p; blocks = set_blk_size h.blocks p (s + k) }))
    freed_pre e ne = freed (record {
      rest = (p, s + k) ∷ (q, u) ∷ ws;
      ring = Ring-join_pre h.blocks p s q u a k ws r b e;
      conserved = omega arith;
      anchored = ground arith;
      bounds = (refl, refl);
      leaves = pre-Leaves h.blocks p s a k ((q, u) ∷ ws) above b.pos e;
      many = omega arith;
      known = ground arith;
      between = rw r.chain.3.0 gap;
      merged = rw (r.chain.2, r.chain.3.0) (ground (arith, e, ne));
    })

    freed_nxt :
        a + 16 * k ≡ q
        → (p + 16 * s == a) ≡ false
        → Freeing h (before ws) a k anchor (
            done (record h {
              freep = p;
              blocks =
                  set_blk_size
                    (set_next_ptr (set_next_ptr h.blocks a (get_next_ptr h.blocks q)) p a)
                    a
                    (k + u);
            }))
    freed_nxt e ne = freed (record {
      rest = (p, s) ∷ (a, k + u) ∷ ws;
      ring = Ring-join_nxt h.blocks p s q u a k ws r b above e;
      conserved = omega arith;
      anchored = ground arith;
      bounds = (refl, refl);
      leaves = nxt-Leaves h.blocks (get_next_ptr h.blocks q) p s q u a k ws above b.pos e;
      many = omega arith;
      known = ground arith;
      between = rw r.chain.3.0 gap;
      merged = rw (r.chain.2, r.chain.3.0) (ground (arith, e, ne));
    })

    freed_alone :
        (p + 16 * s == a) ≡ false
        → (a + 16 * k == q) ≡ false
        → Freeing h
            (before ws)
            a
            k
            anchor
            (done (record h { freep = p; blocks = set_next_ptr (set_next_ptr h.blocks a q) p a }))
    freed_alone e ne = freed (record {
      rest = (p, s) ∷ (a, k) ∷ (q, u) ∷ ws;
      ring = Ring-insert h.blocks p s q u a k ws r b above;
      conserved = omega arith;
      anchored = ground arith;
      bounds = (refl, refl);
      leaves = alone-Leaves h.blocks p s q a k ((q, u) ∷ ws);
      many = omega arith;
      known = ground arith;
      between = rw r.chain.3.0 gap;
      merged = rw (r.chain.2, r.chain.3.0) (ground (arith, e, ne));
    })

    -- The ring is one block longer, or as long, or one shorter, by the neighbours that `a` touches.
    pub release-Freeing : Freeing h (before ws) a k anchor (release h p a q)
    unfolding release
    release-Freeing = rw (get_end_ptr_lem h.blocks p s r.chain.2 r.placed.2) (
        rw (get_end_ptr_lem h.blocks a k b.header b.fits) (
          rw r.chain.2 (
            rw b.header (
              rw r.chain.3.2
                (cases (Bool-cases (p + 16 * s == a)) (Bool-cases (a + 16 * k == q)))))))
      where
        cases :
            ((p + 16 * s == a) ≡ true) ⊎ ((p + 16 * s == a) ≡ false)
            → ((a + 16 * k == q) ≡ true) ⊎ ((a + 16 * k == q) ≡ false)
            → Freeing h (before ws) a k anchor (
                done (record h {
                  freep = p;
                  blocks =
                      if (p + 16 * s == a) && (a + 16 * k == q)
                      then set_blk_size
                          (set_next_ptr h.blocks p (get_next_ptr h.blocks q))
                          p
                          (add_word (add_word s k) u)
                      else if p + 16 * s == a
                      then set_blk_size h.blocks p (add_word s k)
                      else if a + 16 * k == q
                      then set_blk_size
                          (set_next_ptr (set_next_ptr h.blocks a (get_next_ptr h.blocks q)) p a)
                          a
                          (add_word k u)
                      else set_next_ptr (set_next_ptr h.blocks a q) p a;
                }))
        cases (inl jp) (inl jn) =
            let sum : add_word (add_word s k) u ≡ s + k + u =
              ground (arith, b.fits, r.placed.3.2) in
            rw (jp, jn)
              (rw sum (freed_both ws r b above low anch (ground arith) (ground arith) gap))
        cases (inl jp) (inr nn) =
            let sum : add_word s k ≡ s + k = ground (arith, b.fits) in
            rw (jp, nn) (rw sum (freed_pre (ground arith) nn))
        cases (inr np) (inl jn) =
            let sum : add_word k u ≡ k + u = ground (arith, r.placed.3.2) in
            rw (np, jn) (rw sum (freed_nxt (ground arith) np))
        cases (inr np) (inr nn) = rw (np, nn) (freed_alone np nn)

-- The free list from another block on.
module _ (m : Blocks) (us ws : List Cell) (a k anchor : ℕ) where
  pub IsBlock-rotate : IsBlock m (us ++ ws) a k → IsBlock m (ws ++ us) a k
  IsBlock-rotate b =
      let (l, r) = ApartAll-split (a, k) us ws b.apart in
      record {
        header = b.header;
        pos = b.pos;
        aligned = b.aligned;
        fits = b.fits;
        apart = ApartAll-append (a, k) ws us r l;
      }

  total-rotate : total (us ++ ws) ≡ total (ws ++ us)
  total-rotate = omega (arith, total-append us ws, total-append ws us)

  pub has_empty-rotate : has_empty anchor (us ++ ws) ≡ has_empty anchor (ws ++ us)
  has_empty-rotate = ground (arith, has_empty-append anchor us ws, has_empty-append anchor ws us)

pub Freeing-rotate :
    (h : Impl) (us ws : List Cell) (a k anchor : ℕ) {o : Outcome}
    → Freeing h (ws ++ us) a k anchor o
    → Freeing h (us ++ ws) a k anchor o
Freeing-rotate h us ws a k anchor (freed {h' = h'} f) = freed (record {
  rest = f.rest;
  ring = f.ring;
  conserved = f.conserved ∙ ap (λ n. n + k) (total-rotate h.blocks ws us a k anchor);
  anchored = f.anchored;
  bounds = f.bounds;
  leaves = record {
    others = λ b t x. f.leaves.others b t (x.0, ApartAll-rotate b t us ws x.1);
    within = λ lo hi x. f.leaves.within lo hi (x.0, Within-rotate lo hi us ws x.1);
  };
  many = f.many;
  known = known_rotate h'.freep f.known;
  between = f.between;
  merged = omega (arith, f.merged, length-append us ws, length-append ws us);
})
  where
    known_rotate : (p : Ptr) → has p (ws ++ us) ≡ true → has p (us ++ ws) ≡ true
    known_rotate p e = ground (arith, e, has-append p us ws, has-append p ws us)
