-- ===== src/Malloc/Search.antt =====
-- The loop of `allocate` is a first-fit search of the free list from the rover.
use procshared_mem.Base.{
  ℕ, zero, suc, ◌+◌, ◌≤◌, ◌<◌, ◌≡◌, refl, ap, ◌≢◌, inl, inr, true, false, not, ◌&&◌, List, [], ◌∷◌,
  ◌++◌, ◌==◌, ltb, leb, if◌then◌else◌, length, Bool-cases, arith,
}
use procshared_mem.OffsetPtr.{null}
use procshared_mem.Malloc.{Impl, Outcome, returns, get_next_ptr, carve, take_whole, allocate_loop}
use procshared_mem.Malloc.Cells.{Cell, has}
use procshared_mem.Malloc.Rings.{Seg}

abbrev pub Smaller : ℕ → List Cell → Type 0
Smaller n [] = Unit {0}
Smaller n ((_, s) ∷ zs) = (s < n) × Smaller n zs

-- No block satisfies the request: a block behind another serves from `req` headers on, the first one
-- only when it can be cut.
abbrev pub NoFit : ℕ → List Cell → Type 0
NoFit req [] = Unit {0}
NoFit req ((_, s) ∷ zs) = (s ≤ req + 1) × Smaller req zs

-- What the search does with the blocks `zs`, in the order in which it meets them.
pub data Search (h : Impl) (req align : ℕ) (zs : List Cell) : Outcome → Type 0 where
  nothing : NoFit req zs → Search h req align zs (returns null h)
  cut :
      (us vs : List Cell) (p s : ℕ)
      → zs ≡ us ++ (p, s) ∷ vs
      → req + 1 < s
      → Search h req align zs (carve h req align p)
  whole :
      (us vs : List Cell) (q t p s : ℕ)
      → zs ≡ us ++ (q, t) ∷ (p, s) ∷ vs
      → req ≤ s
      → s ≤ req + 1
      → Search h req align zs (take_whole h req align q p (get_next_ptr h.blocks p))

Search-cons :
    {h : Impl} {req align : ℕ} {zs : List Cell} {o : Outcome} (q t p s : ℕ)
    → t ≤ req + 1
    → s < req
    → Search h req align ((p, s) ∷ zs) o
    → Search h req align ((q, t) ∷ (p, s) ∷ zs) o
Search-cons q t p s small less (nothing a) = nothing (small, (less, a.1))
Search-cons q t p s small less (cut us vs p' s' e l) =
    cut ((q, t) ∷ us) vs p' s' (ap (◌∷◌ (q, t)) e) l
Search-cons q t p s small less (whole us vs q' t' p' s' e l u) =
    whole ((q, t) ∷ us) vs q' t' p' s' (ap (◌∷◌ (q, t)) e) l u

-- One round at the block `(p, s)` behind the block `(q, t)`.
abbrev Round : Impl → (req align : ℕ) → (p_end q p s : ℕ) → Outcome → Outcome
Round h req align p_end q p s rest =
    if ltb (req + 1) s
    then carve h req align p
    else if not (q == null) && leb req s
    then take_whole h req align q p (get_next_ptr h.blocks p)
    else if get_next_ptr h.blocks p == p_end
    then returns null h
    else rest

allocate_loop-suc :
    (fuel : ℕ) (h : Impl) (req align p_end q p s : ℕ)
    → p ≢ null
    → h.blocks.size p ≡ s
    → allocate_loop (suc fuel) h req align p_end p q
      ≡ Round h req align p_end q p s
          (allocate_loop fuel h req align p_end (get_next_ptr h.blocks p) p)
unfolding allocate_loop
allocate_loop-suc fuel h req align p_end q p s ne e = ground arith

==-true : (a b : ℕ) → a ≡ b → (a == b) ≡ true
==-true a b e = ground arith

module _ (h : Impl) (req align p_end : ℕ) where
  -- A block that comes behind another one: cut, taken, or passed over.
  Round-behind :
      (q t p s : ℕ) (zs : List Cell) (rest : Outcome)
      → q ≢ null
      → t ≤ req + 1
      → (s < req
          → Search h req align
              ((p, s) ∷ zs)
              (if get_next_ptr h.blocks p == p_end then returns null h else rest))
      → Search h req align ((q, t) ∷ (p, s) ∷ zs) (Round h req align p_end q p s rest)
  Round-behind q t p s zs rest nq small later = elim (Bool-cases (ltb (req + 1) s)) [
    | inl big ↦ rw big (cut ((q, t) ∷ []) zs p s refl (ground arith))
    | inr no_cut ↦ elim (Bool-cases (not (q == null) && leb req s)) [
      | inl fits ↦ rw (no_cut, fits) (whole [] zs q t p s refl (ground arith) (ground arith))
      | inr unfit ↦
          let less : s < req = ground arith in
          rw (no_cut, unfit) (Search-cons q t p s small less (later less))
    ]
  ]

  -- The rest of the ring, behind a block that was passed over.
  Search-behind :
      (fuel q t cur : ℕ) (c : Cell) (zs : List Cell)
      → q ≢ null
      → t ≤ req + 1
      → Seg h.blocks cur (c ∷ zs) p_end
      → has p_end (c ∷ zs) ≡ false
      → length zs < fuel
      → Search h req align ((q, t) ∷ c ∷ zs) (allocate_loop fuel h req align p_end cur q)
  Search-behind zero q t cur c zs nq small seg away f = absurd (omega arith)
  Search-behind (suc fuel) q t cur (p, s) [] nq small (e, np, es, last) away f =
      rw (e, allocate_loop-suc fuel h req align p_end q p s np es)
        (Round-behind q t p s [] _ nq small
          λ less. rw (==-true _ _ last) (nothing (omega arith, tt)))
  Search-behind (suc fuel) q t cur (p, s) ((d, u) ∷ zs) nq small (e, np, es, rest) away f =
      rw (e, allocate_loop-suc fuel h req align p_end q p s np es)
        (Round-behind q t p s ((d, u) ∷ zs) _ nq small λ less.
          let more : (get_next_ptr h.blocks p == p_end) ≡ false = ground arith in
          rw more (
            Search-behind fuel p s (get_next_ptr h.blocks p) (d, u) zs np (omega arith) rest
              (ground arith) (omega arith)))

  -- The search of the whole ring, which starts with no block behind.
  pub Search-Ring :
      (fuel cur : ℕ) (c : Cell) (zs : List Cell)
      → Seg h.blocks cur (c ∷ zs) p_end
      → has p_end zs ≡ false
      → length zs + 1 < fuel
      → Search h req align (c ∷ zs) (allocate_loop fuel h req align p_end cur null)
  Search-Ring zero cur c zs seg away f = absurd (omega arith)
  Search-Ring (suc fuel) cur (p, s) zs (e, np, es, rest) away f =
      rw (e, allocate_loop-suc fuel h req align p_end null p s np es) (first zs rest away f)
    where
      first :
          (ws : List Cell)
          → Seg h.blocks (get_next_ptr h.blocks p) ws p_end
          → has p_end ws ≡ false
          → length ws + 1 < suc fuel
          → Search h req align ((p, s) ∷ ws) (
              Round h req align p_end null p s
                (allocate_loop fuel h req align p_end (get_next_ptr h.blocks p) p))
      first [] last a k = elim (Bool-cases (ltb (req + 1) s)) [
        | inl big ↦ rw big (cut [] [] p s refl (ground arith))
        | inr no_cut ↦ rw (no_cut, ==-true _ _ last) (nothing (ground arith, tt))
      ]
      first ((d, u) ∷ ws) more a k = elim (Bool-cases (ltb (req + 1) s)) [
        | inl big ↦ rw big (cut [] ((d, u) ∷ ws) p s refl (ground arith))
        | inr no_cut ↦
            let on : (get_next_ptr h.blocks p == p_end) ≡ false = ground arith in
            rw (no_cut, on)
              (Search-behind fuel p s (get_next_ptr h.blocks p) (d, u) ws np (ground arith) more a
                (omega arith))
      ]
