-- ===== src/Malloc/Rings.antt =====
-- The free list of the allocator as a list of blocks: the headers lead from each to the next.
use procshared_mem.Base.{
  ℕ, ◌+◌, ◌*◌, ◌≤◌, ◌<◌, ◌≡◌, refl, ap, ◌∙◌, ◌≢◌, ◌⊎◌, inl, inr, true, false, Bool-cases, List, [],
  ◌∷◌, ◌++◌, ◌==◌, if◌then◌else◌, arith,
}
use procshared_mem.Base.Word.{word_mod, IsWord}
use procshared_mem.OffsetPtr.{Ptr, null}
use procshared_mem.OffsetPtr
use procshared_mem.OffsetPtr.Address.{get-construct}
use procshared_mem.Malloc.{Blocks, get_next_ptr, set_next_ptr, slot}
use procshared_mem.Malloc.Cells.{
  Cell, has, ApartAll, Disjoint, Placed, Disjoint-rotate, Placed-append, Placed-split, Within,
  ApartAll-rotate, Within-rotate,
}

-- From `p` the headers lead through the blocks `zs` to `stop`.
abbrev pub Seg : Blocks → Ptr → List Cell → Ptr → Type 0
Seg m p [] stop = p ≡ stop
Seg m p ((a, s) ∷ zs) stop =
    (p ≡ a) × (a ≢ null) × (m.size a ≡ s) × Seg m (get_next_ptr m a) zs stop

pub Seg-append :
    (m : Blocks) (p mid stop : Ptr) (xs ys : List Cell)
    → Seg m p xs mid
    → Seg m mid ys stop
    → Seg m p (xs ++ ys) stop
Seg-append m p mid stop [] ys s t = rw s t
Seg-append m p mid stop ((a, n) ∷ xs) ys s t =
    (s.0, s.1, s.2, Seg-append m (get_next_ptr m a) mid stop xs ys s.3 t)

-- Where a list of blocks is cut, its headers lead to the first block behind the cut.
pub Seg-split :
    (m : Blocks) (p stop a : Ptr) (n : ℕ) (xs ys : List Cell)
    → Seg m p (xs ++ (a, n) ∷ ys) stop
    → Seg m p xs a × Seg m a ((a, n) ∷ ys) stop
Seg-split m p stop a n [] ys s = (s.0, (refl, s.1, s.2, s.3))
Seg-split m p stop a n ((b, k) ∷ xs) ys s =
    let (l, r) = Seg-split m (get_next_ptr m b) stop a n xs ys s.3 in ((s.0, s.1, s.2, l), r)

-- Headers elsewhere may change.
pub Seg-frame :
    (m m' : Blocks) (p stop : Ptr) (zs : List Cell)
    → ((a : Ptr) → has a zs ≡ true → (m'.next a ≡ m.next a) × (m'.size a ≡ m.size a))
    → Seg m p zs stop
    → Seg m' p zs stop
unfolding get_next_ptr OffsetPtr.get
Seg-frame m m' p stop [] same s = s
Seg-frame m m' p stop ((a, n) ∷ zs) same s =
    let e : get_next_ptr m' a ≡ get_next_ptr m a =
      ap (OffsetPtr.calc_address a) (same a (ground arith)).0 in
    (
      s.0,
      s.1,
      (same a (ground arith)).1 ∙ s.2,
      rw e (Seg-frame m m' (get_next_ptr m a) stop zs (λ b h. same b (ground arith)) s.3),
    )

-- Reading back what `set_next_ptr` wrote: a block cannot point to itself.
pub get_next_ptr-set_next_ptr :
    (m : Blocks) (b nxt : Ptr)
    → IsWord b
    → IsWord nxt
    → get_next_ptr (set_next_ptr m b nxt) b ≡ (if nxt == b then null else nxt)
unfolding get_next_ptr set_next_ptr
get_next_ptr-set_next_ptr m b nxt hb hn = (get-construct m.next b nxt hb hn).0

-- Without overflow the slots of a block are 16 bytes each.
pub slot_lem : (b k : ℕ) → b + 16 * k + 16 < word_mod → slot b k ≡ b + 16 * k
unfolding slot
slot_lem b k h = omega arith

-- No block starts inside a block that is apart from it.
pub apart_outside :
    (b p s : ℕ) (zs : List Cell)
    → ApartAll (p, s) zs
    → has b zs ≡ true
    → (b < p) ⊎ ((p + 16 * s ≤ b) × (p < b))
apart_outside b p s [] a h = absurd (ground arith)
apart_outside b p s ((q, t) ∷ zs) a h = ground (arith, apart_outside b p s zs a.1)

-- The free list as a ring from the rover: its headers lead round, and its blocks are disjoint and
-- well placed.
pub record Ring (m : Blocks) (f : Ptr) (zs : List Cell) : Type 0 where
  pub chain : Seg m f zs f
  pub disjoint : Disjoint zs
  pub placed : Placed zs

pub Ring-rotate :
    (m : Blocks) (f p s : ℕ) (us vs : List Cell)
    → Ring m f (us ++ (p, s) ∷ vs)
    → Ring m p ((p, s) ∷ vs ++ us)
Ring-rotate m f p s us vs r =
    let (l, k) = Seg-split m f f p s us vs r.chain in
    let (pl, pr) = Placed-split us ((p, s) ∷ vs) r.placed in
    record {
      chain = Seg-append m p f p ((p, s) ∷ vs) us k l;
      disjoint = Disjoint-rotate us ((p, s) ∷ vs) r.disjoint;
      placed = Placed-append ((p, s) ∷ vs) us pr pl;
    }

pub get_next_ptr-set_next_ptr_other :
    (m : Blocks) (b nxt a : Ptr) → a ≢ b → get_next_ptr (set_next_ptr m b nxt) a ≡ get_next_ptr m a
unfolding get_next_ptr set_next_ptr OffsetPtr.construct OffsetPtr.get
get_next_ptr-set_next_ptr_other m b nxt a ne = ap (OffsetPtr.calc_address a) (ground arith)

-- Where a segment starts: at its stop, or at a block of it.
pub Seg-start :
    (m : Blocks) (g p : Ptr) (ws : List Cell) → Seg m g ws p → (g ≡ p) ⊎ (has g ws ≡ true)
Seg-start m g p [] e = inl e
Seg-start m g p ((d, u) ∷ ws) (e, _, _, _) = inr (ground arith)

-- The rover stands on the first block of the ring, and the chain comes back to it only at the end.
pub rover_away :
    (m : Blocks) (f p s : ℕ) (zs : List Cell) → Ring m f ((p, s) ∷ zs) → has f zs ≡ false
rover_away m f p s zs r = elim (Bool-cases (has f zs)) [
  | inl i ↦ absurd (omega (arith, r.chain.0, apart_outside f p s zs r.disjoint.0 i))
  | inr out ↦ out
]

-- What a change of the free list from `zs` to `rest` leaves alone: the blocks that are apart from all of
-- `zs` are apart from all of `rest`, and keep their headers; and no block leaves the area.
pub record Leaves (m m' : Blocks) (zs rest : List Cell) : Type 0 where
  pub others : (b t : ℕ) → ApartAll (b, t) zs → ApartAll (b, t) rest × (m'.size b ≡ m.size b)
  pub within : (lo hi : ℕ) → Within lo hi zs → Within lo hi rest

pub Leaves-rotate :
    (m m' : Blocks) (us ws rest : List Cell)
    → Leaves m m' (ws ++ us) rest
    → Leaves m m' (us ++ ws) rest
Leaves-rotate m m' us ws rest l = record {
  others = λ b t a. l.others b t (ApartAll-rotate b t us ws a);
  within = λ lo hi a. l.within lo hi (Within-rotate lo hi us ws a);
}
