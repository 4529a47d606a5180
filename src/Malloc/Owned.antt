-- ===== src/Malloc/Owned.antt =====
-- The blocks that are handed out, beside the free ones.
use procshared_mem.Base.{ℕ, ◌+◌, ◌*◌, ◌≤◌, ◌<◌, ◌∙◌, List, [], ◌∷◌, ◌++◌}
use procshared_mem.Malloc.{Blocks}
use procshared_mem.Malloc.Cells.{
  Cell, Apart-sym, ApartAll, ApartAll-append, ApartAll-split, Disjoint,
}
use procshared_mem.Malloc.Rings.{Leaves}
use procshared_mem.Malloc.Joins.{IsBlock}

-- A block of at least two headers, its own and one for its body, between `lo` and `hi`.
abbrev pub Owned : Blocks → (lo hi : ℕ) → List Cell → List Cell → Type 0
Owned m lo hi free [] = Unit {0}
Owned m lo hi free ((a, k) ∷ live) =
    IsBlock m free a k × (1 < k) × (lo < a) × (a + 16 * k ≤ hi) × Owned m lo hi free live

-- The blocks that were handed out before are not touched by an operation.
pub Owned-Leaves :
    (m m' : Blocks) (lo hi : ℕ) (free rest live : List Cell)
    → Leaves m m' free rest
    → Owned m lo hi free live
    → Owned m' lo hi rest live
Owned-Leaves m m' lo hi free rest [] l o = tt
Owned-Leaves m m' lo hi free rest ((a, k) ∷ live) l o =
    let x = l.others a k o.0.apart in
    (
      record {
        header = x.1 ∙ o.0.header;
        pos = o.0.pos;
        aligned = o.0.aligned;
        fits = o.0.fits;
        apart = x.0;
      },
      o.1,
      o.2,
      o.3,
      Owned-Leaves m m' lo hi free rest live l o.4,
    )

-- A list of free blocks less its first one.
pub Owned-tail :
    (m : Blocks) (lo hi : ℕ) (c : Cell) (free live : List Cell)
    → Owned m lo hi (c ∷ free) live
    → Owned m lo hi free live
Owned-tail m lo hi c free [] o = tt
Owned-tail m lo hi c free ((a, k) ∷ live) o = (
  record {
    header = o.0.header;
    pos = o.0.pos;
    aligned = o.0.aligned;
    fits = o.0.fits;
    apart = o.0.apart.1;
  },
  o.1,
  o.2,
  o.3,
  Owned-tail m lo hi c free live o.4,
)

pub Owned-apart :
    (m : Blocks) (lo hi a k : ℕ) (free live : List Cell)
    → Owned m lo hi ((a, k) ∷ free) live
    → ApartAll (a, k) live
Owned-apart m lo hi a k free [] o = tt
Owned-apart m lo hi a k free ((b, t) ∷ live) o =
    (Apart-sym (b, t) (a, k) o.0.apart.0, Owned-apart m lo hi a k free live o.4)

-- The block `(a, k)` out of the list of those that are handed out.
pub Owned-middle :
    (m : Blocks) (lo hi a k : ℕ) (free us vs : List Cell)
    → Owned m lo hi free (us ++ (a, k) ∷ vs)
    → Owned m lo hi free ((a, k) ∷ us ++ vs)
Owned-middle m lo hi a k free [] vs o = o
Owned-middle m lo hi a k free ((b, t) ∷ us) vs o =
    let r = Owned-middle m lo hi a k free us vs o.4 in
    (r.0, r.1, r.2, r.3, (o.0, o.1, o.2, o.3, r.4))

pub Disjoint-middle :
    (c : Cell) (us vs : List Cell)
    → Disjoint (us ++ c ∷ vs)
    → Disjoint (us ++ vs) × ApartAll c (us ++ vs)
Disjoint-middle c [] vs d = (d.1, d.0)
Disjoint-middle c (x ∷ us) vs d =
    let r = Disjoint-middle c us vs d.1 in
    let (l, m) = ApartAll-split x us (c ∷ vs) d.0 in
    ((ApartAll-append x us vs l m.1, r.0), (Apart-sym x c m.0, r.1))

-- The others among them are apart from the block that comes back.
pub Owned-more :
    (m : Blocks) (lo hi a k : ℕ) (free live : List Cell)
    → Owned m lo hi free live
    → ApartAll (a, k) live
    → Owned m lo hi ((a, k) ∷ free) live
Owned-more m lo hi a k free [] o d = tt
Owned-more m lo hi a k free ((b, t) ∷ live) o d = (
  record {
    header = o.0.header;
    pos = o.0.pos;
    aligned = o.0.aligned;
    fits = o.0.fits;
    apart = (Apart-sym (a, k) (b, t) d.0, o.0.apart);
  },
  o.1,
  o.2,
  o.3,
  Owned-more m lo hi a k free live o.4 d.1,
)
