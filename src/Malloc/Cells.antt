-- ===== src/Malloc/Cells.antt =====
-- Blocks by address and size: which share no header slot, and which lie in an area.
use procshared_mem.Base.{
  ℕ, ◌+◌, ◌*◌, ◌%◌, ◌≤◌, ◌<◌, ◌≡◌, refl, ◌⊎◌, inl, inr, Bool, true, false, ◌||◌, ◌&&◌, List, [],
  ◌∷◌, ◌++◌, ◌==◌, arith,
}
use mathlib.Core.List.{append-nil}
use procshared_mem.Base.Word.{word_mod}
use procshared_mem.OffsetPtr.{Ptr}

-- A block as a pair of its address and its size in headers.
abbrev pub Cell : Type 0
Cell = Ptr × ℕ

abbrev pub has : Ptr → List Cell → Bool
has a [] = false
has a ((p, _) ∷ zs) = (a == p) || has a zs

-- Two blocks share no header slot.
abbrev pub Apart : Cell → Cell → Type 0
Apart (p, s) (q, t) = ((p + 16 * s ≤ q) × (p < q)) ⊎ ((q + 16 * t ≤ p) × (q < p))

abbrev pub ApartAll : Cell → List Cell → Type 0
ApartAll c [] = Unit {0}
ApartAll c (d ∷ zs) = Apart c d × ApartAll c zs

abbrev pub Disjoint : List Cell → Type 0
Disjoint [] = Unit {0}
Disjoint (c ∷ zs) = ApartAll c zs × Disjoint zs

-- Each block that has room starts on a header boundary, and each ends below 2 ^ 64.
abbrev pub Placed : List Cell → Type 0
Placed [] = Unit {0}
Placed ((p, s) ∷ zs) = ((s ≡ 0) ⊎ (p % 16 ≡ 0)) × (0 < p) × (p + 16 * s + 16 < word_mod) × Placed zs

abbrev pub total : List Cell → ℕ
total [] = 0
total ((_, s) ∷ zs) = s + total zs

-- The facts about disjointness that the operations share.
pub Apart-sym : (c d : Cell) → Apart c d → Apart d c
Apart-sym c d (inl h) = inr h
Apart-sym c d (inr h) = inl h

pub ApartAll-append :
    (c : Cell) (xs ys : List Cell) → ApartAll c xs → ApartAll c ys → ApartAll c (xs ++ ys)
ApartAll-append c [] ys a b = b
ApartAll-append c (d ∷ xs) ys a b = (a.0, ApartAll-append c xs ys a.1 b)

pub ApartAll-split :
    (c : Cell) (xs ys : List Cell) → ApartAll c (xs ++ ys) → ApartAll c xs × ApartAll c ys
ApartAll-split c [] ys a = (tt, a)
ApartAll-split c (d ∷ xs) ys a = let (l, r) = ApartAll-split c xs ys a.1 in ((a.0, l), r)

Disjoint-insert :
    (d : Cell) (xs ys : List Cell)
    → ApartAll d (xs ++ ys)
    → Disjoint (xs ++ ys)
    → Disjoint (xs ++ d ∷ ys)
Disjoint-insert d [] ys a b = (a, b)
Disjoint-insert d (c ∷ xs) ys a b =
    let (l, r) = ApartAll-split c xs ys b.0 in
    (ApartAll-append c xs (d ∷ ys) l (Apart-sym d c a.0, r), Disjoint-insert d xs ys a.1 b.1)

pub Disjoint-rotate : (xs ys : List Cell) → Disjoint (xs ++ ys) → Disjoint (ys ++ xs)
Disjoint-rotate [] ys a = rw append-nil a
Disjoint-rotate (d ∷ xs) ys a =
    let (l, r) = ApartAll-split d xs ys a.0 in
    Disjoint-insert d ys xs (ApartAll-append d ys xs r l) (Disjoint-rotate xs ys a.1)

pub Placed-append : (xs ys : List Cell) → Placed xs → Placed ys → Placed (xs ++ ys)
Placed-append [] ys a b = b
Placed-append ((p, s) ∷ xs) ys a b = (a.0, a.1, a.2, Placed-append xs ys a.3 b)

pub Placed-split : (xs ys : List Cell) → Placed (xs ++ ys) → Placed xs × Placed ys
Placed-split [] ys a = (tt, a)
Placed-split ((p, s) ∷ xs) ys a = let (l, r) = Placed-split xs ys a.3 in ((a.0, a.1, a.2, l), r)

pub total-append : (xs ys : List Cell) → total (xs ++ ys) ≡ total xs + total ys
total-append [] ys = omega arith
total-append ((_, s) ∷ xs) ys = omega (arith, total-append xs ys)

-- A part of a block is apart from what the block is apart from.
pub ApartAll-part :
    (a k p s : ℕ) (zs : List Cell)
    → p ≤ a
    → a + 16 * k ≤ p + 16 * s
    → 0 < k
    → ApartAll (p, s) zs
    → ApartAll (a, k) zs
ApartAll-part a k p s [] l u pos h = tt
ApartAll-part a k p s ((q, t) ∷ zs) l u pos h =
    (omega (arith, h.0), ApartAll-part a k p s zs l u pos h.1)

-- A block that is apart from all of a list is none of them.
pub apart_not_has : (p s : ℕ) (zs : List Cell) → ApartAll (p, s) zs → has p zs ≡ false
apart_not_has p s [] a = refl
apart_not_has p s ((q, t) ∷ zs) a = ground (arith, a.0, apart_not_has p s zs a.1)

-- Two blocks that touch make one block, apart from what both are apart from.
pub ApartAll-join :
    (p s a k : ℕ) (zs : List Cell)
    → p + 16 * s ≡ a
    → ApartAll (p, s) zs
    → ApartAll (a, k) zs
    → ApartAll (p, s + k) zs
ApartAll-join p s a k [] e x y = tt
ApartAll-join p s a k ((q, t) ∷ zs) e x y =
    (omega (arith, x.0, y.0), ApartAll-join p s a k zs e x.1 y.1)

pub Placed-has :
    (g : Ptr) (zs : List Cell) → Placed zs → has g zs ≡ true → (0 < g) × (g + 16 < word_mod)
Placed-has g [] b i = absurd (ground arith)
Placed-has g ((p, s) ∷ zs) b i = ground (arith, Placed-has g zs b.3)

-- A block of size zero, as `base_blk_` is.
abbrev pub has_empty : Ptr → List Cell → Bool
has_empty b [] = false
has_empty b ((p, s) ∷ zs) = ((b == p) && (s == 0)) || has_empty b zs

pub has_empty-append :
    (b : Ptr) (xs ys : List Cell) → has_empty b (xs ++ ys) ≡ (has_empty b xs || has_empty b ys)
has_empty-append b [] ys = refl
has_empty-append b ((p, s) ∷ xs) ys = ground (arith, has_empty-append b xs ys)

pub has-append : (b : Ptr) (xs ys : List Cell) → has b (xs ++ ys) ≡ (has b xs || has b ys)
has-append b [] ys = refl
has-append b ((p, s) ∷ xs) ys = ground (arith, has-append b xs ys)

pub has_empty-has : (b : Ptr) (zs : List Cell) → has_empty b zs ≡ true → has b zs ≡ true
has_empty-has b [] h = absurd (ground arith)
has_empty-has b ((p, s) ∷ zs) h = ground (arith, has_empty-has b zs)

-- Every block that has room lies between `lo` and `hi`.
abbrev pub Within : ℕ → ℕ → List Cell → Type 0
Within lo hi [] = Unit {0}
Within lo hi ((p, s) ∷ zs) = ((s ≡ 0) ⊎ ((lo < p) × (p + 16 * s ≤ hi))) × Within lo hi zs

pub Within-append :
    (lo hi : ℕ) (xs ys : List Cell) → Within lo hi xs → Within lo hi ys → Within lo hi (xs ++ ys)
Within-append lo hi [] ys a b = b
Within-append lo hi ((p, s) ∷ xs) ys a b = (a.0, Within-append lo hi xs ys a.1 b)

pub Within-split :
    (lo hi : ℕ) (xs ys : List Cell) → Within lo hi (xs ++ ys) → Within lo hi xs × Within lo hi ys
Within-split lo hi [] ys a = (tt, a)
Within-split lo hi ((p, s) ∷ xs) ys a = let (l, r) = Within-split lo hi xs ys a.1 in ((a.0, l), r)

-- A list of blocks from another one on.
pub ApartAll-rotate :
    (b t : ℕ) (xs ys : List Cell) → ApartAll (b, t) (xs ++ ys) → ApartAll (b, t) (ys ++ xs)
ApartAll-rotate b t xs ys a =
    let (l, r) = ApartAll-split (b, t) xs ys a in ApartAll-append (b, t) ys xs r l

pub Within-rotate :
    (lo hi : ℕ) (xs ys : List Cell) → Within lo hi (xs ++ ys) → Within lo hi (ys ++ xs)
Within-rotate lo hi xs ys a =
    let (l, r) = Within-split lo hi xs ys a in Within-append lo hi ys xs r l
