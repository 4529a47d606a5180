-- ===== src/OffsetList/Splice.antt =====
-- A node between two parts of a list: the links that take it in, and the values that stay.
use procshared_mem.Base.{ℕ, ◌≡◌, ◌≢◌, refl, sym, true, List, [], ◌∷◌, ◌++◌, arith}
use procshared_mem.OffsetList.{
  Nodes, Ends, construct_node, insert_node_to_front, insert_node_to_back,
  insert_node_before_position, push_front, push_back,
}
use procshared_mem.OffsetList.Chains.{
  first, last, Chain, Apart, AllApart, Distinct, Chain-append, Chain-join, Apart-append,
  Distinct-append, Distinct-join, AllApart-sym, Apart-null, last-Apart, first-Apart, Frame,
  relink_front, relink_back,
}

pub last-append : (b : ℕ) (us ws : List ℕ) → last b (us ++ ws) ≡ last (last b us) ws
last-append b [] ws = refl
last-append b (n ∷ us) ws = last-append n us ws

pub first-append : (us ws : List ℕ) (a : ℕ) → first (us ++ ws) a ≡ first us (first ws a)
first-append [] ws a = refl
first-append (n ∷ us) ws a = refl

pub Apart-all : (p : ℕ) (us : List ℕ) → Apart p us → AllApart us (p ∷ [])
Apart-all p [] d = tt
Apart-all p (n ∷ us) d = ((λ e. d.0 (sym e), tt), Apart-all p us d.1)

-- A node `p` between `us` and `vs`, linked to the last of `us` and the first of `vs`.
unfoldable pub Spliced : Nodes → Nodes → ℕ → ℕ → ℕ → Type 0
Spliced h h' p l c =
    Frame h h' (p ∷ []) l c
    × (h'.live p ≡ true)
    × (h'.pre p ≡ l)
    × (h'.nxt p ≡ c)
    × (l ≢ 0 → h'.nxt l ≡ p)
    × (c ≢ 0 → h'.pre c ≡ p)

pub Chain-splice :
    (h h' : Nodes) (us vs : List ℕ) (p : ℕ)
    → Chain h 0 (us ++ vs) 0
    → Distinct (us ++ vs)
    → p ≢ 0
    → Apart p (us ++ vs)
    → Spliced h h' p (last 0 us) (first vs 0)
    → Chain h' 0 (us ++ p ∷ vs) 0 × Distinct (us ++ p ∷ vs)
unfolding Spliced
Chain-splice h h' us vs p ch d hp fresh s =
    let c = Chain-append h 0 us vs 0 ch in
    let ds = Distinct-append us vs d in
    let ps = Apart-append p us vs fresh in
    let swapped = AllApart-sym us vs ds.2 in
    let front =
      relink_front h h' (p ∷ []) (first vs 0) 0 us (first vs 0) p s.0 c.0 (Apart-all p us ps.0)
        (first-Apart vs us 0 (Apart-null h 0 us (first vs 0) c.0) swapped) ds.0 s.4 in
    let back =
      relink_back h h' (p ∷ []) (last 0 us) (last 0 us) p vs 0 s.0 c.1 (Apart-all p vs ps.1)
        (last-Apart 0 us vs (Apart-null h (last 0 us) vs 0 c.1) ds.2) ds.1 s.5 in
    (
      Chain-join h' 0 us (p ∷ vs) 0 front (hp, s.1, s.2, s.3, back),
      Distinct-join us (p ∷ vs) ds.0 (ps.1, ds.1) (AllApart-sym (p ∷ vs) us (ps.0, swapped)),
    )

pub Apart-last0 : (p b : ℕ) (us : List ℕ) → p ≢ b → Apart p us → p ≢ last b us
Apart-last0 p b [] ne d = ne
Apart-last0 p b (n ∷ us) ne d = Apart-last0 p n us d.0 d.1

pub Apart-first0 : (p : ℕ) (us : List ℕ) → p ≢ 0 → Apart p us → p ≢ first us 0
Apart-first0 p [] ne d = ne
Apart-first0 p (n ∷ us) ne d = d.0

-- The value of the new node is the only one that changes.
abbrev pub Stored : Nodes → Nodes → ℕ → ℕ → Type 0
Stored h h' p x = (h'.data_of p ≡ x) × ((n : ℕ) → n ≢ p → h'.data_of n ≡ h.data_of n)

pub before-Stored :
    (h : Nodes) (l : Ends) (p x c : ℕ)
    → Stored h (insert_node_before_position (construct_node h p x) l c p).0 p x
unfolding insert_node_before_position construct_node
before-Stored h l p x c = (ground arith, λ n e. ground (arith, e))

pub front-Stored : (h : Nodes) (l : Ends) (p x : ℕ) → Stored h (push_front h l p x).0 p x
unfolding insert_node_to_front construct_node push_front
front-Stored h l p x = (ground arith, λ n e. ground (arith, e))

pub back-Stored : (h : Nodes) (l : Ends) (p x : ℕ) → Stored h (push_back h l p x).0 p x
unfolding insert_node_to_back construct_node push_back
back-Stored h l p x = (ground arith, λ n e. ground (arith, e))
