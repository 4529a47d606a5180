-- ===== src/OffsetList/Chains.antt =====
-- Runs of nodes that are linked both ways, and the list objects that hold one.
use procshared_mem.Base.{ℕ, ◌≡◌, ◌≢◌, sym, true, List, [], ◌∷◌, ◌++◌, arith}
use procshared_mem.OffsetList.{Nodes, Ends}

-- The first node of a run, or what comes after it; the last one, or what came before.
abbrev pub first : List ℕ → ℕ → ℕ
first [] a = a
first (n ∷ ns) a = n

abbrev pub last : ℕ → List ℕ → ℕ
last b [] = b
last b (n ∷ ns) = last n ns

abbrev pub Chain : Nodes → ℕ → List ℕ → ℕ → Type 0
Chain h b [] a = Unit {0}
Chain h b (n ∷ ns) a =
    (n ≢ 0) × (h.live n ≡ true) × (h.pre n ≡ b) × (h.nxt n ≡ first ns a) × Chain h n ns a

abbrev pub Apart : ℕ → List ℕ → Type 0
Apart p [] = Unit {0}
Apart p (n ∷ ns) = (p ≢ n) × Apart p ns

abbrev pub AllApart : List ℕ → List ℕ → Type 0
AllApart [] ts = Unit {0}
AllApart (n ∷ ns) ts = Apart n ts × AllApart ns ts

abbrev pub Distinct : List ℕ → Type 0
Distinct [] = Unit {0}
Distinct (n ∷ ns) = Apart n ns × Distinct ns

-- The list object `l` holds the nodes `ns`, in this order.
pub record IsList (h : Nodes) (l : Ends) (ns : List ℕ) : Type 0 where
  pub head : l.head ≡ first ns 0
  pub tail : l.tail ≡ last 0 ns
  pub chain : Chain h 0 ns 0
  pub distinct : Distinct ns

pub Chain-append :
    (h : Nodes) (b : ℕ) (us vs : List ℕ) (a : ℕ)
    → Chain h b (us ++ vs) a
    → Chain h b us (first vs a) × Chain h (last b us) vs a
Chain-append h b [] vs a c = (tt, c)
Chain-append h b (n ∷ []) vs a c = ground (arith, c)
Chain-append h b (n ∷ m ∷ us) vs a c =
    let r = Chain-append h n (m ∷ us) vs a c.4 in ((c.0, c.1, c.2, c.3, r.0), r.1)

pub Chain-join :
    (h : Nodes) (b : ℕ) (us vs : List ℕ) (a : ℕ)
    → Chain h b us (first vs a)
    → Chain h (last b us) vs a
    → Chain h b (us ++ vs) a
Chain-join h b [] vs a c d = d
Chain-join h b (n ∷ []) vs a c d = (c.0, c.1, c.2, c.3, d)
Chain-join h b (n ∷ m ∷ us) vs a c d = (c.0, c.1, c.2, c.3, Chain-join h n (m ∷ us) vs a c.4 d)

pub Apart-append : (p : ℕ) (us vs : List ℕ) → Apart p (us ++ vs) → Apart p us × Apart p vs
Apart-append p [] vs d = (tt, d)
Apart-append p (n ∷ us) vs d = let r = Apart-append p us vs d.1 in ((d.0, r.0), r.1)

pub Apart-join : (p : ℕ) (us vs : List ℕ) → Apart p us → Apart p vs → Apart p (us ++ vs)
Apart-join p [] vs c d = d
Apart-join p (n ∷ us) vs c d = (c.0, Apart-join p us vs c.1 d)

pub Distinct-append :
    (us vs : List ℕ) → Distinct (us ++ vs) → Distinct us × Distinct vs × AllApart us vs
Distinct-append [] vs d = (tt, d, tt)
Distinct-append (n ∷ us) vs d =
    let r = Distinct-append us vs d.1 in
    let a = Apart-append n us vs d.0 in ((a.0, r.0), r.1, (a.1, r.2))

pub Distinct-join :
    (us vs : List ℕ) → Distinct us → Distinct vs → AllApart us vs → Distinct (us ++ vs)
Distinct-join [] vs c d e = d
Distinct-join (n ∷ us) vs c d e = (Apart-join n us vs c.0 e.0, Distinct-join us vs c.1 d e.1)

pub AllApart-sym : (us vs : List ℕ) → AllApart us vs → AllApart vs us
AllApart-sym us [] d = tt
AllApart-sym us (v ∷ vs) d = (heads us v vs d, AllApart-sym us vs (tails us v vs d))
  where
    heads : (us : List ℕ) (v : ℕ) (vs : List ℕ) → AllApart us (v ∷ vs) → Apart v us
    heads [] v vs d = tt
    heads (u ∷ us) v vs d = (λ e. d.0.0 (sym e), heads us v vs d.1)

    tails : (us : List ℕ) (v : ℕ) (vs : List ℕ) → AllApart us (v ∷ vs) → AllApart us vs
    tails [] v vs d = tt
    tails (u ∷ us) v vs d = (d.0.1, tails us v vs d.1)

pub Apart-null : (h : Nodes) (b : ℕ) (ns : List ℕ) (a : ℕ) → Chain h b ns a → Apart 0 ns
Apart-null h b [] a c = tt
Apart-null h b (n ∷ ns) a c = (λ e. c.0 (sym e), Apart-null h n ns a c.4)

pub Apart-last : (n m : ℕ) (ms : List ℕ) → Apart n (m ∷ ms) → n ≢ last m ms
Apart-last n m [] d = d.0
Apart-last n m (k ∷ ms) d = Apart-last n k ms d.1

-- The last node of one run lies outside another that the whole run is apart from; so does the first.
pub last-Apart : (b : ℕ) (us vs : List ℕ) → Apart b vs → AllApart us vs → Apart (last b us) vs
last-Apart b [] vs c d = c
last-Apart b (n ∷ us) vs c d = last-Apart n us vs d.0 d.1

pub first-Apart : (vs us : List ℕ) (a : ℕ) → Apart a us → AllApart vs us → Apart (first vs a) us
first-Apart [] us a c d = c
first-Apart (n ∷ vs) us a c d = d.0

-- A heap that differs from `h` only on the nodes `ts`, in the successor of `l` and in the
-- predecessor of `c`.
abbrev pub Frame : Nodes → Nodes → List ℕ → ℕ → ℕ → Type 0
Frame h h' ts l c =
    (n : ℕ)
    → Apart n ts
    → (h'.live n ≡ h.live n) × (n ≢ l → h'.nxt n ≡ h.nxt n) × (n ≢ c → h'.pre n ≡ h.pre n)

-- A run whose last node gets another successor, and a run whose first node gets another predecessor.
pub relink_front :
    (h h' : Nodes) (ts : List ℕ) (c b : ℕ) (us : List ℕ) (x y : ℕ)
    → Frame h h' ts (last b us) c
    → Chain h b us x
    → AllApart us ts
    → Apart c us
    → Distinct us
    → (last b us ≢ 0 → h'.nxt (last b us) ≡ y)
    → Chain h' b us y
relink_front h h' ts c b [] x y f ch ap ac d e = tt
relink_front h h' ts c b (n ∷ []) x y f ch ap ac d e =
    let g = f n ap.0 in ground (arith, g, ch, ac, e)
relink_front h h' ts c b (n ∷ m ∷ us) x y f ch ap ac d e =
    let g = f n ap.0 in
    let rest = relink_front h h' ts c n (m ∷ us) x y f ch.4 ap.1 ac.1 d.1 e in
    let ne = Apart-last n m us d.0 in ground (arith, g, ch, ac, rest, ne)

pub relink_same :
    (h h' : Nodes) (ts : List ℕ) (l c b : ℕ) (us : List ℕ) (x : ℕ)
    → Frame h h' ts l c
    → Chain h b us x
    → AllApart us ts
    → Apart c us
    → Apart l us
    → Chain h' b us x
relink_same h h' ts l c b [] x f ch ap ac al = tt
relink_same h h' ts l c b (n ∷ us) x f ch ap ac al =
    let g = f n ap.0 in
    let rest = relink_same h h' ts l c n us x f ch.4 ap.1 ac.1 al.1 in
    ground (arith, g, ch, ac, al, rest)

pub relink_back :
    (h h' : Nodes) (ts : List ℕ) (l b b' : ℕ) (vs : List ℕ) (a : ℕ)
    → Frame h h' ts l (first vs 0)
    → Chain h b vs a
    → AllApart vs ts
    → Apart l vs
    → Distinct vs
    → (first vs 0 ≢ 0 → h'.pre (first vs 0) ≡ b')
    → Chain h' b' vs a
relink_back h h' ts l b b' [] a f ch ap al d e = tt
relink_back h h' ts l b b' (n ∷ vs) a f ch ap al d e =
    let g = f n ap.0 in
    let rest = relink_same h h' ts l n n vs a f ch.4 ap.1 d.0 al.1 in
    ground (arith, g, ch, al, e, rest)
