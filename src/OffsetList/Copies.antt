-- ===== src/OffsetList/Copies.antt =====
-- The loops over a whole list: copies, and moves between unequal allocators.
use procshared_mem.Base.{
  ℕ, ◌≤◌, ◌≡◌, ◌≢◌, refl, sym, ap, ◌∙◌, subst, some, List, [], ◌∷◌, ◌++◌, length, arith,
}
use mathlib.Core.List.{append_assoc}
use procshared_mem.OffsetList.{Nodes, Ends, Lists, increment, push_back}
use procshared_mem.OffsetList.Chains.{
  first, Chain, Apart, AllApart, Distinct, IsList, Apart-append, Distinct-append, AllApart-sym,
}
use mathlib.Core.List.{append-nil}
use procshared_mem.OffsetList.Splice.{Stored}
use procshared_mem.OffsetList.Insert.{push-IsList}
use procshared_mem.OffsetList.Others.{
  Kept, values, Kept-trans, Kept-refl, Chain-Kept, values-Kept, push_back-Kept,
}
use procshared_mem.OffsetList.Whole.{push_each}

-- The addresses that a run of new nodes takes, one for each node of `ms`.
abbrev pub taken : List ℕ → List ℕ → List ℕ
taken [] addrs = []
taken (m ∷ ms) [] = []
taken (m ∷ ms) (a ∷ addrs) = a ∷ taken ms addrs

-- Addresses that an allocator hands out: none is null, or in use by `ds`, and no two are equal.
pub record IsFresh (ds addrs : List ℕ) : Type 0 where
  pub distinct : Distinct (ds ++ addrs)
  pub not_null : Apart 0 addrs

all_apart_prefix : (ms us vs : List ℕ) → AllApart ms (us ++ vs) → AllApart ms us × AllApart ms vs
all_apart_prefix [] us vs d = (tt, tt)
all_apart_prefix (m ∷ ms) us vs d =
    let a = Apart-append m us vs d.0 in
    let r = all_apart_prefix ms us vs d.1 in ((a.0, r.0), (a.1, r.1))

Kept-wider : (h h' : Nodes) (us vs : List ℕ) → Kept h h' us → Kept h h' (us ++ vs)
Kept-wider h h' us vs k n ne a = k n ne (Apart-append n us vs a).0

-- One turn of the loop.
pub values-push_back :
    (h : Nodes) (l : Ends) (ds : List ℕ) (a x : ℕ)
    → IsList h l ds
    → a ≢ 0
    → Apart a ds
    → values (push_back h l a x).0 (ds ++ a ∷ []) ≡ values h ds ++ x ∷ []
values-push_back h l ds a x list ne ap' =
    let p = push-IsList h l ds a x list ne ap' in go h (push_back h l a x).0 ds a x (p.1.1) ap'
  where
    go :
        (h h' : Nodes) (ds : List ℕ) (a x : ℕ)
        → Stored h h' a x
        → Apart a ds
        → values h' (ds ++ a ∷ []) ≡ values h ds ++ x ∷ []
    go h h' [] a x s d = ground (arith, s.0)
    go h h' (n ∷ ds) a x s d =
        let rest = go h h' ds a x s d.1 in
        let e = s.1 n (λ q. d.0 (sym q)) in ground (arith, rest, e)

-- What a loop over the nodes `ms` leaves: the new nodes behind those of `ds`, with the values of `ms`.
pub record Pushed (h : Nodes) (r : Lists) (ds ms addrs : List ℕ) : Type 0 where
  pub list : IsList r.0 r.1 (ds ++ taken ms addrs)
  pub copied : values r.0 (ds ++ taken ms addrs) ≡ values h ds ++ values h ms
  pub kept : Kept h r.0 (ds ++ addrs)

none-Pushed :
    (h : Nodes) (l : Ends) (ds addrs : List ℕ) → IsList h l ds → Pushed h (h, l) ds [] addrs
none-Pushed h l ds addrs list = record {
  list = subst (IsList h l) (sym (append-nil ds)) list;
  copied = ap (values h) (append-nil ds) ∙ sym (append-nil (values h ds));
  kept = Kept-refl h (ds ++ addrs);
}

-- After one turn the rest of the loop starts from `ds ++ a ∷ []`.
one_more :
    (h h1 : Nodes) (r : Lists) (ds ms addrs : List ℕ) (m a : ℕ)
    → values h1 (ds ++ a ∷ []) ≡ values h ds ++ h.data_of m ∷ []
    → values h1 ms ≡ values h ms
    → Kept h h1 (ds ++ a ∷ [])
    → Pushed h1 r (ds ++ a ∷ []) ms addrs
    → Pushed h r ds (m ∷ ms) (a ∷ addrs)
one_more h h1 r ds ms addrs m a ed em kept p =
    let e = append_assoc ds (a ∷ []) (taken ms addrs) in
    let f = append_assoc ds (a ∷ []) addrs in
    record {
      list = subst (IsList r.0 r.1) e p.list;
      copied =
          ap (values r.0) (sym e)
          ∙ p.copied
          ∙ ap (λ t. t ++ values h1 ms) ed
          ∙ append_assoc (values h ds) (h.data_of m ∷ []) (values h1 ms)
          ∙ ap (λ t. values h ds ++ h.data_of m ∷ t) em;
      kept = subst (Kept h r.0) f (
          Kept-trans h h1 r.0 ((ds ++ a ∷ []) ++ addrs) (Kept-wider h h1 (ds ++ a ∷ []) addrs kept)
            p.kept);
    }

-- The loop copies every value, with one new address for each.
pub push_each-Pushed :
    (addrs : List ℕ) (h : Nodes) (l : Ends) (ds : List ℕ) (b : ℕ) (ms : List ℕ)
    → IsList h l ds
    → Chain h b ms 0
    → IsFresh ds addrs
    → AllApart ms (ds ++ addrs)
    → length ms ≤ length addrs
    → (r : Lists) × (push_each addrs h l (first ms 0) ≡ some r) × Pushed h r ds ms addrs
unfolding push_each increment
push_each-Pushed [] h l ds b [] list ch fresh ap' k = ((h, l), refl, none-Pushed h l ds [] list)
push_each-Pushed [] h l ds b (m ∷ ms) list ch fresh ap' k = absurd (omega (arith, k))
push_each-Pushed (a ∷ addrs) h l ds b [] list ch fresh ap' k =
    ((h, l), refl, none-Pushed h l ds (a ∷ addrs) list)
push_each-Pushed (a ∷ addrs) h l ds b (m ∷ ms) list ch fresh ap' k =
    let f = append_assoc ds (a ∷ []) addrs in
    let d = Distinct-append ds (a ∷ addrs) fresh.distinct in
    let apart_a = (AllApart-sym ds (a ∷ addrs) d.2).0 in
    let ne : a ≢ 0 = λ e. fresh.not_null.0 (sym e) in
    let h1 = (push_back h l a (h.data_of m)).0 in
    let l1 = (push_back h l a (h.data_of m)).1 in
    let kept = push_back-Kept h l ds a (h.data_of m) list in
    let apart_ms = all_apart_prefix ms (ds ++ a ∷ []) addrs (subst (AllApart ms) (sym f) ap'.1) in
    let apart_m =
      all_apart_prefix (m ∷ []) (ds ++ a ∷ []) addrs
        (subst (AllApart (m ∷ [])) (sym f) (ap'.0, tt)) in
    let rest =
      push_each-Pushed addrs h1 l1 (ds ++ a ∷ []) m ms
        (push-IsList h l ds a (h.data_of m) list ne apart_a).1.0
        (Chain-Kept h h1 (ds ++ a ∷ []) m ms 0 kept apart_ms.0 ch.4)
        (record { distinct = subst Distinct (sym f) fresh.distinct; not_null = fresh.not_null.1 })
        (subst (AllApart ms) (sym f) ap'.1) (omega (arith, k)) in
    let nx : h1.nxt m ≡ first ms 0 = (kept m ch.0 apart_m.0.0).1 ∙ ch.3 in
    (
      rest.0,
      ground (arith, ch, subst (λ q. push_each addrs h1 l1 q ≡ some rest.0) (sym nx) rest.1),
      one_more h h1 rest.0 ds ms addrs m a (values-push_back h l ds a (h.data_of m) list ne apart_a)
          (values-Kept h h1 (ds ++ a ∷ []) m ms 0 kept apart_ms.0 ch.4) kept rest.2,
    )
