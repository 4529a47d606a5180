-- ===== src/OffsetList/Others.antt =====
-- What the operations on one list leave alone: the nodes of other lists, and the values.
use procshared_mem.Base.{
  ℕ, ◌<◌, ◌≡◌, ◌≢◌, refl, sym, ◌∙◌, subst, false, some, List, [], ◌∷◌, ◌++◌, map, length, arith,
}
use procshared_mem.OffsetList.{
  Nodes, Ends, Lists, empty_ends, construct_node, insert_node_to_back, push_back, pop_front, erase,
  clear,
}
use procshared_mem.OffsetList.Chains.{Chain, Apart, AllApart, IsList, Apart-append}
use procshared_mem.OffsetList.Splice.{Apart-last0, Apart-first0}
use procshared_mem.OffsetList.Destruct.{destructed, Dead, destructed-same, Dead-destructed}
use procshared_mem.OffsetList.Erase.{erase-Erased, clear_lem}

-- No node but those of `ts` changes.
abbrev pub Kept : Nodes → Nodes → List ℕ → Type 0
Kept h h' ts =
    (n : ℕ)
    → n ≢ 0
    → Apart n ts
    → (h'.pre n ≡ h.pre n)
      × (h'.nxt n ≡ h.nxt n)
      × (h'.live n ≡ h.live n)
      × (h'.data_of n ≡ h.data_of n)

-- The values of the nodes of a list, in order.
abbrev pub values : Nodes → List ℕ → List ℕ
values h ns = map h.data_of ns

pub Kept-trans : (h h' h'' : Nodes) (ts : List ℕ) → Kept h h' ts → Kept h' h'' ts → Kept h h'' ts
Kept-trans h h' h'' ts k k' n ne a =
    let u = k n ne a in let v = k' n ne a in (v.0 ∙ u.0, v.1 ∙ u.1, v.2 ∙ u.2, v.3 ∙ u.3)

pub Kept-refl : (h : Nodes) (ts : List ℕ) → Kept h h ts
Kept-refl h ts n ne a = (refl, refl, refl, refl)

pub Chain-Kept :
    (h h' : Nodes) (ts : List ℕ) (b : ℕ) (ns : List ℕ) (a : ℕ)
    → Kept h h' ts
    → AllApart ns ts
    → Chain h b ns a
    → Chain h' b ns a
Chain-Kept h h' ts b [] a k d c = tt
Chain-Kept h h' ts b (n ∷ ns) a k d c =
    let u = k n c.0 d.0 in
    (c.0, u.2 ∙ c.1, u.0 ∙ c.2, u.1 ∙ c.3, Chain-Kept h h' ts n ns a k d.1 c.4)

pub values-Kept :
    (h h' : Nodes) (ts : List ℕ) (b : ℕ) (ns : List ℕ) (a : ℕ)
    → Kept h h' ts
    → AllApart ns ts
    → Chain h b ns a
    → values h' ns ≡ values h ns
values-Kept h h' ts b [] a k d c = refl
values-Kept h h' ts b (n ∷ ns) a k d c =
    let u = k n c.0 d.0 in
    let rest = values-Kept h h' ts n ns a k d.1 c.4 in ground (arith, u.3, rest)

pub IsList-Kept :
    (h h' : Nodes) (ts : List ℕ) (l : Ends) (ns : List ℕ)
    → Kept h h' ts
    → AllApart ns ts
    → IsList h l ns
    → IsList h' l ns
IsList-Kept h h' ts l ns k d list = record {
  head = list.head;
  tail = list.tail;
  chain = Chain-Kept h h' ts 0 ns 0 k d list.chain;
  distinct = list.distinct;
}

back_other :
    (h : Nodes) (l : Ends) (p x n : ℕ)
    → n ≢ p
    → n ≢ l.tail
    → let h' = (push_back h l p x).0 in
      (h'.pre n ≡ h.pre n)
      × (h'.nxt n ≡ h.nxt n)
      × (h'.live n ≡ h.live n)
      × (h'.data_of n ≡ h.data_of n)
unfolding push_back insert_node_to_back construct_node
back_other h l p x n np nt = (ground arith, ground arith, ground arith, ground arith)

-- `push_back` touches its own list and the new node only.
pub push_back-Kept :
    (h : Nodes) (l : Ends) (ns : List ℕ) (p x : ℕ)
    → IsList h l ns
    → Kept h (push_back h l p x).0 (ns ++ p ∷ [])
push_back-Kept h l ns p x list n ne a =
    let d = Apart-append n ns (p ∷ []) a in
    back_other h l p x n d.1.0 (λ e. Apart-last0 n 0 ns ne d.0 (e ∙ list.tail))

same_values :
    (h h' : Nodes) (ns : List ℕ)
    → ((n : ℕ) → h'.data_of n ≡ h.data_of n)
    → values h' ns ≡ values h ns
same_values h h' [] e = refl
same_values h h' (n ∷ ns) e = ground (arith, e n, same_values h h' ns e)

-- `pop_front` takes the first node off, touches its own list only, and leaves the other values.
pub pop_front-IsList :
    (fuel : ℕ) (h : Nodes) (l : Ends) (m : ℕ) (vs : List ℕ)
    → IsList h l (m ∷ vs)
    → 1 < fuel
    → (r : Lists × ℕ) × (pop_front fuel h l ≡ some r)
      × IsList r.0.0 r.0.1 vs
      × (values r.0.0 vs ≡ values h vs)
      × Kept h r.0.0 (m ∷ vs)
      × (r.0.0.live m ≡ false)
unfolding pop_front
pop_front-IsList fuel h l m vs list k =
    let r = erase-Erased fuel h l [] m vs list k in
    (
      r.0,
      subst (λ q. erase fuel h l q ≡ some r.0) (sym list.head) r.1,
      r.2.list,
      same_values h r.0.0.0 vs r.2.values,
      λ n ne a.
          let o = r.2.outside n ne (Apart-first0 n vs ne a.1) in
          (o.0, o.1, r.2.others n (a.0, tt), r.2.values n),
      r.2.dead.0,
    )

-- `clear` touches its own list only.
pub clear-Kept :
    (fuel : ℕ) (h : Nodes) (l : Ends) (ns : List ℕ)
    → IsList h l ns
    → length ns < fuel
    → (h' : Nodes) × (clear fuel h l ≡ some (h', empty_ends)) × Dead h' ns × Kept h h' ns
clear-Kept fuel h l ns list k = (
  destructed h ns,
  clear_lem fuel h l ns list k,
  Dead-destructed h 0 ns 0 list.chain list.distinct,
  λ n ne a. let s = destructed-same h ns n in (s.0, s.1, s.3 a, s.2),
)
