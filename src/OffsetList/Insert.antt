-- ===== src/OffsetList/Insert.antt =====
-- Putting a node in: in front, at the back, and before an iterator.
use procshared_mem.Base.{
  ℕ, ◌≡◌, ◌≢◌, refl, sym, ◌∙◌, subst, inl, inr, List, [], ◌∷◌, ◌++◌, ◌==◌, Bool-cases,
  if◌then◌else◌, arith,
}
use mathlib.Core.List.{append-nil}
use procshared_mem.OffsetList.{
  Nodes, Ends, Lists, construct_node, insert_node_to_front, insert_node_to_back,
  insert_node_before_position, push_front, push_back, insert,
}
use procshared_mem.OffsetList.Chains.{
  first, last, Chain, Apart, IsList, Chain-append, Apart-append, Apart-null,
}
use procshared_mem.OffsetList.Splice.{
  last-append, first-append, Spliced, Chain-splice, Apart-last0, Apart-first0, Stored,
  before-Stored, front-Stored, back-Stored,
}

-- What a link of `p` between `lu` and `c` makes of the list object.
Linked : Nodes → Ends → Lists → ℕ → ℕ → ℕ → Type 0
Linked h l r p lu c =
    Spliced h r.0 p lu c
    × (r.1.head ≡ (if lu == 0 then p else l.head))
    × (r.1.tail ≡ (if c == 0 then p else l.tail))

module _ (h : Nodes) (l : Ends) (p x : ℕ) (hp : p ≢ 0) where
  before-Linked :
      (lu c : ℕ)
      → p ≢ lu
      → p ≢ c
      → (c ≡ 0 → l.tail ≡ lu)
      → (c ≢ 0 → h.pre c ≡ lu)
      → Linked h l (insert_node_before_position (construct_node h p x) l c p) p lu c
  unfolding Linked Spliced insert_node_before_position construct_node
  before-Linked lu c nl nc e k = elim (Bool-cases (c == 0)) [
    | inl z ↦ (
      (
        λ n a. (
          ground (arith, z, e, a),
          λ q. ground (arith, z, e, a, q),
          λ q. ground (arith, z, e, a, q),
        ),
        ground (arith, z, e),
        ground (arith, z, e),
        ground (arith, z, e),
        λ q. ground (arith, z, e, q),
        λ q. ground (arith, z, e, q),
      ),
      ground (arith, z, e),
      ground (arith, z, e),
    )
    | inr z ↦ (
      (
        λ n a. (
          ground (arith, z, k, a),
          λ q. ground (arith, z, k, a, q),
          λ q. ground (arith, z, k, a, q),
        ),
        ground (arith, z, k),
        ground (arith, z, k),
        ground (arith, z, k),
        λ q. ground (arith, z, k, q),
        λ q. ground (arith, z, k, q),
      ),
      ground (arith, z, k),
      ground (arith, z, k),
    )
  ]

  front-Linked : p ≢ l.head → Linked h l (push_front h l p x) p 0 l.head
  unfolding Linked Spliced insert_node_to_front construct_node push_front
  front-Linked nc = (
    (
      λ n a. (ground (arith, a), λ q. ground (arith, a, q), λ q. ground (arith, a, q)),
      ground arith,
      ground arith,
      ground arith,
      λ q. ground (arith, q),
      λ q. ground (arith, q),
    ),
    ground arith,
    ground arith,
  )

  back-Linked : p ≢ l.tail → Linked h l (push_back h l p x) p l.tail 0
  unfolding Linked Spliced insert_node_to_back construct_node push_back
  back-Linked nc = (
    (
      λ n a. (ground (arith, a), λ q. ground (arith, a, q), λ q. ground (arith, a, q)),
      ground arith,
      ground arith,
      ground arith,
      λ q. ground (arith, q),
      λ q. ground (arith, q),
    ),
    ground arith,
    ground arith,
  )

pub ends_head :
    (h : Nodes) (b : ℕ) (us vs : List ℕ) (p a : ℕ)
    → Chain h 0 us a
    → (if last 0 us == 0 then p else first us a) ≡ first us p
ends_head h b [] vs p a ch = refl
ends_head h b (n ∷ us) vs p a ch =
    ground (arith, Apart-last0 0 n us (λ e. ch.0 (sym e)) (Apart-null h n us a ch.4))

pub ends_tail :
    (h : Nodes) (b : ℕ) (vs : List ℕ) (p : ℕ)
    → Chain h b vs 0
    → (if first vs 0 == 0 then p else last b vs) ≡ last p vs
ends_tail h b [] p ch = refl
ends_tail h b (n ∷ vs) p ch = ground (arith, ch)

chain_pre :
    (h : Nodes) (b : ℕ) (vs : List ℕ) → Chain h b vs 0 → first vs 0 ≢ 0 → h.pre (first vs 0) ≡ b
chain_pre h b [] ch ne = ground (arith, ne)
chain_pre h b (n ∷ vs) ch ne = ch.2

IsList-Linked :
    (h : Nodes) (l : Ends) (r : Lists) (us vs : List ℕ) (p : ℕ)
    → IsList h l (us ++ vs)
    → p ≢ 0
    → Apart p (us ++ vs)
    → Linked h l r p (last 0 us) (first vs 0)
    → IsList r.0 r.1 (us ++ p ∷ vs)
unfolding Linked
IsList-Linked h l r us vs p list hp fresh k =
    let c = Chain-append h 0 us vs 0 list.chain in
    let s = Chain-splice h r.0 us vs p list.chain list.distinct hp fresh k.0 in
    record {
      head = ground (
        arith,
        k.1,
        list.head,
        first-append us vs 0,
        first-append us (p ∷ vs) 0,
        ends_head h 0 us vs p (first vs 0) c.0,
      );
      tail = ground (
        arith,
        k.2,
        list.tail,
        last-append 0 us vs,
        last-append 0 us (p ∷ vs),
        ends_tail h (last 0 us) vs p c.1,
      );
      chain = s.0;
      distinct = s.1;
    }

tail_at_end :
    (h : Nodes) (l : Ends) (us vs : List ℕ)
    → IsList h l (us ++ vs)
    → first vs 0 ≡ 0
    → l.tail ≡ last 0 us
tail_at_end h l us [] list e = list.tail ∙ last-append 0 us []
tail_at_end h l us (v ∷ vs) list e = absurd ((Chain-append h 0 us (v ∷ vs) 0 list.chain).1.0 e)

-- `insert` and `emplace` put a new node in front of the one at the iterator, or at the back for the end
-- iterator, and answer the iterator of the new node; all other nodes keep their order and values.
pub insert-IsList :
    (h : Nodes) (l : Ends) (us vs : List ℕ) (p x : ℕ)
    → IsList h l (us ++ vs)
    → p ≢ 0
    → Apart p (us ++ vs)
    → let r = insert h l (first vs 0) p x in
      IsList r.0.0 r.0.1 (us ++ p ∷ vs) × (r.1 ≡ p) × Stored h r.0.0 p x
unfolding insert
insert-IsList h l us vs p x list hp fresh =
    let c = Chain-append h 0 us vs 0 list.chain in
    let a = Apart-append p us vs fresh in
    (
      IsList-Linked h l (insert_node_before_position (construct_node h p x) l (first vs 0) p) us vs
          p list hp fresh
          (before-Linked h l p x hp (last 0 us) (first vs 0) (Apart-last0 p 0 us hp a.0)
            (Apart-first0 p vs hp a.1) (λ e. tail_at_end h l us vs list e)
            (chain_pre h (last 0 us) vs c.1)),
      refl,
      before-Stored h l p x (first vs 0),
    )

-- `push_front` and `push_back` put a new node before all others and behind them; the other nodes keep
-- their order and values.
pub push-IsList :
    (h : Nodes) (l : Ends) (ns : List ℕ) (p x : ℕ)
    → IsList h l ns
    → p ≢ 0
    → Apart p ns
    → let f = push_front h l p x in
      let b = push_back h l p x in
      (IsList f.0 f.1 (p ∷ ns) × Stored h f.0 p x)
      × (IsList b.0 b.1 (ns ++ p ∷ []) × Stored h b.0 p x)
push-IsList h l ns p x list hp fresh = (
  (
    IsList-Linked h l (push_front h l p x) [] ns p list hp fresh (
        subst (λ c. Linked h l (push_front h l p x) p 0 c) list.head
          (front-Linked h l p x hp (λ e. Apart-first0 p ns hp fresh (e ∙ list.head)))),
    front-Stored h l p x,
  ),
  (
    IsList-Linked h l (push_back h l p x) ns [] p (subst (IsList h l) (sym (append-nil ns)) list) hp
        (subst (Apart p) (sym (append-nil ns)) fresh)
        (subst (λ c. Linked h l (push_back h l p x) p c 0) list.tail
          (back-Linked h l p x hp (λ e. Apart-last0 p 0 ns hp fresh (e ∙ list.tail)))),
    back-Stored h l p x,
  ),
)
