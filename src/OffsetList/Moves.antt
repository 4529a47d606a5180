-- ===== src/OffsetList/Moves.antt =====
-- Copy and move, construction and assignment, of whole lists.
use procshared_mem.Base.{
  ℕ, ◌≤◌, ◌<◌, ◌≡◌, ◌≢◌, refl, sym, ◌∙◌, subst, Bool, true, false, some, inl, inr, List, [], ◌∷◌,
  ◌++◌, length, ◌==◌, Bool-cases, if◌then◌else◌, arith,
}
use procshared_mem.OffsetList.{Nodes, Lists, empty_ends}
use procshared_mem.OffsetList.Chains.{
  Chain, Apart, AllApart, IsList, AllApart-sym, Apart-append, Apart-join,
}
use procshared_mem.OffsetList.Destruct.{Dead}
use procshared_mem.OffsetList.Others.{Kept, values, values-Kept, IsList-Kept, clear-Kept}
use procshared_mem.OffsetList.Whole.{
  OffsetList, push_each, copy_construct, move_each, take_over, move_construct, copy_assign,
  move_assign,
}
use procshared_mem.OffsetList.Copies.{taken, IsFresh, Pushed, push_each-Pushed}

pub empty-IsList : (h : Nodes) → IsList h empty_ends []
empty-IsList h = record { head = refl; tail = refl; chain = tt; distinct = tt }

-- The list `x` has the nodes `ms`, and the addresses `addrs` serve for as many new nodes.
pub record Source (h : Nodes) (x : OffsetList) (ms addrs : List ℕ) : Type 0 where
  pub list : IsList h x.ends ms
  pub fresh : IsFresh [] addrs
  pub apart : AllApart ms addrs
  pub enough : length ms ≤ length addrs

pub push_each-Source :
    (h : Nodes) (x : OffsetList) (ms addrs : List ℕ)
    → Source h x ms addrs
    → (r : Lists) × (push_each addrs h empty_ends x.ends.head ≡ some r) × Pushed h r [] ms addrs
push_each-Source h x ms addrs s =
    let r =
      push_each-Pushed addrs h empty_ends [] 0 ms (empty-IsList h) s.list.chain s.fresh s.apart
        s.enough in
    (r.0, subst (λ q. push_each addrs h empty_ends q ≡ some r.0) (sym s.list.head) r.1, r.2)

-- Of the nodes `ns`, those at no address of `addrs` are destroyed.
abbrev pub Gone : Nodes → (addrs ns : List ℕ) → Type 0
Gone h addrs [] = Unit {0}
Gone h addrs (n ∷ ns) = (Apart n addrs → h.live n ≡ false) × Gone h addrs ns

Dead-Gone :
    (h h' : Nodes) (b : ℕ) (ns : List ℕ) (a : ℕ) (addrs : List ℕ)
    → Chain h b ns a
    → Dead h' ns
    → ((h'' : Nodes)
        → ((n : ℕ) → n ≢ 0 → Apart n addrs → h''.live n ≡ h'.live n)
        → Gone h'' addrs ns)
Dead-Gone h h' b [] a addrs ch d = λ h'' e. tt
Dead-Gone h h' b (n ∷ ns) a addrs ch d =
    λ h'' e. (λ u. e n ch.0 u ∙ d.0, Dead-Gone h h' n ns a addrs ch.4 d.1 h'' e)

-- A copy and its source: equal values, in nodes of their own.
pub record Copied (h : Nodes) (x : OffsetList) (r : Nodes × OffsetList) (ms ts : List ℕ)
    : Type 0 where
  pub target : IsList r.0 r.1.ends ts
  pub equal : values r.0 ts ≡ values h ms
  pub source : IsList r.0 x.ends ms
  pub unchanged : values r.0 ms ≡ values h ms

copied :
    (h : Nodes) (x : OffsetList) (r : Lists) (a : ℕ) (ms addrs : List ℕ)
    → Source h x ms addrs
    → Pushed h r [] ms addrs
    → Copied h x (r.0, record { alloc = a; ends = r.1 }) ms (taken ms addrs)
copied h x r a ms addrs s p = record {
  target = p.list;
  equal = p.copied;
  source = IsList-Kept h r.0 addrs x.ends ms p.kept s.apart s.list;
  unchanged = values-Kept h r.0 addrs 0 ms 0 p.kept s.apart s.list.chain;
}

-- The copy constructor makes a list of the source's values, in new nodes, and leaves the source as it
-- was.
pub copy_construct-Copied :
    (h : Nodes) (x : OffsetList) (a : ℕ) (ms addrs : List ℕ)
    → Source h x ms addrs
    → (r : Nodes × OffsetList) × (copy_construct addrs h x a ≡ some r)
      × (r.1.alloc ≡ a)
      × Copied h x r ms (taken ms addrs)
unfolding copy_construct
copy_construct-Copied h x a ms addrs s =
    let p = push_each-Source h x ms addrs s in
    (
      (p.0.0, record { alloc = a; ends = p.0.1 }),
      ground (arith, p.1),
      refl,
      copied h x p.0 a ms addrs s p.2,
    )

cleared-Source :
    (h h' : Nodes) (x : OffsetList) (ns ms addrs : List ℕ)
    → Kept h h' ns
    → AllApart ms ns
    → Source h x ms addrs
    → Source h' x ms addrs
cleared-Source h h' x ns ms addrs k d s = record {
  list = IsList-Kept h h' ns x.ends ms k d s.list;
  fresh = s.fresh;
  apart = s.apart;
  enough = s.enough;
}

-- Copy assignment destroys the nodes that the target had, makes it a list of the source's values, in
-- new nodes, which may stand at the addresses of the old ones, and leaves the source as it was: a node
-- that the target had is not alive after it unless the allocator answered its address again, and no
-- other node begins or ends its life.
pub copy_assign-Copied :
    (propagates : Bool) (fuel : ℕ) (h : Nodes) (l x : OffsetList) (ns ms addrs : List ℕ)
    → IsList h l.ends ns
    → AllApart ms ns
    → length ns < fuel
    → Source h x ms addrs
    → (r : Nodes × OffsetList) × (copy_assign propagates fuel addrs h l x ≡ some r)
      × Copied h x r ms (taken ms addrs)
      × ((n : ℕ) → n ≢ 0 → Apart n ns → Apart n addrs → r.0.live n ≡ h.live n)
      × Gone r.0 addrs ns
unfolding copy_assign
copy_assign-Copied propagates fuel h l x ns ms addrs list d k s =
    let c = clear-Kept fuel h l.ends ns list k in
    let p = push_each-Source c.0 x ms addrs (cleared-Source h c.0 x ns ms addrs c.3 d s) in
    let a = if propagates then x.alloc else l.alloc in
    let same = values-Kept h c.0 ns 0 ms 0 c.3 d s.list.chain in
    let r = copied c.0 x p.0 a ms addrs (cleared-Source h c.0 x ns ms addrs c.3 d s) p.2 in
    (
      (p.0.0, record { alloc = a; ends = p.0.1 }),
      ground (arith, c.1, p.1),
      record {
        target = r.target;
        equal = r.equal ∙ same;
        source = r.source;
        unchanged = r.unchanged ∙ same;
      },
      λ n ne u v. (p.2.kept n ne v).2 ∙ (c.3 n ne u).2,
      Dead-Gone h c.0 0 ns 0 addrs list.chain c.2 p.0.0 (λ n ne u. (p.2.kept n ne u).2),
    )

-- A list that was moved: the target has the values, the source has no node. With equal allocators the
-- nodes go over, with others they are destroyed.
pub record Moved (h : Nodes) (same : Bool) (r : Nodes × OffsetList × OffsetList) (ts ms : List ℕ)
    : Type 0 where
  pub target : IsList r.0 r.1.ends ts
  pub equal : values r.0 ts ≡ values h ms
  pub source : r.2.ends ≡ empty_ends
  pub links : same ≡ true → ts ≡ ms
  pub dead : same ≡ false → Dead r.0 ms

-- The same where nodes of `ms`, which are none of `ns`, may change as well.
Dead-Gone_others :
    (h h' : Nodes) (b : ℕ) (ns : List ℕ) (a : ℕ) (addrs ms : List ℕ)
    → Chain h b ns a
    → Dead h' ns
    → AllApart ns ms
    → ((h'' : Nodes)
        → ((n : ℕ) → n ≢ 0 → Apart n (addrs ++ ms) → h''.live n ≡ h'.live n)
        → Gone h'' addrs ns)
Dead-Gone_others h h' b [] a addrs ms ch d away = λ h'' e. tt
Dead-Gone_others h h' b (n ∷ ns) a addrs ms ch d away = λ h'' e. (
  λ u. e n ch.0 (Apart-join n addrs ms u away.0) ∙ d.0,
  Dead-Gone_others h h' n ns a addrs ms ch.4 d.1 away.1 h'' e,
)

AllApart-taken : (ms addrs ts : List ℕ) → AllApart addrs ts → AllApart (taken ms addrs) ts
AllApart-taken [] addrs ts d = tt
AllApart-taken (m ∷ ms) [] ts d = tt
AllApart-taken (m ∷ ms) (a ∷ addrs) ts d = (d.0, AllApart-taken ms addrs ts d.1)

-- The two passes: the values go to new nodes, then the source's nodes are destroyed.
pub move_each-Moved :
    (fuel : ℕ) (h : Nodes) (l x : OffsetList) (ms addrs : List ℕ)
    → l.ends ≡ empty_ends
    → Source h x ms addrs
    → length ms < fuel
    → (r : Nodes × OffsetList × OffsetList) × (move_each fuel addrs h l x ≡ some r)
      × Moved h false r (taken ms addrs) ms
      × Kept h r.0 (addrs ++ ms)
      × (r.1.alloc ≡ l.alloc)
      × (r.2.alloc ≡ x.alloc)
unfolding move_each
move_each-Moved fuel h l x ms addrs e s k =
    let p = push_each-Source h x ms addrs s in
    let xs = IsList-Kept h p.0.0 addrs x.ends ms p.2.kept s.apart s.list in
    let c = clear-Kept fuel p.0.0 x.ends ms xs k in
    let d = AllApart-taken ms addrs ms (AllApart-sym ms addrs s.apart) in
    let ts = taken ms addrs in
    (
      (c.0, record l { ends = p.0.1 }, record x { ends = empty_ends }),
      ground (arith, subst (λ q. push_each addrs h q x.ends.head ≡ some p.0) (sym e) p.1, c.1),
      record {
        target = IsList-Kept p.0.0 c.0 ms p.0.1 ts c.3 d p.2.list;
        equal = values-Kept p.0.0 c.0 ms 0 ts 0 c.3 d p.2.list.chain ∙ p.2.copied;
        source = refl;
        links = λ q. absurd (ground (arith, q));
        dead = λ q. c.2;
      },
      λ n ne a.
          let b = Apart-append n addrs ms a in
          let u = p.2.kept n ne b.0 in
          let v = c.3 n ne b.1 in (v.0 ∙ u.0, v.1 ∙ u.1, v.2 ∙ u.2, v.3 ∙ u.3),
      refl,
      refl,
    )

take_over-Moved :
    (fuel : ℕ) (h : Nodes) (l x : OffsetList) (ms addrs : List ℕ)
    → l.ends ≡ empty_ends
    → Source h x ms addrs
    → length ms < fuel
    → (r : Nodes × OffsetList × OffsetList) × (take_over fuel addrs h l x ≡ some r)
      × (ts : List ℕ) × Moved h (l.alloc == x.alloc) r ts ms
      × Kept h r.0 (addrs ++ ms)
unfolding take_over
take_over-Moved fuel h l x ms addrs e s k = elim (Bool-cases (l.alloc == x.alloc)) [
  | inl z ↦ (
    (h, record l { ends = x.ends }, record x { ends = empty_ends }),
    rw z refl,
    ms,
    record {
      target = s.list;
      equal = refl;
      source = refl;
      links = λ q. refl;
      dead = λ q. absurd (ground (arith, q, z));
    },
    λ n ne a. (refl, refl, refl, refl),
  )
  | inr z ↦
      let r = move_each-Moved fuel h l x ms addrs e s k in
      (
        r.0,
        rw z r.1,
        taken ms addrs,
        record {
          target = r.2.target;
          equal = r.2.equal;
          source = r.2.source;
          links = λ q. absurd (ground (arith, q, z));
          dead = λ q. r.2.dead refl;
        },
        r.3,
      )
]

-- The move constructor makes a list of the source's values and empties the source. With the source's
-- allocator the nodes go over, with another one they are destroyed.
pub move_construct-Moved :
    (fuel : ℕ) (h : Nodes) (x : OffsetList) (a : ℕ) (ms addrs : List ℕ)
    → Source h x ms addrs
    → length ms < fuel
    → (r : Nodes × OffsetList × OffsetList) × (move_construct fuel addrs h x a ≡ some r)
      × (ts : List ℕ) × Moved h (a == x.alloc) r ts ms
unfolding move_construct
move_construct-Moved fuel h x a ms addrs s k =
    let r = take_over-Moved fuel h (record { alloc = a; ends = empty_ends }) x ms addrs refl s k in
    (r.0, r.1, r.2, r.3)

-- Move assignment destroys the nodes that the target had, gives it the source's values and empties the
-- source. Where the target's allocator, after it took over the source's or not, is equal to the
-- source's, the nodes go over, otherwise they are destroyed. A node that the target had is not alive
-- after it unless the allocator answered its address again for a new one.
pub move_assign-Moved :
    (propagates : Bool) (fuel : ℕ) (h : Nodes) (l x : OffsetList) (ns ms addrs : List ℕ)
    → IsList h l.ends ns
    → AllApart ms ns
    → length ns < fuel
    → Source h x ms addrs
    → length ms < fuel
    → let a = if propagates then x.alloc else l.alloc in
      (r : Nodes × OffsetList × OffsetList) × (move_assign propagates fuel addrs h l x ≡ some r)
      × (ts : List ℕ) × Moved h (a == x.alloc) r ts ms
      × Gone r.0 addrs ns
unfolding move_assign
move_assign-Moved propagates fuel h l x ns ms addrs list d k s k' =
    let a = if propagates then x.alloc else l.alloc in
    let c = clear-Kept fuel h l.ends ns list k in
    let r =
      take_over-Moved fuel c.0 (record { alloc = a; ends = empty_ends }) x ms addrs refl
        (cleared-Source h c.0 x ns ms addrs c.3 d s) k' in
    (
      r.0,
      ground (arith, c.1, r.1),
      r.2,
      record {
        target = r.3.target;
        equal = r.3.equal ∙ values-Kept h c.0 ns 0 ms 0 c.3 d s.list.chain;
        source = r.3.source;
        links = r.3.links;
        dead = r.3.dead;
      },
      Dead-Gone_others h c.0 0 ns 0 addrs ms list.chain c.2 (AllApart-sym ms ns d) r.0.0
          (λ n ne u. (r.4 n ne u).2),
    )
