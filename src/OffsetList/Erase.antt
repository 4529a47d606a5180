-- ===== src/OffsetList/Erase.antt =====
-- Taking nodes out: `erase` of a range and of one node, `pop_front`, `pop_back` and `clear`.
use procshared_mem.Base.{
  ℕ, ◌≢◌, ◌<◌, ◌≡◌, refl, sym, ◌∙◌, subst, some, List, [], ◌∷◌, ◌++◌, ◌==◌, length, if◌then◌else◌,
  arith,
}
use procshared_mem.OffsetList.{
  Nodes, Ends, Lists, empty_ends, increment, destruct_until, close_gap, erase_range, erase, clear,
}
use procshared_mem.OffsetList.Chains.{
  first, last, Chain, Apart, AllApart, Distinct, IsList, Chain-append, Chain-join, Apart-append,
  Distinct-append, Distinct-join, AllApart-sym, Apart-null, last-Apart, first-Apart, Frame,
  relink_front, relink_back,
}
use procshared_mem.OffsetList.Splice.{last-append, first-append, Apart-last0}
use procshared_mem.OffsetList.Destruct.{
  destructed, Dead, destruct_until-Chain, destructed-same, Dead-destructed, Dead-same, Closed,
  close_gap-Closed,
}

AllApart-split : (us ms vs : List ℕ) → AllApart us (ms ++ vs) → AllApart us ms × AllApart us vs
AllApart-split [] ms vs d = (tt, tt)
AllApart-split (u ∷ us) ms vs d =
    let r = AllApart-split us ms vs d.1 in
    let a = Apart-append u ms vs d.0 in ((a.0, r.0), (a.1, r.1))

head_of :
    (h : Nodes) (us : List ℕ) (a c : ℕ)
    → Chain h 0 us a
    → (if last 0 us == 0 then c else first us a) ≡ first us c
head_of h [] a c ch = refl
head_of h (n ∷ us) a c ch =
    ground (arith, Apart-last0 0 n us (λ e. ch.0 (sym e)) (Apart-null h n us a ch.4))

tail_of :
    (h : Nodes) (b lu : ℕ) (vs : List ℕ)
    → Chain h b vs 0
    → (if first vs 0 == 0 then lu else last b vs) ≡ last lu vs
tail_of h b lu [] ch = refl
tail_of h b lu (n ∷ vs) ch = ground (arith, ch)

-- What an erase of the nodes `ms` leaves: they are destroyed, the others keep their order and values,
-- and the answer is the iterator of the node behind them.
pub record Erased (h : Nodes) (r : Lists × ℕ) (us ms vs : List ℕ) : Type 0 where
  pub list : IsList r.0.0 r.0.1 (us ++ vs)
  pub answer : r.1 ≡ first vs 0
  pub dead : Dead r.0.0 ms
  pub others : (n : ℕ) → Apart n ms → r.0.0.live n ≡ h.live n
  pub values : (n : ℕ) → r.0.0.data_of n ≡ h.data_of n
  pub outside :
      (n : ℕ) → n ≢ last 0 us → n ≢ first vs 0 → (r.0.0.pre n ≡ h.pre n) × (r.0.0.nxt n ≡ h.nxt n)

module _ (h : Nodes) (l : Ends) (us ms vs : List ℕ) (list : IsList h l (us ++ (ms ++ vs))) where
  -- The three runs, and how they lie apart.
  abbrev c1 : Chain h 0 us (first (ms ++ vs) 0) × Chain h (last 0 us) (ms ++ vs) 0
  c1 = Chain-append h 0 us (ms ++ vs) 0 list.chain

  abbrev c2 : Chain h (last 0 us) ms (first vs 0) × Chain h (last (last 0 us) ms) vs 0
  c2 = Chain-append h (last 0 us) ms vs 0 c1.1

  abbrev d1 : Distinct us × Distinct (ms ++ vs) × AllApart us (ms ++ vs)
  d1 = Distinct-append us (ms ++ vs) list.distinct

  abbrev d2 : Distinct ms × Distinct vs × AllApart ms vs
  d2 = Distinct-append ms vs d1.1

  AllApart-ms : AllApart us ms × AllApart us vs
  AllApart-ms = AllApart-split us ms vs d1.2

  erased-Frame :
      (r : Lists × ℕ)
      → Closed (destructed h ms) l r (last 0 us) (first vs 0)
      → Frame h r.0.0 ms (last 0 us) (first vs 0)
  unfolding Closed
  erased-Frame r q n a =
      let s = destructed-same h ms n in
      ((q.0 n).0 ∙ s.3 a, λ e. (q.0 n).1 e ∙ s.1, λ e. (q.0 n).2 e ∙ s.0)

  erased :
      (r : Lists × ℕ) → Closed (destructed h ms) l r (last 0 us) (first vs 0) → Erased h r us ms vs
  unfolding Closed
  erased r q =
      let s = destructed-same h ms in
      let uv = AllApart-sym us vs AllApart-ms.1 in
      let frame = erased-Frame r q in
      record {
        list = record {
          head = ground (
            arith,
            q.3,
            list.head,
            first-append us (ms ++ vs) 0,
            first-append us vs 0,
            head_of h us (first (ms ++ vs) 0) (first vs 0) c1.0,
          );
          tail = ground (
            arith,
            q.4,
            list.tail,
            last-append 0 us (ms ++ vs),
            last-append (last 0 us) ms vs,
            last-append 0 us vs,
            tail_of h (last (last 0 us) ms) (last 0 us) vs c2.1,
          );
          chain =
              Chain-join r.0.0 0 us vs 0
                (relink_front h r.0.0 ms (first vs 0) 0 us (first (ms ++ vs) 0) (first vs 0) frame
                  c1.0 AllApart-ms.0
                  (first-Apart vs us 0 (Apart-null h 0 us (first (ms ++ vs) 0) c1.0) uv) d1.0 q.1)
                (relink_back h r.0.0 ms (last 0 us) (last (last 0 us) ms) (last 0 us) vs 0 frame
                  c2.1 (AllApart-sym ms vs d2.2)
                  (last-Apart 0 us vs (Apart-null h (last (last 0 us) ms) vs 0 c2.1) AllApart-ms.1)
                  d2.1 q.2);
          distinct = Distinct-join us vs d1.0 d2.1 AllApart-ms.1;
        };
        answer = q.5;
        dead =
            Dead-same (destructed h ms) r.0.0 ms (λ n. (q.0 n).0)
              (Dead-destructed h (last 0 us) ms (first vs 0) c2.0 d2.0);
        others = λ n a. (q.0 n).0 ∙ (s n).3 a;
        values = λ n. (q.0 n).3 ∙ (s n).2;
        outside = λ n a b. ((q.0 n).2 b ∙ (s n).0, (q.0 n).1 a ∙ (s n).1);
      }

-- `erase` of the range from the first node of `m ∷ ms` to the one behind it, with fuel for each node
-- and one more, destroys exactly these nodes, links what is left and answers the node behind them.
pub erase_range-Erased :
    (fuel : ℕ) (h : Nodes) (l : Ends) (us : List ℕ) (m : ℕ) (ms vs : List ℕ)
    → IsList h l (us ++ ((m ∷ ms) ++ vs))
    → length (m ∷ ms) < fuel
    → (r : Lists × ℕ) × (erase_range fuel h l m (first vs 0) ≡ some r) × Erased h r us (m ∷ ms) vs
unfolding erase_range
erase_range-Erased fuel h l us m ms vs list k =
    let c = c2 h l us (m ∷ ms) vs list in
    let d = d2 h l us (m ∷ ms) vs list in
    let run =
      destruct_until-Chain fuel h (last 0 us) (m ∷ ms) (first vs 0) c.0 d.0
        (first-Apart vs (m ∷ ms) 0 (Apart-null h (last 0 us) (m ∷ ms) (first vs 0) c.0)
          (AllApart-sym (m ∷ ms) vs d.2))
        k in
    let h' = destructed h (m ∷ ms) in
    (
      close_gap h' l (last 0 us) (first vs 0),
      ground (arith, run, c.0),
      erased h l us (m ∷ ms) vs list (close_gap h' l (last 0 us) (first vs 0))
          (close_gap-Closed h' l (last 0 us) (first vs 0)),
    )

-- `erase` of one node destroys that node alone and answers the one behind it.
pub erase-Erased :
    (fuel : ℕ) (h : Nodes) (l : Ends) (us : List ℕ) (m : ℕ) (vs : List ℕ)
    → IsList h l (us ++ (m ∷ vs))
    → 1 < fuel
    → (r : Lists × ℕ) × (erase fuel h l m ≡ some r) × Erased h r us (m ∷ []) vs
unfolding erase increment
erase-Erased fuel h l us m vs list k =
    let c = c1 h l us (m ∷ []) vs list in
    let r = erase_range-Erased fuel h l us m [] vs list k in
    (
      r.0,
      ground (arith, subst (λ q. erase_range fuel h l m q ≡ some r.0) (sym c.1.3) r.1, c.1),
      r.2,
    )

pub clear_lem :
    (fuel : ℕ) (h : Nodes) (l : Ends) (ns : List ℕ)
    → IsList h l ns
    → length ns < fuel
    → clear fuel h l ≡ some (destructed h ns, empty_ends)
unfolding clear
clear_lem fuel h l ns list k =
    let run =
      destruct_until-Chain fuel h 0 ns 0 list.chain list.distinct (Apart-null h 0 ns 0 list.chain)
        k in
    ground
      (arith, subst (λ q. destruct_until fuel h q 0 ≡ some (destructed h ns)) (sym list.head) run)

-- `clear` destroys every node of the list and leaves it empty.
pub clear-Dead :
    (fuel : ℕ) (h : Nodes) (l : Ends) (ns : List ℕ)
    → IsList h l ns
    → length ns < fuel
    → (h' : Nodes) × (clear fuel h l ≡ some (h', empty_ends))
      × Dead h' ns
      × ((n : ℕ) → Apart n ns → h'.live n ≡ h.live n)
clear-Dead fuel h l ns list k = (
  destructed h ns,
  clear_lem fuel h l ns list k,
  Dead-destructed h 0 ns 0 list.chain list.distinct,
  λ n a. (destructed-same h ns n).3 a,
)
