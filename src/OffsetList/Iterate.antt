-- ===== src/OffsetList/Iterate.antt =====
-- Walking a list: `size`, and the iterators both ways.
use procshared_mem.Base.{
  ℕ, zero, suc, ◌+◌, ◌<◌, ◌≡◌, ◌≢◌, sym, ◌∙◌, subst, some, List, [], ◌∷◌, ◌++◌, ◌==◌, length, arith,
}
use procshared_mem.OffsetList.{
  Nodes, Ends, increment, decrement, reverse_increment, reverse_decrement, size_loop, size, empty,
}
use procshared_mem.OffsetList.Chains.{first, last, Chain, IsList, Chain-append}
use procshared_mem.OffsetList.Splice.{last-append}

size_loop-Chain :
    (fuel : ℕ) (h : Nodes) (b : ℕ) (ns : List ℕ) (ans : ℕ)
    → Chain h b ns 0
    → length ns < fuel
    → size_loop fuel h (first ns 0) ans ≡ some (length ns + ans)
unfolding size_loop increment
size_loop-Chain zero h b ns ans ch k = absurd (omega (arith, k))
size_loop-Chain (suc fuel) h b [] ans ch k = ground arith
size_loop-Chain (suc fuel) h b (n ∷ ns) ans ch k =
    let rest = size_loop-Chain fuel h n ns (suc ans) ch.4 (omega (arith, k)) in
    let e =
      subst (λ q. size_loop fuel h q (suc ans) ≡ some (length ns + suc ans)) (sym ch.3) rest in
    ground (arith, e, ch)

-- With more fuel than nodes, `size` counts the nodes, and `empty` says whether there are none.
pub size-length :
    (fuel : ℕ) (h : Nodes) (l : Ends) (ns : List ℕ)
    → IsList h l ns
    → length ns < fuel
    → (size fuel h l ≡ some (length ns)) × (empty l ≡ (length ns == 0))
unfolding size empty
size-length fuel h l ns list k =
    let r = size_loop-Chain fuel h 0 ns 0 list.chain k in
    (
      subst (λ q. size_loop fuel h q 0 ≡ some (length ns)) (sym list.head) (r ∙ ground arith),
      empty_of h ns l list,
    )
  where
    empty_of :
        (h : Nodes) (ns : List ℕ) (l : Ends) → IsList h l ns → (l.head == 0) ≡ (length ns == 0)
    empty_of h [] l list = ground (arith, list.head)
    empty_of h (n ∷ ns) l list = ground (arith, list.head, list.chain.0)

reverse_of : (h : Nodes) (l : Ends) (q m : ℕ) → q ≢ 0 → h.nxt q ≡ m → reverse_decrement h l q ≡ m
unfolding reverse_decrement
reverse_of h l q m ne e = ground (arith, ne, e)

last_next :
    (h : Nodes) (b u : ℕ) (us : List ℕ) (m : ℕ)
    → Chain h b (u ∷ us) m
    → (last u us ≢ 0) × (h.nxt (last u us) ≡ m)
last_next h b u [] m c = (c.0, c.3)
last_next h b u (v ∷ us) m c = last_next h u v us m c.4

-- `++` takes an iterator to the next node and `--` back again, the end iterator included; the reverse
-- iterators walk the other way.
pub decrement-increment :
    (h : Nodes) (l : Ends) (us : List ℕ) (m : ℕ) (vs : List ℕ)
    → IsList h l (us ++ (m ∷ vs))
    → (increment h m ≡ first vs 0)
      × (decrement h l (first vs 0) ≡ m)
      × (reverse_increment h m ≡ last 0 us)
      × (reverse_decrement h l (last 0 us) ≡ m)
unfolding increment decrement reverse_increment reverse_decrement
decrement-increment h l us m vs list =
    let c = Chain-append h 0 us (m ∷ vs) 0 list.chain in
    (
      ground (arith, c.1),
      back_to h l us m vs list c.1,
      ground (arith, c.1),
      forth_to h l us m vs list c.0,
    )
  where
    back_to :
        (h : Nodes) (l : Ends) (us : List ℕ) (m : ℕ) (vs : List ℕ)
        → IsList h l (us ++ (m ∷ vs))
        → Chain h (last 0 us) (m ∷ vs) 0
        → decrement h l (first vs 0) ≡ m
    back_to h l us m [] list c = list.tail ∙ last-append 0 us (m ∷ [])
    back_to h l us m (v ∷ vs) list c = ground (arith, c)

    forth_to :
        (h : Nodes) (l : Ends) (us : List ℕ) (m : ℕ) (vs : List ℕ)
        → IsList h l (us ++ (m ∷ vs))
        → Chain h 0 us m
        → reverse_decrement h l (last 0 us) ≡ m
    forth_to h l [] m vs list c = list.head
    forth_to h l (u ∷ us) m vs list c =
        let r = last_next h 0 u us m c in reverse_of h l (last u us) m r.0 r.1
