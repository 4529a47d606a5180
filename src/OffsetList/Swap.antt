-- ===== src/OffsetList/Swap.antt =====
-- `swap`, with allocators that are equal and with others.
use procshared_mem.Base.{
  ℕ, ◌<◌, ◌≡◌, ◌≢◌, refl, sym, subst, Bool, true, false, some, none, inl, inr, List, [], ◌∷◌, ◌++◌,
  length, ◌==◌, Bool-cases, if◌then◌else◌, arith,
}
use procshared_mem.OffsetList.{
  Nodes, empty_ends, push_back, construct_node, insert_node_to_back, destruct_node,
}
use procshared_mem.OffsetList.Chains.{Chain, AllApart, IsList}
use procshared_mem.OffsetList.Others.{Chain-Kept}
use procshared_mem.OffsetList.Whole.{OffsetList, return_each, swap}
use procshared_mem.OffsetList.Moves.{Source, move_each-Moved}

-- With allocators that are equal after the exchange, each list has the nodes of the other.
pub swap-equal :
    (propagates : Bool) (fuel : ℕ) (addrs addrs' : List ℕ) (h : Nodes) (l x : OffsetList)
    → l.alloc ≡ x.alloc
    → swap propagates fuel addrs addrs' h l x
      ≡ some (h, record l { ends = x.ends }, record x { ends = l.ends })
unfolding swap
swap-equal true fuel addrs addrs' h l x e = ground (arith, e)
swap-equal false fuel addrs addrs' h l x e = ground (arith, e)

-- The last loop destroys the second node and then reads it.
return_each-read :
    (addrs : List ℕ) (h : Nodes) (n m : ℕ) (ns : List ℕ)
    → Chain h 0 (n ∷ m ∷ ns) 0
    → AllApart (n ∷ m ∷ []) addrs
    → return_each addrs h empty_ends n ≡ none
unfolding return_each push_back construct_node insert_node_to_back destruct_node
return_each-read [] h n m ns c d = ground (arith, c)
return_each-read (a ∷ []) h n m ns c d = ground (arith, c, d)
return_each-read (a ∷ b ∷ addrs) h n m ns c d = ground (arith, c, d)

-- Lists whose allocators differ trade their nodes only for their values, and where `*this` has two
-- nodes or more, the last loop of `swap` reads a node that it has destroyed: whatever addresses the
-- allocators answer, as long as they are fresh and enough for the first passes, there is no result.
pub swap-unequal :
    (propagates : Bool) (fuel : ℕ) (h : Nodes) (l x : OffsetList) (n m : ℕ)
    (ns ms addrs addrs' : List ℕ)
    → l.alloc ≢ x.alloc
    → IsList h l.ends (n ∷ m ∷ ns)
    → Source h x ms addrs
    → AllApart (n ∷ m ∷ ns) (addrs ++ ms)
    → AllApart (n ∷ m ∷ []) addrs'
    → length ms < fuel
    → swap propagates fuel addrs addrs' h l x ≡ none
unfolding swap
swap-unequal propagates fuel h l x n m ns ms addrs addrs' ne list s d d' k =
    let a = if propagates then x.alloc else l.alloc in
    let b = if propagates then l.alloc else x.alloc in
    let r =
      move_each-Moved fuel h (record { alloc = a; ends = empty_ends })
        (record { alloc = b; ends = x.ends }) ms addrs refl
        (record { list = s.list; fresh = s.fresh; apart = s.apart; enough = s.enough }) k in
    let ch = Chain-Kept h r.0.0 (addrs ++ ms) 0 (n ∷ m ∷ ns) 0 r.3 d list.chain in
    let e =
      subst (λ q. return_each addrs' r.0.0 q l.ends.head ≡ none) (sym r.2.source)
        (subst (λ q. return_each addrs' r.0.0 empty_ends q ≡ none) (sym list.head)
          (return_each-read addrs' r.0.0 n m ns ch d')) in
    let t : (a == b) ≡ false = elim (Bool-cases propagates) [
      | inl z ↦ ground (arith, z, ne)
      | inr z ↦ ground (arith, z, ne)
    ] in
    ground (arith, t, r.1, e)
