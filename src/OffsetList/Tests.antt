-- ===== src/OffsetList/Tests.antt =====
-- A list of the nodes 8 and 16; the node 24 is put in, and taken out again.
use procshared_mem.Base.{ℕ, ◌+◌, ◌≡◌, refl, true, some, List, [], ◌∷◌, ◌==◌, if◌then◌else◌, arith}
use procshared_mem.OffsetList.{Nodes, Ends, Lists, insert, erase_range}
use procshared_mem.OffsetList.Chains.{IsList}
use procshared_mem.OffsetList.Splice.{Stored}
use procshared_mem.OffsetList.Insert.{insert-IsList}
use procshared_mem.OffsetList.Erase.{Erased, erase_range-Erased}

abbrev two : Nodes
two = record {
  pre = λ n. if n == 16 then 8 else 0;
  nxt = λ n. if n == 8 then 16 else 0;
  data_of = λ n. n + 100;
  live = λ n. if n == 8 then true else n == 16;
}

abbrev two_ends : Ends
two_ends = record { head = 8; tail = 16 }

abbrev two_nodes : List ℕ
two_nodes = 8 ∷ 16 ∷ []

two-IsList : IsList two two_ends two_nodes
two-IsList = record {
  head = refl;
  tail = refl;
  chain = (omega arith, refl, refl, refl, (omega arith, refl, refl, refl, tt));
  distinct = ((omega arith, tt), (tt, tt));
}

insert-IsList_example :
    let r = insert two two_ends 16 24 7 in
    IsList r.0.0 r.0.1 (8 ∷ 24 ∷ 16 ∷ []) × (r.1 ≡ 24) × Stored two r.0.0 24 7
insert-IsList_example =
    insert-IsList two two_ends (8 ∷ []) (16 ∷ []) 24 7 two-IsList (omega arith)
      (omega arith, (omega arith, tt))

erase_range-Erased_example :
    (r : Lists × ℕ) × (erase_range 5 two two_ends 8 0 ≡ some r) × Erased two r [] two_nodes []
erase_range-Erased_example =
    erase_range-Erased 5 two two_ends [] 8 (16 ∷ []) [] two-IsList (omega arith)
