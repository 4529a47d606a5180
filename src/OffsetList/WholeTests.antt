-- ===== src/OffsetList/WholeTests.antt =====
-- A list of the nodes 8 and 16 and a list of the node 40, with allocators of their own; 48 and 56 are
-- free for new nodes.
use procshared_mem.Base.{
  ℕ, ◌+◌, ◌≡◌, ◌≢◌, refl, true, false, none, some, List, [], ◌∷◌, ◌==◌, if◌then◌else◌, arith,
}
use procshared_mem.OffsetList.{Nodes}
use procshared_mem.OffsetList.Chains.{Apart, IsList}
use procshared_mem.OffsetList.Whole.{OffsetList, copy_assign, move_assign, swap}
use procshared_mem.OffsetList.Moves.{
  Gone, Source, Copied, Moved, copy_assign-Copied, move_assign-Moved,
}
use procshared_mem.OffsetList.Swap.{swap-unequal}

abbrev memory : Nodes
memory = record {
  pre = λ n. if n == 16 then 8 else 0;
  nxt = λ n. if n == 8 then 16 else 0;
  data_of = λ n. n + 100;
  live = λ n. if n == 8 then true else if n == 16 then true else n == 40;
}

abbrev target : OffsetList
target = record { alloc = 1; ends = record { head = 8; tail = 16 } }

abbrev origin : OffsetList
origin = record { alloc = 2; ends = record { head = 40; tail = 40 } }

abbrev target_nodes : List ℕ
target_nodes = 8 ∷ 16 ∷ []

abbrev origin_nodes : List ℕ
origin_nodes = 40 ∷ []

abbrev free_nodes : List ℕ
free_nodes = 48 ∷ 56 ∷ []

target-IsList : IsList memory target.ends target_nodes
target-IsList = record {
  head = refl;
  tail = refl;
  chain = (omega arith, refl, refl, refl, (omega arith, refl, refl, refl, tt));
  distinct = ((omega arith, tt), (tt, tt));
}

origin-Source : Source memory origin origin_nodes free_nodes
origin-Source = record {
  list = record {
    head = refl;
    tail = refl;
    chain = (omega arith, refl, refl, refl, tt);
    distinct = (tt, tt);
  };
  fresh = record {
    distinct = ((omega arith, tt), (tt, tt));
    not_null = (omega arith, (omega arith, tt));
  };
  apart = ((omega arith, (omega arith, tt)), tt);
  enough = omega arith;
}

copy_assign-Copied_example :
    (r : Nodes × OffsetList) × (copy_assign false 3 free_nodes memory target origin ≡ some r)
    × Copied memory origin r origin_nodes (48 ∷ [])
    × ((n : ℕ) → n ≢ 0 → Apart n target_nodes → Apart n free_nodes → r.0.live n ≡ memory.live n)
    × Gone r.0 free_nodes target_nodes
copy_assign-Copied_example =
    copy_assign-Copied false 3 memory target origin target_nodes origin_nodes free_nodes
      target-IsList ((omega arith, (omega arith, tt)), tt) (omega arith) origin-Source

move_assign-Moved_example :
    (r : Nodes × OffsetList × OffsetList) × (move_assign false 3 free_nodes memory target origin
      ≡ some r)
    × (ts : List ℕ) × Moved memory false r ts origin_nodes
    × Gone r.0 free_nodes target_nodes
move_assign-Moved_example =
    move_assign-Moved false 3 memory target origin target_nodes origin_nodes free_nodes
      target-IsList ((omega arith, (omega arith, tt)), tt) (omega arith) origin-Source (omega arith)

swap-unequal_example : swap false 3 free_nodes (64 ∷ 72 ∷ []) memory target origin ≡ none
swap-unequal_example =
    swap-unequal false 3 memory target origin 8 16 [] origin_nodes free_nodes (64 ∷ 72 ∷ [])
      (omega arith) target-IsList origin-Source
      (
        (omega arith, (omega arith, (omega arith, tt))),
        ((omega arith, (omega arith, (omega arith, tt))), tt),
      )
      ((omega arith, (omega arith, tt)), ((omega arith, (omega arith, tt)), tt)) (omega arith)
