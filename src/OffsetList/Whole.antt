-- ===== src/OffsetList/Whole.antt =====
-- Copies, moves and swaps of whole lists. A list object has its allocator, of which only the identity
-- matters; whether a container operation takes the allocator over is a trait of its type, and a
-- parameter. The addresses at which an allocator puts new nodes are given in the order in which it
-- answers them; the loops take one for each value.
use procshared_mem.Base.{ℕ, Bool, Option, none, some, List, [], ◌∷◌, ◌==◌, if◌then◌else◌}
use procshared_mem.OffsetList.{
  Nodes, Ends, Lists, empty_ends, increment, destruct_node, push_back, clear,
}

-- `alloc_`, `op_head_` and `op_tail_`.
pub record OffsetList : Type 0 where
  pub alloc : ℕ
  pub ends : Ends

-- The loop `for ( auto& e : x ) push_back( e )`, from the node `cur` of `x` on. `none` where the
-- addresses run out.
unfoldable pub push_each : List ℕ → Nodes → Ends → ℕ → Option Lists
push_each [] h l cur = if cur == 0 then some (h, l) else none
push_each (a ∷ addrs) h l cur =
    let r = push_back h l a (h.data_of cur) in
    let rest = push_each addrs r.0 r.1 (increment r.0 cur) in if cur == 0 then some (h, l) else rest

-- `offset_list( const offset_list& x, const Allocator& a )`.
unfoldable pub copy_construct : List ℕ → Nodes → OffsetList → ℕ → Option (Nodes × OffsetList)
copy_construct addrs h x a = elim (push_each addrs h empty_ends x.ends.head) [
  | none ↦ none
  | some r ↦ some (r.0, record { alloc = a; ends = r.1 })
]

-- The constructors of a number of equal values, one for each address.
unfoldable pub fill : List ℕ → Nodes → Ends → ℕ → Lists
fill [] h l value = (h, l)
fill (a ∷ addrs) h l value = let r = push_back h l a value in fill addrs r.0 r.1 value

unfoldable pub construct_filled : List ℕ → Nodes → ℕ → Lists
construct_filled addrs h value = fill addrs h empty_ends value

-- `~offset_list`.
unfoldable pub destruct_list : ℕ → Nodes → OffsetList → Option Lists
destruct_list fuel h l = clear fuel h l.ends

-- `offset_list( const offset_list& x )`, with the allocator that the traits select for the copy.
unfoldable pub copy_construct_selected :
    (ℕ → ℕ) → List ℕ → Nodes → OffsetList → Option (Nodes × OffsetList)
copy_construct_selected selected addrs h x = copy_construct addrs h x (selected x.alloc)

-- The second of the two passes of a move between unequal allocators: the values go over one by one,
-- then the source is cleared. The answer is the nodes, the target and the source.
unfoldable pub move_each :
    ℕ → List ℕ → Nodes → OffsetList → OffsetList → Option (Nodes × OffsetList × OffsetList)
move_each fuel addrs h l x = elim (push_each addrs h l.ends x.ends.head) [
  | none ↦ none
  | some r ↦ elim (clear fuel r.0 x.ends) [
    | none ↦ none
    | some s ↦ some (s.0, record l { ends = r.1 }, record x { ends = s.1 })
  ]
]

-- The links of `x` for the target, or the two passes.
unfoldable pub take_over :
    ℕ → List ℕ → Nodes → OffsetList → OffsetList → Option (Nodes × OffsetList × OffsetList)
take_over fuel addrs h l x =
    if l.alloc == x.alloc
    then some (h, record l { ends = x.ends }, record x { ends = empty_ends })
    else move_each fuel addrs h l x

-- `offset_list( offset_list&& x, const Allocator& a )`.
unfoldable pub move_construct :
    ℕ → List ℕ → Nodes → OffsetList → ℕ → Option (Nodes × OffsetList × OffsetList)
move_construct fuel addrs h x a = take_over fuel addrs h (record { alloc = a; ends = empty_ends }) x

-- `offset_list( offset_list&& x )`.
unfoldable pub move_construct_own :
    ℕ → List ℕ → Nodes → OffsetList → Option (Nodes × OffsetList × OffsetList)
move_construct_own fuel addrs h x = move_construct fuel addrs h x x.alloc

-- `operator=( const offset_list& x )`, of another object than `*this`.
unfoldable pub copy_assign :
    Bool → ℕ → List ℕ → Nodes → OffsetList → OffsetList → Option (Nodes × OffsetList)
copy_assign propagates fuel addrs h l x = elim (clear fuel h l.ends) [
  | none ↦ none
  | some c ↦ elim (push_each addrs c.0 c.1 x.ends.head) [
    | none ↦ none
    | some r ↦ some (r.0, record { alloc = if propagates then x.alloc else l.alloc; ends = r.1 })
  ]
]

-- `operator=( offset_list&& x )`, of another object than `*this`.
unfoldable pub move_assign :
    Bool → ℕ → List ℕ → Nodes → OffsetList → OffsetList → Option (Nodes × OffsetList × OffsetList)
move_assign propagates fuel addrs h l x = elim (clear fuel h l.ends) [
  | none ↦ none
  | some c ↦
      take_over fuel addrs c.0
        (record { alloc = if propagates then x.alloc else l.alloc; ends = c.1 }) x
]

-- The last loop of `swap`: the value of `cur` goes to `x`, and then the node behind `cur` is destroyed,
-- not `cur` itself. `none` where the next value is read in a node that was destroyed.
unfoldable pub return_each : List ℕ → Nodes → Ends → ℕ → Option Lists
return_each [] h x cur = if cur == 0 then some (h, x) else none
return_each (a ∷ addrs) h x cur =
    let r = push_back h x a (h.data_of cur) in
    let cur' = r.0.nxt cur in
    let rest = return_each addrs (destruct_node r.0 cur') r.1 cur' in
    if cur == 0 then some (h, x) else if h.live cur then rest else none

-- `swap`: `addrs` are those of the allocator of `*this`, `addrs'` those of `x`'s.
unfoldable pub swap :
    Bool
    → ℕ
    → List ℕ
    → List ℕ
    → Nodes
    → OffsetList
    → OffsetList
    → Option (Nodes × OffsetList × OffsetList)
swap propagates fuel addrs addrs' h l x =
    let a = if propagates then x.alloc else l.alloc in
    let b = if propagates then l.alloc else x.alloc in
    if a == b
    then some (h, record { alloc = a; ends = x.ends }, record { alloc = b; ends = l.ends })
    else elim (move_each fuel addrs h (record { alloc = a; ends = empty_ends })
        (record { alloc = b; ends = x.ends })) [
          | none ↦ none
          | some r ↦ elim (return_each addrs' r.0 r.2.ends l.ends.head) [
            | none ↦ none
            | some s ↦ some (s.0, r.1, record { alloc = b; ends = s.1 })
          ]
        ]
