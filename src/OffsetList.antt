-- ===== src/OffsetList.antt =====
-- `offset_list<T, Allocator>` of libipsm_mem/inc/offset_list.hpp: nodes at addresses, linked both
-- ways, and list objects with a head and a tail. Where the allocator puts a new node is a parameter of
-- the operation that asks for it; `live` says where a node stands. A loop that follows a null pointer,
-- or reads a node that was destroyed, has no result.
pub mod Chains
pub mod Splice
pub mod Insert
pub mod Destruct
pub mod Erase
mod Iterate
pub mod Others
pub mod Whole
pub mod Copies
pub mod Moves
pub mod Swap
mod Tests
mod WholeTests
use procshared_mem.Base.{
  ℕ, zero, suc, ◌+◌, ◌≤◌, ◌<◌, ◌≡◌, Bool, true, false, not, ◌&&◌, Option, none, some, List, [], ◌∷◌,
  ◌==◌, if◌then◌else◌, arith,
}
use procshared_mem.Base.Tally.{update}

-- The nodes in memory: `op_pre_`, `op_nxt_` and `data_`, 0 for null.
pub record Nodes : Type 0 where
  pub pre : ℕ → ℕ
  pub nxt : ℕ → ℕ
  pub data_of : ℕ → ℕ
  pub live : ℕ → Bool

-- `op_head_` and `op_tail_` of a list object.
pub record Ends : Type 0 where
  pub head : ℕ
  pub tail : ℕ

abbrev pub Lists : Type 0
Lists = Nodes × Ends

abbrev pub set_pre : Nodes → ℕ → ℕ → Nodes
set_pre h a p = record h { pre = update h.pre a p }

abbrev pub set_nxt : Nodes → ℕ → ℕ → Nodes
set_nxt h a p = record h { nxt = update h.nxt a p }

-- `uses_allocator_contruct_node`, with the address that the allocator answers.
unfoldable pub construct_node : Nodes → ℕ → ℕ → Nodes
construct_node h p x = record {
  pre = update h.pre p 0;
  nxt = update h.nxt p 0;
  data_of = update h.data_of p x;
  live = update h.live p true;
}

-- `usee_allocator_destruct_node`.
unfoldable pub destruct_node : Nodes → ℕ → Nodes
destruct_node h p = if p == 0 then h else record h { live = update h.live p false }

abbrev pub empty_ends : Ends
empty_ends = record { head = 0; tail = 0 }

unfoldable pub insert_node_to_front : Nodes → Ends → ℕ → Lists
insert_node_to_front h l p =
    if l.head == 0
    then (h, record { head = p; tail = p })
    else (set_nxt (set_pre h l.head p) p l.head, record l { head = p })

unfoldable pub insert_node_to_back : Nodes → Ends → ℕ → Lists
insert_node_to_back h l p =
    if l.tail == 0
    then (h, record { head = p; tail = p })
    else (set_pre (set_nxt h l.tail p) p l.tail, record l { tail = p })

unfoldable pub insert_node_before_position : Nodes → Ends → ℕ → ℕ → Lists
insert_node_before_position h l cur p =
    if cur == 0
    then if l.tail == 0
      then (h, record { head = p; tail = p })
      else (set_pre (set_nxt h l.tail p) p l.tail, record l { tail = p })
    else if h.pre cur == 0
    then (set_nxt (set_pre h cur p) p cur, record l { head = p })
    else let q = h.pre cur in (set_nxt (set_pre (set_pre (set_nxt h q p) cur p) p q) p cur, l)

unfoldable pub push_front : Nodes → Ends → ℕ → ℕ → Lists
push_front h l p x = insert_node_to_front (construct_node h p x) l p

unfoldable pub push_back : Nodes → Ends → ℕ → ℕ → Lists
push_back h l p x = insert_node_to_back (construct_node h p x) l p

-- `emplace_front` and `emplace_back` also answer a reference to the new value.
unfoldable pub emplace_front : Nodes → Ends → ℕ → ℕ → Lists × ℕ
emplace_front h l p x = (insert_node_to_front (construct_node h p x) l p, p)

unfoldable pub emplace_back : Nodes → Ends → ℕ → ℕ → Lists × ℕ
emplace_back h l p x = (insert_node_to_back (construct_node h p x) l p, p)

-- An iterator is the address of its node, 0 at the end; `insert` and `emplace` answer the new node's.
unfoldable pub insert : Nodes → Ends → ℕ → ℕ → ℕ → Lists × ℕ
insert h l position p x = (insert_node_before_position (construct_node h p x) l position p, p)

abbrev pub begin : Ends → ℕ
begin l = l.head

abbrev pub end : ℕ
end = 0

-- `operator++` and `operator--` of an iterator, and of a reverse iterator.
unfoldable pub increment : Nodes → ℕ → ℕ
increment h it = if it == 0 then 0 else h.nxt it

unfoldable pub decrement : Nodes → Ends → ℕ → ℕ
decrement h l it = if it == 0 then l.tail else h.pre it

unfoldable pub reverse_increment : Nodes → ℕ → ℕ
reverse_increment h it = if it == 0 then 0 else h.pre it

unfoldable pub reverse_decrement : Nodes → Ends → ℕ → ℕ
reverse_decrement h l it = if it == 0 then l.head else h.nxt it

unfoldable pub empty : Ends → Bool
empty l = l.head == 0

-- The loop of `size`: `none` when the fuel runs out.
unfoldable pub size_loop : ℕ → Nodes → ℕ → ℕ → Option ℕ
size_loop zero h it ans = none
size_loop (suc fuel) h it ans =
    let rest = size_loop fuel h (increment h it) (suc ans) in if it == end then some ans else rest

unfoldable pub size : ℕ → Nodes → Ends → Option ℕ
size fuel h l = size_loop fuel h (begin l) 0

-- `*begin()` and `*--end()`; on an empty list a null pointer is read.
unfoldable pub front : Nodes → Ends → Option ℕ
front h l = if begin l == 0 then none else some (h.data_of (begin l))

unfoldable pub back : Nodes → Ends → Option ℕ
back h l = let it = decrement h l end in if it == 0 then none else some (h.data_of it)

-- The loops of `erase` and `clear`: nodes are destroyed from `target` on until `last`.
unfoldable pub destruct_until : ℕ → Nodes → ℕ → ℕ → Option Nodes
destruct_until zero h target last = none
destruct_until (suc fuel) h target last =
    let rest = destruct_until fuel (destruct_node h target) (h.nxt target) last in
    if target == last then some h else if h.live target then rest else none

-- What `erase` links after its loop: the list, and the iterator it answers.
unfoldable pub close_gap : Nodes → Ends → ℕ → ℕ → Lists × ℕ
close_gap h l p_pre p_nxt =
    if (p_pre == 0) && (p_nxt == 0)
    then ((h, empty_ends), end)
    else if p_pre == 0
    then ((set_pre h p_nxt 0, record l { head = p_nxt }), p_nxt)
    else if p_nxt == 0
    then ((set_nxt h p_pre 0, record l { tail = p_pre }), end)
    else ((set_pre (set_nxt h p_pre p_nxt) p_nxt p_pre, l), p_nxt)

unfoldable pub erase_range : ℕ → Nodes → Ends → ℕ → ℕ → Option (Lists × ℕ)
erase_range fuel h l position last =
    if position == end then some ((h, l), end) else elim (destruct_until fuel h position last) [
      | none ↦ none
      | some h' ↦ some (close_gap h' l (h.pre position) last)
    ]

unfoldable pub erase : ℕ → Nodes → Ends → ℕ → Option (Lists × ℕ)
erase fuel h l position =
    if position == end
    then some ((h, l), end)
    else erase_range fuel h l position (increment h position)

unfoldable pub pop_front : ℕ → Nodes → Ends → Option (Lists × ℕ)
pop_front fuel h l = erase fuel h l (begin l)

unfoldable pub pop_back : ℕ → Nodes → Ends → Option (Lists × ℕ)
pop_back fuel h l = erase fuel h l (decrement h l end)

unfoldable pub clear : ℕ → Nodes → Ends → Option Lists
clear fuel h l = elim (destruct_until fuel h l.head 0) [
  | none ↦ none
  | some h' ↦ some (h', empty_ends)
]

-- The loops that push a run of values, at the addresses that the allocator answers: the constructors
-- and the assignment from an initializer list.
unfoldable pub push_all : Nodes → Ends → List (ℕ × ℕ) → Lists
push_all h l [] = (h, l)
push_all h l (v ∷ vs) = let r = push_back h l v.0 v.1 in push_all r.0 r.1 vs

unfoldable pub construct : Nodes → List (ℕ × ℕ) → Lists
construct h vs = push_all h empty_ends vs

unfoldable pub assign_values : ℕ → Nodes → Ends → List (ℕ × ℕ) → Option Lists
assign_values fuel h l vs = elim (clear fuel h l) [
  | none ↦ none
  | some r ↦ some (push_all r.0 r.1 vs)
]
