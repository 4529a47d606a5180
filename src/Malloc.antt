-- ===== src/Malloc.antt =====
-- libipsm_mem/src/offset_mallloc_impl.hpp and .cpp: the K&R allocator of `offset_malloc_impl`.
-- A block is named by its address, and its header is `op_next_block_` (an `offset_ptr`, which stands
-- at the block's own address) and `size_of_this_block_`. Each member function holds `mtx_` from its
-- first access to the list to its return, so it is one step. `sizeof(block_header)` is 16. Loops
-- run on fuel; a `fault` is an access through a null pointer.
pub mod Cells
pub mod Rings
pub mod Search
pub mod Carve
pub mod TakeWhole
pub mod Allocate
pub mod Joins
pub mod Release
pub mod Deallocate
pub mod Exhaust
pub mod Fresh
pub mod Owned
pub mod Heap
pub mod HeapRun
pub mod Tests
use procshared_mem.Base.{
  ℕ, zero, suc, ◌+◌, ◌-◌, ◌*◌, ◌/◌, ◌%◌, ◌≤◌, ◌<◌, Bool, true, false, Option, none, some, not, ◌&&◌,
  ◌||◌, ◌==◌, ltb, leb, if◌then◌else◌,
}
use procshared_mem.Base.Word.{word_mod, add_word, sub_word}
use procshared_mem.OffsetPtr.{Ptr, null, Offsets}
use procshared_mem.OffsetPtr

-- The memory that holds the block headers.
pub record Blocks : Type 0 where
  pub next : Offsets
  pub size : Ptr → ℕ

-- The members of `offset_malloc_impl`; `base` is `&base_blk_`.
pub record Impl : Type 0 where
  pub end : Ptr
  pub freep : Ptr
  pub base : Ptr
  pub blocks : Blocks

abbrev pub header_size : ℕ
header_size = 16

-- `bytes2blocksize`, in `size_t`.
unfoldable pub bytes2blocksize : ℕ → ℕ
bytes2blocksize bytes = sub_word (add_word bytes header_size) 1 / header_size

unfoldable pub get_next_ptr : Blocks → Ptr → Ptr
get_next_ptr m b = OffsetPtr.get m.next b

unfoldable pub set_next_ptr : Blocks → Ptr → Ptr → Blocks
set_next_ptr m b nxt = record m { next = OffsetPtr.construct m.next b nxt }

unfoldable pub set_blk_size : Blocks → Ptr → ℕ → Blocks
set_blk_size m b n = record m { size = λ a. if a == b then n else m.size a }

-- `&( p->block_body_[k - 1] )`, in `size_t` and `uintptr_t`.
unfoldable pub slot : Ptr → ℕ → Ptr
slot b k = add_word (add_word b header_size) (sub_word k 1 * header_size % word_mod)

unfoldable pub get_end_ptr : Blocks → Ptr → Ptr
unfolding slot
get_end_ptr m b = slot b (m.size b)

-- The body's address rounded up to `alignment`.
unfoldable pub get_body_ptr : Ptr → ℕ → Ptr
get_body_ptr b alignment =
    let addr_base = add_word b header_size in
    sub_word (add_word addr_base alignment) 1 / alignment * alignment % word_mod

-- How many headers further the block can start with its aligned body still behind it.
unfoldable pub header_slot_optimize : Ptr → ℕ → ℕ
unfolding get_body_ptr
header_slot_optimize b alignment =
    let aligned = get_body_ptr b alignment in
    let rounded =
      sub_word (add_word aligned header_size) 1 / header_size * header_size % word_mod in
    sub_word rounded (add_word b header_size) / header_size

pub data Outcome : Type 0 where
  returns : Ptr → Impl → Outcome
  done : Impl → Outcome
  out_of_range : Outcome
  logic_error : Outcome
  fault : Outcome
  out_of_fuel : Outcome

-- The branch of `allocate` that cuts the request off the end of a larger block.
unfoldable pub carve : Impl → (req align : ℕ) → (cur : Ptr) → Outcome
carve h req align cur =
    let p_ans = slot cur (sub_word (h.blocks.size cur) req) in
    let m = set_blk_size (set_next_ptr h.blocks p_ans null) p_ans req in
    let req' = sub_word req (header_slot_optimize p_ans align) in
    let new_block_size = sub_word (m.size cur) req' in
    let p_ans' = slot cur new_block_size in
    let m' = set_blk_size m cur new_block_size in
    let m'' = set_blk_size (set_next_ptr m' p_ans' null) p_ans' req' in
    returns (get_body_ptr p_ans' align) (record h { freep = cur; blocks = m'' })

-- The branch that takes a block of the size asked for, or one more, out of the list.
unfoldable pub take_whole : Impl → (req align : ℕ) → (pre cur nxt : Ptr) → Outcome
take_whole h req align pre cur nxt =
    let opt_val = header_slot_optimize cur align in
    if opt_val == 0
    then returns (get_body_ptr cur align)
        (record h { freep = pre; blocks = set_next_ptr (set_next_ptr h.blocks pre nxt) cur null })
    else (let p_ans = slot cur opt_val in
        let m = set_blk_size (set_next_ptr h.blocks p_ans null) p_ans (sub_word req opt_val) in
        let m' = set_next_ptr m pre nxt in
        returns (get_body_ptr p_ans align)
          (record h { freep = pre; blocks = set_blk_size m' pre (add_word (m'.size pre) opt_val) }))

unfoldable pub allocate_loop : ℕ → Impl → (req align : ℕ) → (p_end cur pre : Ptr) → Outcome
unfolding get_next_ptr
allocate_loop zero h req align p_end cur pre = out_of_fuel
allocate_loop (suc fuel) h req align p_end cur pre =
    let nxt = get_next_ptr h.blocks cur in
    let rest = allocate_loop fuel h req align p_end nxt cur in
    if cur == null
    then fault
    else if ltb (req + 1) (h.blocks.size cur)
    then carve h req align cur
    else if not (pre == null) && leb req (h.blocks.size cur)
    then take_whole h req align pre cur nxt
    else if nxt == p_end
    then returns null h
    else rest

-- The number of headers that a request takes, its own among them.
unfoldable pub request_blocks : (req_bytes alignment : ℕ) → ℕ
unfolding bytes2blocksize
request_blocks req_bytes alignment =
    let additional_size = if leb alignment header_size then 0 else alignment - header_size in
    add_word (bytes2blocksize (add_word req_bytes additional_size)) 1

unfoldable pub allocate : ℕ → Impl → (req_bytes alignment : ℕ) → Outcome
unfolding request_blocks allocate_loop
allocate fuel h req_bytes alignment =
    let real_alignment = if alignment == 0 then 1 else alignment in
    allocate_loop fuel h (request_blocks req_bytes alignment) real_alignment h.freep h.freep null

-- The gap for `target` is found: the four cases of coalescing.
unfoldable pub release : Impl → (pre target nxt : Ptr) → Outcome
release h pre target nxt =
    let m = h.blocks in
    let size = m.size in
    let joins_pre = get_end_ptr m pre == target in
    let joins_nxt = get_end_ptr m target == nxt in
    let m' =
      if joins_pre && joins_nxt
      then set_blk_size (set_next_ptr m pre (get_next_ptr m nxt)) pre
          (add_word (add_word (size pre) (size target)) (size nxt))
      else if joins_pre
      then set_blk_size m pre (add_word (size pre) (size target))
      else if joins_nxt
      then set_blk_size (set_next_ptr (set_next_ptr m target (get_next_ptr m nxt)) pre target)
          target (add_word (size target) (size nxt))
      else set_next_ptr (set_next_ptr m target nxt) pre target in
    done (record h { freep = pre; blocks = m' })

-- Whether `target` lies between the neighbours, or behind the last block of the list.
unfoldable pub in_gap : (pre target nxt : Ptr) → Bool
in_gap pre target nxt = (ltb pre target && ltb target nxt) || (ltb pre target && ltb nxt pre)

unfoldable pub deallocate_loop : ℕ → Impl → (p_end target pre nxt : Ptr) → Outcome
unfolding get_next_ptr set_next_ptr in_gap
deallocate_loop zero h p_end target pre nxt = out_of_fuel
deallocate_loop (suc fuel) h p_end target pre nxt =
    let nxt' = get_next_ptr h.blocks nxt in
    let rest = deallocate_loop fuel h p_end target nxt nxt' in
    if in_gap pre target nxt
    then release h pre target nxt
    else if nxt == null
    then fault
    else if not (nxt == p_end)
    then rest
    else if (nxt == h.base) && (nxt' == h.base)
    then done (record h { blocks = set_next_ptr (set_next_ptr h.blocks nxt target) target nxt })
    else logic_error

-- The block whose body `p` points into.
unfoldable pub target_block : Ptr → Ptr
target_block p = sub_word (p / header_size) 1 * header_size % word_mod

-- `is_belong_to`, and the range tests of `deallocate`: from the body of `base_blk_` to the end.
unfoldable pub is_belong_to : Impl → Ptr → Bool
is_belong_to h p =
    if ltb p (h.base + header_size) then false else if leb h.end p then false else true

-- The range error is that of the build without NDEBUG.
unfoldable pub deallocate : ℕ → Impl → Ptr → Outcome
unfolding is_belong_to target_block get_next_ptr deallocate_loop
deallocate fuel h p =
    if is_belong_to h p
    then deallocate_loop fuel h h.freep (target_block p) h.freep (get_next_ptr h.blocks h.freep)
    else out_of_range

-- The constructor, with `addr_top` and the number of blocks as it computes them. `impl_size` is
-- `sizeof(offset_malloc_impl)`; `none` is `std::bad_alloc`.
unfoldable pub addr_top_of : Ptr → Ptr
addr_top_of base =
    sub_word (add_word (add_word base header_size) header_size) 1
    / header_size
    * header_size
    % word_mod

unfoldable pub construct : (impl_size : ℕ) → Blocks → (base end_pointer : Ptr) → Option Impl
unfolding addr_top_of set_next_ptr set_blk_size
construct impl_size m base end_pointer =
    let addr_top = addr_top_of base in
    let addr_buff_start = add_word addr_top impl_size in
    let num_of_blocks = sub_word end_pointer addr_buff_start / header_size in
    let m0 = set_blk_size (set_next_ptr m base null) base 0 in
    let m1 = set_blk_size (set_next_ptr m0 addr_top base) addr_top (sub_word num_of_blocks 1) in
    if leb end_pointer addr_buff_start
    then none
    else if ltb num_of_blocks 2
    then none
    else some (record {
      end = end_pointer;
      freep = base;
      base = base;
      blocks = set_next_ptr m1 base addr_top;
    })

-- `base_offset` is where `base_blk_` stands in the object.
unfoldable pub placement_new :
    (impl_size base_offset : ℕ) → Blocks → (begin_pointer end_pointer : Ptr) → Option Impl
unfolding construct
placement_new impl_size base_offset m begin_pointer end_pointer =
    if (begin_pointer == null) || (end_pointer == null) || leb end_pointer begin_pointer
    then none
    else if leb end_pointer (add_word begin_pointer impl_size)
    then none
    else construct impl_size m (add_word begin_pointer base_offset) end_pointer
