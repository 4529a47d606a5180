-- ===== src/Malloc/Tests.antt =====
-- The allocator on a small heap: `base_blk_` at 4096 and one free block of ten headers behind it.
use procshared_mem.Base.{
  ℕ, zero, suc, ◌+◌, ◌-◌, ◌≤◌, ◌^◌, ◌/◌, ◌≡◌, refl, inl, inr, List, [], ◌∷◌, ◌==◌, if◌then◌else◌,
  arith,
}
use procshared_mem.OffsetPtr
use procshared_mem.OffsetPtr.{Ptr, null}
use procshared_mem.Malloc.{
  Blocks, Impl, Outcome, returns, done, fault, get_next_ptr, set_next_ptr, set_blk_size, slot,
  carve, take_whole, allocate, deallocate, construct, request_blocks, get_body_ptr,
  header_slot_optimize, get_end_ptr, release,
}
use procshared_mem.Malloc.Cells.{Cell}
use procshared_mem.Malloc.Rings.{Ring}
use procshared_mem.Malloc.Carve.{Allocated}
use procshared_mem.Malloc.Allocate.{allocate-Allocated}
use procshared_mem.Malloc.Joins.{IsBlock}
use procshared_mem.Malloc.Release.{Freeing}
use procshared_mem.Malloc.Deallocate.{deallocate-Freeing}
use procshared_mem.Malloc.Heap.{Heap}
use procshared_mem.Malloc.HeapRun.{HeapRun, begin, hands_out, takes_back, HeapRun-Heap}
use procshared_mem.Malloc.Exhaust.{allocate-Exhausted, request_blocks-wraps}
use procshared_mem.Malloc.Fresh.{IsFresh, construct-IsFresh}

abbrev garbage : Blocks
garbage = record { next = λ _. 0; size = λ _. 0 }

-- The heap that the constructor leaves, and a block of three headers behind it.
abbrev small_heap : Impl
small_heap = record {
  end = 5000;
  freep = 4096;
  base = 4096;
  blocks = record {
    next = λ a. if a == 4096 then 16 else if a == 4112 then 2 ^ 64 - 16 else 0;
    size = λ a. if a == 4112 then 10 else if a == 4272 then 3 else 0;
  };
}

abbrev cells : List Cell
cells = (4096, 0) ∷ (4112, 10) ∷ []

small_heap-Ring : Ring small_heap.blocks small_heap.freep cells
unfolding get_next_ptr OffsetPtr.get OffsetPtr.calc_address
small_heap-Ring = record {
  chain = (refl, omega arith, refl, (refl, omega arith, refl, refl));
  disjoint = ((omega arith, tt), (tt, tt));
  placed = (inl refl, omega arith, omega arith, (inr refl, omega arith, omega arith, tt));
}

returned-IsBlock : IsBlock small_heap.blocks cells 4272 3
returned-IsBlock = record {
  header = refl;
  pos = omega arith;
  aligned = refl;
  fits = omega arith;
  apart = (omega arith, (omega arith, tt));
}

allocate-Allocated_example :
    Allocated small_heap cells ((100 + 15) / 16 + 1) (allocate 10 small_heap 100 8)
allocate-Allocated_example =
    allocate-Allocated 10 small_heap 100 8 (4096, 0) ((4112, 10) ∷ []) small_heap-Ring (omega arith)
      (inr (inr (inr (inr (inl refl))))) (omega arith)

deallocate-Freeing_example :
    Freeing small_heap cells 4272 3 4096 (deallocate 10 small_heap (4272 + 16))
deallocate-Freeing_example =
    deallocate-Freeing 10 small_heap 4272 3 (4096, 0) (4112, 10) [] small_heap-Ring returned-IsBlock
      refl (omega arith) (omega arith) (omega arith)

-- 130 bytes take the ten headers whole, and then no request can be answered.
allocate-Exhausted_example :
    (h' : Impl) × (allocate 9 small_heap 130 8 ≡ returns (4112 + 16) h')
    × (allocate 9 h' 1 8 ≡ fault)
allocate-Exhausted_example =
    allocate-Exhausted 7 small_heap 130 8 1 8 0 4112 10 small_heap-Ring (omega arith)
      (inr (inr (inr (inr (inl refl))))) (omega arith) (omega arith) (omega arith) (omega arith)
      (omega arith) (omega arith)

request_blocks-wraps_example : request_blocks (2 ^ 64 - 1) 8 ≡ 1
request_blocks-wraps_example =
    request_blocks-wraps (2 ^ 64 - 1) 8 (omega arith) (omega arith) (omega arith)

abbrev and_then : Outcome → (Impl → Outcome) → Outcome
and_then (returns p h) f = f h
and_then (done h) f = f h
and_then o f = o

abbrev address : Outcome → Ptr
address (returns p h) = p
address _ = 0

-- 100 bytes take eight headers off the end of the ten.
allocate_100 : address (allocate 10 small_heap 100 8) ≡ 4160
unfolding allocate carve slot get_body_ptr header_slot_optimize get_next_ptr set_next_ptr
    set_blk_size OffsetPtr.get OffsetPtr.calc_address
allocate_100 = refl

-- 130 bytes take the ten headers whole, and then no request can be answered.
allocate_all : and_then (allocate 10 small_heap 130 8) (λ h. allocate 10 h 1 8) ≡ fault
unfolding allocate take_whole slot get_body_ptr header_slot_optimize get_next_ptr set_next_ptr
    set_blk_size OffsetPtr.get OffsetPtr.calc_address OffsetPtr.construct
allocate_all = refl

abbrev fresh : Impl
fresh = record {
  end = 5000;
  freep = 4096;
  base = 4096;
  blocks =
      set_next_ptr
        (set_blk_size
          (set_next_ptr (set_blk_size (set_next_ptr garbage 4096 null) 4096 0) 4112 4096) 4112 48)
        4096 4112;
}

construct-IsFresh_example : IsFresh 4096 5000 fresh
unfolding construct
construct-IsFresh_example =
    construct-IsFresh 96 garbage 4096 5000 fresh (omega arith) (omega arith) (omega arith) refl

-- A request of 100 bytes takes eight headers off the end of the 48, and comes back to them.
abbrev given : Impl
given = record fresh {
  freep = 4112;
  blocks =
      set_blk_size
        (set_next_ptr
          (set_blk_size (set_blk_size (set_next_ptr fresh.blocks 4752 null) 4752 8) 4112 40) 4752
          null)
        4752 8;
}

abbrev released : Impl
released = record given { blocks = set_blk_size given.blocks 4112 48 }

given_lem : (fuel : ℕ) → 2 ≤ fuel → allocate fuel fresh 100 8 ≡ returns 4768 given
unfolding allocate carve slot get_body_ptr header_slot_optimize get_next_ptr set_next_ptr
    set_blk_size OffsetPtr.get OffsetPtr.calc_address OffsetPtr.construct
given_lem zero e = absurd (omega (arith, e))
given_lem (suc zero) e = absurd (omega (arith, e))
given_lem (suc (suc fuel)) e = refl

released_lem : (fuel : ℕ) → 1 ≤ fuel → deallocate fuel given (4752 + 16) ≡ done released
unfolding deallocate release get_end_ptr slot get_next_ptr set_next_ptr set_blk_size OffsetPtr.get
    OffsetPtr.calc_address OffsetPtr.construct
released_lem zero e = absurd (omega (arith, e))
released_lem (suc fuel) e = refl

first_block : HeapRun fresh given ((4752, 8) ∷ [])
unfolding get_next_ptr set_blk_size set_next_ptr OffsetPtr.get OffsetPtr.calc_address
    OffsetPtr.construct
first_block =
    hands_out 100 8 4768 begin (omega arith) (omega arith) (inr (inr (inr (inr (inl refl)))))
      (record { needs = 2; ends = given_lem }) (omega arith) (omega arith)

HeapRun-Heap_example : (n : ℕ) × (free : List Cell) × Heap 4096 5000 n given free ((4752, 8) ∷ [])
unfolding construct
HeapRun-Heap_example =
    HeapRun-Heap 96 garbage 4096 5000 fresh given ((4752, 8) ∷ []) (omega arith) (omega arith)
      (omega arith) refl first_block

-- The block comes back, and the free block is whole again.
all_back : HeapRun fresh released []
all_back = takes_back [] [] 4752 8 first_block (record { needs = 1; ends = released_lem })
