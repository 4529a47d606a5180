-- ===== src/Malloc/Exhaust.antt =====
-- Where the allocator fails: the last free block taken whole, and a request whose size wraps.
use procshared_mem.Base.{
  ℕ, suc, ◌+◌, ◌/◌, ◌≤◌, ◌<◌, ◌≡◌, ◌≢◌, ◌⊎◌, inl, inr, refl, ◌∙◌, true, false, ◌==◌, ltb, leb,
  if◌then◌else◌, [], ◌∷◌, arith,
}
use procshared_mem.Base.Word.{word_mod}
use procshared_mem.OffsetPtr.{null}
use procshared_mem.Malloc.{
  Impl, fault, returns, request_blocks, bytes2blocksize, allocate, allocate_loop, take_whole,
  get_next_ptr,
}
use procshared_mem.Malloc.Rings.{Ring}
use procshared_mem.Malloc.TakeWhole.{taken_blocks, taken_exhausted, taken_size, take_whole_lem}
use procshared_mem.Malloc.Carve.{SmallAlign}
use procshared_mem.Malloc.Allocate.{request_blocks_lem}

-- The rover cannot serve the request by a cut, and the block behind it just fits: it is taken whole.
loop-takes_whole :
    (fuel : ℕ) (h : Impl) (req align f t p s : ℕ)
    → Ring h.blocks f ((f, t) ∷ (p, s) ∷ [])
    → t ≤ req + 1
    → req ≤ s
    → s ≤ req + 1
    → allocate_loop (suc (suc fuel)) h req align f f null
      ≡ take_whole h req align f p (get_next_ptr h.blocks p)
unfolding allocate_loop
loop-takes_whole fuel h req align f t p s r low fits near =
    let f_null : (f == null) ≡ false = ground (arith, r.chain.1) in
    let p_null : (p == null) ≡ false = ground (arith, r.chain.3.1) in
    let apart : (p == f) ≡ false = ground (arith, r.disjoint.0.0) in
    let no_cut_f : ltb (req + 1) t ≡ false = ground arith in
    let no_cut_p : ltb (req + 1) s ≡ false = ground arith in
    let fit : leb req s ≡ true = ground arith in
    rw (r.chain.2, r.chain.3.0, r.chain.3.2, f_null, p_null, apart, no_cut_f, no_cut_p, fit) refl

loop-faults :
    (fuel : ℕ) (h : Impl) (req align f t : ℕ)
    → f ≢ null
    → get_next_ptr h.blocks f ≡ null
    → h.blocks.size f ≡ t
    → t ≤ req + 1
    → allocate_loop (suc (suc fuel)) h req align f f null ≡ fault
unfolding allocate_loop
loop-faults fuel h req align f t ne lone size room = rw lone (ground (arith, size, ne))

real_align :
    (align : ℕ) → (align ≡ 0) ⊎ SmallAlign align → SmallAlign (if align == 0 then 1 else align)
real_align align (inl e) = inl (ground arith)
real_align align (inr s) = ground arith

-- The rover and one other block are free; a request that the rover cannot serve by a cut, and that the
-- other block just fits, takes that one whole, and the list that is left does not lead back to its
-- start: the next request that the remaining block cannot serve by a cut goes through a null pointer,
-- where the list as meant would give null. Both requests are at an alignment up to 16.
pub allocate-Exhausted :
    (fuel : ℕ) (h : Impl) (n align n' align' t p s : ℕ)
    → Ring h.blocks h.freep ((h.freep, t) ∷ (p, s) ∷ [])
    → n + 32 < word_mod
    → (align ≡ 0) ⊎ SmallAlign align
    → t ≤ (n + 15) / 16 + 2
    → (n + 15) / 16 + 1 ≤ s
    → s ≤ (n + 15) / 16 + 2
    → n' + 32 < word_mod
    → align' ≤ 16
    → t ≤ (n' + 15) / 16 + 2
    → (h' : Impl) × (allocate (suc (suc fuel)) h n align ≡ returns (p + 16) h')
      × (allocate (suc (suc fuel)) h' n' align' ≡ fault)
unfolding allocate
allocate-Exhausted fuel h n align n' align' t p s r bytes small low fits near bytes' small' room =
    let f = h.freep in
    let req = (n + 15) / 16 + 1 in
    let al = if align == 0 then 1 else align in
    let nxt = get_next_ptr h.blocks p in
    let h' = record h { blocks = taken_blocks h.blocks f p nxt } in
    let left = taken_exhausted h.blocks f t p s r in
    let size : h'.blocks.size f ≡ t = taken_size h.blocks f p nxt f ∙ r.chain.2 in
    (
      h',
      rw (request_blocks_lem n align bytes (omega (arith, small))) (
          loop-takes_whole fuel h req al f t p s r (omega arith) fits (omega arith)
          ∙ take_whole_lem h req al f p s nxt (real_align align small) (omega (arith, r.placed.3.0))
              (omega (arith, r.placed.3.2))),
      rw (request_blocks_lem n' align' bytes' small') (
          loop-faults fuel h' ((n' + 15) / 16 + 1) (if align' == 0 then 1 else align') f t left.2
            left.3 size (omega arith)),
    )

-- A request of more than 2 ^ 64 - 16 bytes, at an alignment up to 16, wraps to one header: it asks the
-- search for a block without a body.
pub request_blocks-wraps :
    (n align : ℕ) → word_mod < n + 16 → n < word_mod → align ≤ 16 → request_blocks n align ≡ 1
unfolding request_blocks bytes2blocksize
request_blocks-wraps n align lo hi small = ground arith
