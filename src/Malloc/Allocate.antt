-- ===== src/Malloc/Allocate.antt =====
-- What `allocate` hands out, for the alignments up to that of a header.
use procshared_mem.Base.{
  ℕ, ◌+◌, ◌/◌, ◌≤◌, ◌<◌, ◌≡◌, ◌⊎◌, inl, inr, List, ◌∷◌, ◌==◌, if◌then◌else◌, length, arith,
}
use procshared_mem.Base.Word.{word_mod}
use procshared_mem.Malloc.{Impl, Outcome, request_blocks, bytes2blocksize, allocate}
use procshared_mem.Malloc.Cells.{Cell}
use procshared_mem.Malloc.Rings.{Ring, rover_away}
use procshared_mem.Malloc.Search.{Search, nothing, cut, whole, Search-Ring}
use procshared_mem.Malloc.Carve.{Allocated, SmallAlign, carve-Allocated, full}
use procshared_mem.Malloc.TakeWhole.{take_whole-Allocated}

pub request_blocks_lem :
    (n align : ℕ) → n + 32 < word_mod → align ≤ 16 → request_blocks n align ≡ (n + 15) / 16 + 1
unfolding request_blocks bytes2blocksize
request_blocks_lem n align h small = ground arith

-- With a ring of free blocks and enough fuel, a request of `n` bytes at an alignment up to 16 ends:
-- either it is refused with null, nothing changes and no listed block could serve it, or it gets a
-- block of `(n + 15) / 16 + 1` headers or one more, cut from one free block; the blocks that stay
-- free are apart from it and hold all the other headers, and they form a ring again unless only the
-- rover's own block is left.
pub allocate-Allocated :
    (fuel : ℕ) (h : Impl) (n align : ℕ) (c : Cell) (zs : List Cell)
    → Ring h.blocks h.freep (c ∷ zs)
    → n + 32 < word_mod
    → (align ≡ 0) ⊎ SmallAlign align
    → length zs + 1 < fuel
    → Allocated h (c ∷ zs) ((n + 15) / 16 + 1) (allocate fuel h n align)
unfolding allocate
allocate-Allocated fuel h n align c zs ring bytes small f =
    rw (request_blocks_lem n align bytes (omega arith)) (
      finish (real small) (
        Search-Ring h ((n + 15) / 16 + 1) (if align == 0 then 1 else align) h.freep fuel h.freep c
          zs ring.chain (rover_away h.blocks h.freep c.0 c.1 zs ring) f))
  where
    real : (align ≡ 0) ⊎ SmallAlign align → SmallAlign (if align == 0 then 1 else align)
    real (inl e) = inl (ground arith)
    real (inr s) = ground arith

    finish :
        {o : Outcome}
        → SmallAlign (if align == 0 then 1 else align)
        → Search h ((n + 15) / 16 + 1) (if align == 0 then 1 else align) (c ∷ zs) o
        → Allocated h (c ∷ zs) ((n + 15) / 16 + 1) o
    finish al (nothing no_fit) = full no_fit
    finish al (cut us vs p s e big) =
        carve-Allocated h _ _ p s us vs (c ∷ zs) al (omega arith) big e ring
    finish al (whole us vs q t p s e fits near) =
        take_whole-Allocated h _ _ q t p s us vs (c ∷ zs) al (omega arith) fits near e ring
