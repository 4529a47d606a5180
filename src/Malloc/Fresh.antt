-- ===== src/Malloc/Fresh.antt =====
-- The allocator as the constructor leaves it.
use procshared_mem.Base.{
  ℕ, ◌+◌, ◌*◌, ◌/◌, ◌%◌, ◌≤◌, ◌<◌, ◌≡◌, refl, ◌∙◌, inl, inr, some, [], ◌∷◌, arith,
}
use mathlib.Core.Path.{subst}
use procshared_mem.Base.Word.{word_mod, add_word, sub_word}
use procshared_mem.OffsetPtr.{Ptr, null}
use procshared_mem.Malloc.{
  Blocks, Impl, get_next_ptr, construct, addr_top_of, set_next_ptr, set_blk_size,
}
use procshared_mem.Malloc.Rings.{Ring, get_next_ptr-set_next_ptr, get_next_ptr-set_next_ptr_other}

-- One free block between the body of `base_blk_` and the end, in a ring with `base_blk_`.
pub record IsFresh (base end_pointer : Ptr) (h : Impl) : Type 0 where
  pub top : Ptr
  pub count : ℕ
  pub ring : Ring h.blocks h.freep ((base, 0) ∷ (top, count) ∷ [])
  pub above : base + 16 ≤ top
  pub below : top + 16 * count ≤ end_pointer
  pub room : 0 < count
  pub members : (h.base ≡ base) × (h.end ≡ end_pointer)

addr_top_of_lem :
    (base : ℕ)
    → base + 48 < word_mod
    → (addr_top_of base % 16 ≡ 0) × (base + 16 ≤ addr_top_of base) × (addr_top_of base < base + 32)
unfolding addr_top_of
addr_top_of_lem base h = omega arith

-- The links of the two blocks, and their sizes.
abbrev fresh_blocks : Blocks → (base top count : ℕ) → Blocks
fresh_blocks m base top count =
    let m0 = set_blk_size (set_next_ptr m base null) base 0 in
    set_next_ptr (set_blk_size (set_next_ptr m0 top base) top count) base top

module _ (m : Blocks) (base top count : ℕ) (ne : base < top) (hb : top < word_mod) where
  fresh-base : get_next_ptr (fresh_blocks m base top count) base ≡ top
  fresh-base = get_next_ptr-set_next_ptr _ base top (omega arith) hb ∙ ground arith

  fresh-top : get_next_ptr (fresh_blocks m base top count) top ≡ base
  unfolding get_next_ptr set_blk_size
  fresh-top =
      get_next_ptr-set_next_ptr_other _ base top top (omega arith)
      ∙ get_next_ptr-set_next_ptr (set_blk_size (set_next_ptr m base null) base 0) top base hb
          (omega arith)
      ∙ ground arith

  fresh_sizes :
      ((fresh_blocks m base top count).size base ≡ 0)
      × ((fresh_blocks m base top count).size top ≡ count)
  unfolding set_next_ptr set_blk_size
  fresh_sizes = (ground arith, ground arith)

abbrev headers_in : (impl_size : ℕ) → (base end_pointer : Ptr) → ℕ
headers_in impl_size base end_pointer =
    sub_word end_pointer (add_word (addr_top_of base) impl_size) / 16

construct-eq-some :
    (impl_size : ℕ) (m : Blocks) (base end_pointer : Ptr) (h : Impl)
    → construct impl_size m base end_pointer ≡ some h
    → (add_word (addr_top_of base) impl_size < end_pointer)
      × (2 ≤ headers_in impl_size base end_pointer)
      × (record {
        end = end_pointer;
        freep = base;
        base = base;
        blocks =
            fresh_blocks m base
              (addr_top_of base)
              (sub_word (headers_in impl_size base end_pointer) 1);
      }
          ≡ h)
unfolding construct
construct-eq-some impl_size m base end_pointer h e = (ground arith, ground arith, ground arith)

-- In an area that does not wrap, the constructor either throws or leaves one free block of at least
-- one header inside the area, linked in a ring with `base_blk_`.
pub construct-IsFresh :
    (impl_size : ℕ) (m : Blocks) (base end_pointer : Ptr) (h : Impl)
    → 0 < base
    → base + 48 + impl_size < word_mod
    → end_pointer < word_mod
    → construct impl_size m base end_pointer ≡ some h
    → IsFresh base end_pointer h
construct-IsFresh impl_size m base end_pointer h pos w hend e =
    subst (IsFresh base end_pointer) found.2 (record {
      top = top;
      count = count;
      ring = record {
        chain = (
          refl,
          omega arith,
          (fresh_sizes m base top count less hb).0,
          (
            fresh-base m base top count less hb,
            omega (arith, less),
            (fresh_sizes m base top count less hb).1,
            fresh-top m base top count less hb,
          ),
        );
        disjoint = ((inl (omega (arith, less), less), tt), (tt, tt));
        placed =
            (inl refl, pos, omega arith, (inr lem.0, omega (arith, less), omega (arith, fits), tt));
      };
      above = lem.1;
      below = omega (arith, fits);
      room = roomy;
      members = (refl, refl);
    })
  where
    found :
        (add_word (addr_top_of base) impl_size < end_pointer)
        × (2 ≤ headers_in impl_size base end_pointer)
        × (record {
          end = end_pointer;
          freep = base;
          base = base;
          blocks =
              fresh_blocks m base
                (addr_top_of base)
                (sub_word (headers_in impl_size base end_pointer) 1);
        }
            ≡ h)
    found = construct-eq-some impl_size m base end_pointer h e

    top : Ptr
    top = addr_top_of base

    count : ℕ
    count = sub_word (headers_in impl_size base end_pointer) 1

    lem : (top % 16 ≡ 0) × (base + 16 ≤ top) × (top < base + 32)
    lem = addr_top_of_lem base (omega arith)

    less : base < top
    less = omega (arith, lem)

    hb : top < word_mod
    hb = omega (arith, lem)

    fits : top + 16 * count + 16 ≤ end_pointer
    fits = omega (arith, lem, found.0, found.1)

    roomy : 0 < count
    roomy = omega (arith, found.1)
