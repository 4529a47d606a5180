-- ===== src/Malloc/Joins.antt =====
-- Rings that a block joins: the four ways in which it touches its neighbours.
use procshared_mem.Base.{ℕ, ◌+◌, ◌*◌, ◌%◌, ◌<◌, ◌≡◌, refl, ◌∙◌, ◌≢◌, inl, inr, List, ◌∷◌, arith}
use procshared_mem.Base.Word.{word_mod, IsWord}
use procshared_mem.OffsetPtr.{Ptr, null}
use procshared_mem.OffsetPtr
use procshared_mem.Malloc.{Blocks, get_next_ptr, set_next_ptr, set_blk_size, get_end_ptr}
use procshared_mem.Malloc.Cells.{Cell, Placed-has, ApartAll, ApartAll-join}
use procshared_mem.Malloc.Rings.{
  Seg-frame, Seg-start, apart_outside, Ring, get_next_ptr-set_next_ptr,
  get_next_ptr-set_next_ptr_other, slot_lem,
}

-- The block that comes back: where a header boundary is, apart from all free blocks.
pub record IsBlock (m : Blocks) (zs : List Cell) (a k : ℕ) : Type 0 where
  pub header : m.size a ≡ k
  pub pos : 0 < k
  pub aligned : a % 16 ≡ 0
  pub fits : a + 16 * k + 16 < word_mod
  pub apart : ApartAll (a, k) zs

module _ (m : Blocks) (p s q u a k : ℕ) (ws : List Cell) where
  -- `a` follows `p` directly, and `q` does not follow `a`.
  pub Ring-join_pre :
      Ring m p ((p, s) ∷ (q, u) ∷ ws)
      → IsBlock m ((p, s) ∷ (q, u) ∷ ws) a k
      → p + 16 * s ≡ a
      → Ring (set_blk_size m p (s + k)) p ((p, s + k) ∷ (q, u) ∷ ws)
  unfolding set_blk_size get_next_ptr
  Ring-join_pre r b e = record {
    chain = (
      refl,
      r.chain.1,
      ground arith,
      Seg-frame m _ (get_next_ptr m p) p ((q, u) ∷ ws)
          (λ c i. (refl, ground (arith, apart_outside c p s ((q, u) ∷ ws) r.disjoint.0 i)))
          r.chain.3,
    );
    disjoint = (ApartAll-join p s a k ((q, u) ∷ ws) e r.disjoint.0 b.apart.1, r.disjoint.1);
    placed = (
      omega (arith, r.placed.0, b.aligned),
      r.placed.1,
      omega (arith, r.placed.2, b.fits),
      r.placed.3,
    );
  }

  -- What `next` of the block behind the gap leads to.
  behind :
      Ring m p ((p, s) ∷ (q, u) ∷ ws)
      → IsBlock m ((p, s) ∷ (q, u) ∷ ws) a k
      → (get_next_ptr m q ≢ a) × IsWord (get_next_ptr m q)
  behind r b = elim (Seg-start m (get_next_ptr m q) p ws r.chain.3.3) [
    | inl e ↦ (λ e'. omega (arith, b.apart.0), omega (arith, r.placed.2))
    | inr i ↦ (
      λ e'. omega (arith, apart_outside (get_next_ptr m q) a k ws b.apart.1.1 i),
      omega (arith, Placed-has (get_next_ptr m q) ws r.placed.3.3 i),
    )
  ]

  -- The two new links, `p` to `a` and `a` to `b`, where `b` is another block.
  abbrev linked : Ptr → Blocks
  linked b = set_next_ptr (set_next_ptr m a b) p a

  linked-p : (b : Ptr) → a ≢ p → IsWord p → IsWord a → get_next_ptr (linked b) p ≡ a
  linked-p b ne hp ha = get_next_ptr-set_next_ptr (set_next_ptr m a b) p a hp ha ∙ ground arith

  linked-a : (b : Ptr) → a ≢ p → IsWord a → IsWord b → b ≢ a → get_next_ptr (linked b) a ≡ b
  linked-a b ne ha hb far =
      get_next_ptr-set_next_ptr_other (set_next_ptr m a b) p a a ne
      ∙ get_next_ptr-set_next_ptr m a b ha hb
      ∙ ground arith

  linked_elsewhere :
      (b c : Ptr) → c ≢ p → c ≢ a → ((linked b).next c ≡ m.next c) × ((linked b).size c ≡ m.size c)
  unfolding set_next_ptr OffsetPtr.construct
  linked_elsewhere b c np na = (ground arith, refl)

  linked_size : (b c : Ptr) → (linked b).size c ≡ m.size c
  unfolding set_next_ptr
  linked_size b c = refl

  module _ (r : Ring m p ((p, s) ∷ (q, u) ∷ ws)) (b : IsBlock m ((p, s) ∷ (q, u) ∷ ws) a k)
      (above : p < a) where
    -- `q` follows `a` directly, and `a` does not follow `p`.
    pub Ring-join_nxt :
        a + 16 * k ≡ q
        → Ring (set_blk_size (linked (get_next_ptr m q)) a (k + u)) p ((p, s) ∷ (a, k + u) ∷ ws)
    unfolding set_blk_size get_next_ptr
    Ring-join_nxt e = record {
      chain = (
        refl,
        r.chain.1,
        ground (arith, linked_size (get_next_ptr m q) p),
        (
          linked-p _ (omega arith) (omega arith) (omega (arith, b.fits)),
          omega arith,
          ground arith,
          (rw (linked-a _ (omega arith) (omega (arith, b.fits)) (behind r b).1 (behind r b).0) (
              Seg-frame m _ (get_next_ptr m q) p ws
                (λ c i.
                  let np : c ≢ p = omega (arith, apart_outside c p s ws r.disjoint.0.1 i) in
                  let na : c ≢ a = omega (arith, apart_outside c a k ws b.apart.1.1 i) in
                  (
                    (linked_elsewhere (get_next_ptr m q) c np na).0,
                    ground (arith, linked_size (get_next_ptr m q) c),
                  ))
                r.chain.3.3)),
        ),
      );
      disjoint = (
        (omega (arith, b.apart.0, r.disjoint.0.0), r.disjoint.0.1),
        (ApartAll-join a k q u ws e b.apart.1.1 r.disjoint.1.0, r.disjoint.1.1),
      );
      placed = (
        r.placed.0,
        r.placed.1,
        r.placed.2,
        (inr b.aligned, omega arith, omega (arith, r.placed.3.2), r.placed.3.3),
      );
    }

    -- `a` touches neither neighbour.
    pub Ring-insert : Ring (linked q) p ((p, s) ∷ (a, k) ∷ (q, u) ∷ ws)
    Ring-insert = record {
      chain = (
        refl,
        r.chain.1,
        linked_size q p ∙ r.chain.2,
        (
          linked-p _ (omega arith) (omega arith) (omega (arith, b.fits)),
          omega arith,
          linked_size q a ∙ b.header,
          (rw
              (linked-a q (omega arith) (omega (arith, b.fits)) (omega (arith, r.placed.3.2))
                (omega (arith, b.apart.1.0)))
              (Seg-frame m _ q p ((q, u) ∷ ws)
                (λ c i.
                  linked_elsewhere q c
                    (omega (arith, apart_outside c p s ((q, u) ∷ ws) r.disjoint.0 i))
                    (omega (arith, apart_outside c a k ((q, u) ∷ ws) b.apart.1 i)))
                (refl, r.chain.3.1, r.chain.3.2, r.chain.3.3))),
        ),
      );
      disjoint = ((omega (arith, b.apart.0), r.disjoint.0), (b.apart.1, r.disjoint.1));
      placed =
          (r.placed.0, r.placed.1, r.placed.2, (inr b.aligned, omega arith, b.fits, r.placed.3));
    }

set_next_elsewhere :
    (m : Blocks) (p b c : Ptr)
    → c ≢ p
    → ((set_next_ptr m p b).next c ≡ m.next c) × ((set_next_ptr m p b).size c ≡ m.size c)
unfolding set_next_ptr OffsetPtr.construct
set_next_elsewhere m p b c ne = (ground arith, refl)

module _ (m : Blocks) (p s q u a k : ℕ) where
  -- `a` closes the gap between `p` and `q`.
  pub Ring-join_both :
      (d v : ℕ) (ws : List Cell)
      → Ring m p ((p, s) ∷ (q, u) ∷ (d, v) ∷ ws)
      → IsBlock m ((p, s) ∷ (q, u) ∷ (d, v) ∷ ws) a k
      → p + 16 * s ≡ a
      → a + 16 * k ≡ q
      → Ring
          (set_blk_size (set_next_ptr m p (get_next_ptr m q)) p (s + k + u))
          p
          ((p, s + k + u) ∷ (d, v) ∷ ws)
  unfolding set_blk_size get_next_ptr
  Ring-join_both d v ws r b e e' = record {
    chain = (
      refl,
      r.chain.1,
      ground arith,
      (rw leads (
          Seg-frame m _ (get_next_ptr m q) p ((d, v) ∷ ws)
            (λ c i. elsewhere c (omega (arith, apart_outside c p s ((d, v) ∷ ws) r.disjoint.0.1 i)))
            r.chain.3.3)),
    );
    disjoint = (
      ApartAll-join p (s + k) q u ((d, v) ∷ ws) (omega arith)
          (ApartAll-join p s a k ((d, v) ∷ ws) e r.disjoint.0.1 b.apart.1.1) r.disjoint.1.0,
      r.disjoint.1.1,
    );
    placed = (
      omega (arith, r.placed.0, b.aligned),
      r.placed.1,
      omega (arith, r.placed.3.2),
      r.placed.3.3,
    );
  }
    where
      leads : get_next_ptr (set_next_ptr m p (get_next_ptr m q)) p ≡ get_next_ptr m q
      leads =
          get_next_ptr-set_next_ptr m p (get_next_ptr m q) (omega (arith, r.placed.2))
            (omega (arith, r.chain.3.3.0, r.placed.3.3.2))
          ∙ ground (arith, r.chain.3.3.0, r.disjoint.0.1.0)

      elsewhere :
          (c : Ptr)
          → c ≢ p
          → ((set_next_ptr m p (get_next_ptr m q)).next c ≡ m.next c)
            × ((set_blk_size (set_next_ptr m p (get_next_ptr m q)) p (s + k + u)).size c ≡ m.size c)
      elsewhere c ne =
          let (n, z) = set_next_elsewhere m p (get_next_ptr m q) c ne in (n, ground arith)

pub get_end_ptr_lem :
    (m : Blocks) (p s : ℕ)
    → m.size p ≡ s
    → p + 16 * s + 16 < word_mod
    → get_end_ptr m p ≡ p + 16 * s
unfolding get_end_ptr
get_end_ptr_lem m p s e w = rw e (slot_lem p s w)
