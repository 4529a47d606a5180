-- ===== src/Malloc/TakeWhole.antt =====
-- A free block that is handed out whole.
use procshared_mem.Base.{
  ℕ, ◌+◌, ◌%◌, ◌≤◌, ◌<◌, ◌≡◌, refl, sym, ap, ◌∙◌, subst, ◌≢◌, ◌⊎◌, inl, inr, true, List, [], ◌∷◌,
  ◌++◌, ◌==◌, if◌then◌else◌, length, arith,
}
use mathlib.Core.List.{append_assoc}
use procshared_mem.Base.Word.{word_mod, IsWord}
use procshared_mem.OffsetPtr.{Ptr, null}
use procshared_mem.OffsetPtr
use procshared_mem.Malloc.{Blocks, Impl, returns, get_next_ptr, set_next_ptr, take_whole}
use procshared_mem.Malloc.Cells.{Cell, total, has_empty, has_empty-append}
use procshared_mem.Malloc.Rings.{
  Seg-frame, apart_outside, Ring, Ring-rotate, Leaves, Leaves-rotate, get_next_ptr-set_next_ptr,
  get_next_ptr-set_next_ptr_other,
}
use procshared_mem.Malloc.Carve.{
  Allocated, Exhausted, SmallAlign, get_body_ptr_lem, got, header_slot_optimize_lem, total-middle,
}

abbrev pub taken_blocks : Blocks → (q p nxt : ℕ) → Blocks
taken_blocks m q p nxt = set_next_ptr (set_next_ptr m q nxt) p null

pub take_whole_lem :
    (h : Impl) (req align q p s nxt : ℕ)
    → SmallAlign align
    → p % 16 ≡ 0
    → p + 32 < word_mod
    → take_whole h req align q p nxt
      ≡ returns (p + 16) (record h { freep = q; blocks = taken_blocks h.blocks q p nxt })
unfolding take_whole
take_whole_lem h req align q p s nxt small al w =
    rw (header_slot_optimize_lem p align small al w) (rw (get_body_ptr_lem p align small al w))

-- The header of `q` now leads past `p`; no other listed header changes.
taken_elsewhere :
    (m : Blocks) (q p nxt b : ℕ)
    → b ≢ q
    → b ≢ p
    → ((taken_blocks m q p nxt).next b ≡ m.next b) × ((taken_blocks m q p nxt).size b ≡ m.size b)
unfolding set_next_ptr OffsetPtr.construct
taken_elsewhere m q p nxt b nq np = (ground arith, refl)

pub taken_size : (m : Blocks) (q p nxt b : ℕ) → (taken_blocks m q p nxt).size b ≡ m.size b
unfolding set_next_ptr
taken_size m q p nxt b = refl

taken_next :
    (m : Blocks) (q p nxt : ℕ)
    → q ≢ p
    → IsWord q
    → IsWord nxt
    → get_next_ptr (taken_blocks m q p nxt) q ≡ (if nxt == q then null else nxt)
taken_next m q p nxt ne hq hn =
    get_next_ptr-set_next_ptr_other (set_next_ptr m q nxt) p null q ne
    ∙ get_next_ptr-set_next_ptr m q nxt hq hn

pub taken_exhausted :
    (m : Blocks) (q t p s : ℕ)
    → Ring m q ((q, t) ∷ (p, s) ∷ [])
    → Exhausted (taken_blocks m q p (get_next_ptr m p)) q ((q, t) ∷ [])
taken_exhausted m q t p s r = (
  t,
  refl,
  r.chain.1,
  rw
      (taken_next m q p (get_next_ptr m p) (omega (arith, r.disjoint.0.0))
        (omega (arith, r.placed.2)) (omega (arith, r.placed.2, r.chain.3.3)))
      (ground (arith, r.chain.3.3)),
  taken_size m q p (get_next_ptr m p) q ∙ r.chain.2,
)

-- The ring without `p`, or the state in which nothing is left but `q`.
taken_free :
    (m : Blocks) (q t p s : ℕ) (ws : List Cell)
    → Ring m q ((q, t) ∷ (p, s) ∷ ws)
    → let m' = taken_blocks m q p (get_next_ptr m p) in
      Ring m' q ((q, t) ∷ ws) ⊎ Exhausted m' q ((q, t) ∷ ws)
taken_free m q t p s [] r = inr (taken_exhausted m q t p s r)
taken_free m q t p s ((d, u) ∷ ws) r = inl (record {
  chain = (
    refl,
    r.chain.1,
    taken_size m q p (get_next_ptr m p) q ∙ r.chain.2,
    (rw leads (
        Seg-frame m _ (get_next_ptr m p) q ((d, u) ∷ ws)
          (λ b i.
            taken_elsewhere m q p (get_next_ptr m p) b
              (omega (arith, apart_outside b q t ((d, u) ∷ ws) r.disjoint.0.1 i))
              (omega (arith, apart_outside b p s ((d, u) ∷ ws) r.disjoint.1.0 i)))
          r.chain.3.3)),
  );
  disjoint = (r.disjoint.0.1, r.disjoint.1.1);
  placed = (r.placed.0, r.placed.1, r.placed.2, r.placed.3.3);
})
  where
    leads : get_next_ptr (taken_blocks m q p (get_next_ptr m p)) q ≡ get_next_ptr m p
    leads =
        taken_next m q p (get_next_ptr m p) (omega (arith, r.disjoint.0.0))
          (omega (arith, r.placed.2)) (omega (arith, r.placed.3.3.2, r.chain.3.3.0))
        ∙ ground (arith, r.chain.3.3.0, r.disjoint.0.1.0)

taken-Leaves :
    (m : Blocks) (q t p s nxt : ℕ) (ws : List Cell)
    → Leaves m (taken_blocks m q p nxt) ((q, t) ∷ (p, s) ∷ ws) ((p, s) ∷ (q, t) ∷ ws)
taken-Leaves m q t p s nxt ws = record {
  others = λ b t' a. ((a.1.0, (a.0, a.1.1)), taken_size m q p nxt b);
  within = λ lo hi a. (a.1.0, (a.0, a.1.1));
}

taken_last :
    (m : Blocks) (q t p s : ℕ) (ws : List Cell)
    → Ring m q ((q, t) ∷ (p, s) ∷ ws)
    → length ((q, t) ∷ ws) ≡ 1
    → Exhausted (taken_blocks m q p (get_next_ptr m p)) q ((q, t) ∷ ws)
taken_last m q t p s [] r e = taken_exhausted m q t p s r
taken_last m q t p s (w ∷ ws) r e = absurd (omega (arith, e))

pub take_whole-Allocated :
    (h : Impl) (req align q t p s : ℕ) (us vs zs : List Cell)
    → SmallAlign align
    → 0 < req
    → req ≤ s
    → s ≤ req + 1
    → zs ≡ us ++ (q, t) ∷ (p, s) ∷ vs
    → Ring h.blocks h.freep zs
    → Allocated h zs req (take_whole h req align q p (get_next_ptr h.blocks p))
take_whole-Allocated h req align q t p s us vs zs small pos fits near e ring =
    rw
      (take_whole_lem h req align q p s (get_next_ptr h.blocks p) small
        (omega (arith, r.placed.3.0)) (omega (arith, r.placed.3.2)))
      (got (record {
        block = p;
        count = s;
        rest = (q, t) ∷ vs ++ us;
        at = refl;
        enough = fits;
        tight = near;
        aligned = omega (arith, r.placed.3.0);
        header = taken_size h.blocks q p (get_next_ptr h.blocks p) p ∙ r.chain.3.2;
        inside = (
          us ++ (q, t) ∷ [],
          p,
          s,
          vs,
          e ∙ sym (append_assoc us ((q, t) ∷ []) ((p, s) ∷ vs)),
          omega arith,
          omega arith,
        );
        apart = (omega (arith, r.disjoint.0.0), r.disjoint.1.0);
        conserved = omega (arith, ap total e, total-middle us ((p, s) ∷ vs) q t);
        free = taken_free h.blocks q t p s (vs ++ us) r;
        kept = λ b i. kept_behind b i;
        bounds = (refl, refl);
        leaves =
            subst
              (λ l.
                Leaves h.blocks (taken_blocks h.blocks q p (get_next_ptr h.blocks p)) l
                  ((p, s) ∷ (q, t) ∷ vs ++ us))
              (sym e)
              (Leaves-rotate h.blocks (taken_blocks h.blocks q p (get_next_ptr h.blocks p)) us
                ((q, t) ∷ (p, s) ∷ vs) _
                (taken-Leaves h.blocks q t p s (get_next_ptr h.blocks p) (vs ++ us)));
        last = λ b i one. taken_last h.blocks q t p s (vs ++ us) r one;
      }))
  where
    kept_behind : (b : Ptr) → has_empty b zs ≡ true → has_empty b ((q, t) ∷ vs ++ us) ≡ true
    kept_behind b i = ground (
      arith,
      ap (has_empty b) e,
      has_empty-append b us ((q, t) ∷ (p, s) ∷ vs),
      has_empty-append b vs us,
    )

    r : Ring h.blocks q ((q, t) ∷ (p, s) ∷ vs ++ us)
    r = Ring-rotate h.blocks h.freep q t us ((p, s) ∷ vs) (rw e at ring)
