-- ===== src/Malloc/Carve.antt =====
-- A block that is cut off a larger free block.
use procshared_mem.Base.{
  ℕ, ◌+◌, ◌-◌, ◌*◌, ◌%◌, ◌≤◌, ◌<◌, ◌≡◌, refl, sym, ap, ◌∙◌, subst, ◌≢◌, ◌⊎◌, inl, inr, true, List,
  [], ◌∷◌, ◌++◌, length, arith,
}
use procshared_mem.Base.Word.{word_mod, sub_word}
use procshared_mem.OffsetPtr.{Ptr, null}
use procshared_mem.OffsetPtr
use procshared_mem.Malloc.{
  Blocks, Impl, Outcome, returns, get_next_ptr, set_next_ptr, set_blk_size, slot, get_body_ptr,
  header_slot_optimize, carve,
}
use procshared_mem.Malloc.Cells.{
  Cell, ApartAll, ApartAll-part, total, total-append, has_empty, has_empty-append,
}
use procshared_mem.Malloc.Rings.{
  Seg-frame, apart_outside, Ring, Ring-rotate, Leaves, Leaves-rotate, slot_lem,
}
use procshared_mem.Malloc.Search.{NoFit}

-- An alignment that a body has when its block starts on a header boundary.
abbrev pub SmallAlign : ℕ → Type 0
SmallAlign a = (a ≡ 1) ⊎ ((a ≡ 2) ⊎ ((a ≡ 4) ⊎ ((a ≡ 8) ⊎ (a ≡ 16))))

pub get_body_ptr_lem :
    (b a : ℕ) → SmallAlign a → b % 16 ≡ 0 → b + 32 < word_mod → get_body_ptr b a ≡ b + 16
unfolding get_body_ptr
get_body_ptr_lem b a (inl e) h w = rw e (omega arith)
get_body_ptr_lem b a (inr (inl e)) h w = rw e (omega arith)
get_body_ptr_lem b a (inr (inr (inl e))) h w = rw e (omega arith)
get_body_ptr_lem b a (inr (inr (inr (inl e)))) h w = rw e (omega arith)
get_body_ptr_lem b a (inr (inr (inr (inr e)))) h w = rw e (omega arith)

pub header_slot_optimize_lem :
    (b a : ℕ) → SmallAlign a → b % 16 ≡ 0 → b + 32 < word_mod → header_slot_optimize b a ≡ 0
unfolding header_slot_optimize
header_slot_optimize_lem b a small h w = rw (get_body_ptr_lem b a small h w) (omega arith)

-- The blocks after a cut of `req` headers off the end of the block `(p, s)`.
record Cut (m m' : Blocks) (p s req : ℕ) : Type 0 where
  elsewhere :
      (b : Ptr) → b ≢ p → b ≢ p + 16 * (s - req) → (m'.next b ≡ m.next b) × (m'.size b ≡ m.size b)
  next_kept : m'.next p ≡ m.next p
  left : m'.size p ≡ s - req
  handed : m'.size (p + 16 * (s - req)) ≡ req

abbrev cut_blocks : Blocks → (p s req : ℕ) → Blocks
cut_blocks m p s req =
    let a = p + 16 * (s - req) in
    set_blk_size
      (set_next_ptr (set_blk_size (set_blk_size (set_next_ptr m a null) a req) p (s - req)) a null)
      a req

cut_blocks-Cut : (m : Blocks) (p s req : ℕ) → req < s → Cut m (cut_blocks m p s req) p s req
unfolding set_next_ptr set_blk_size OffsetPtr.construct
cut_blocks-Cut m p s req less = record {
  elsewhere = λ b np na. (ground arith, ground arith);
  next_kept = ground arith;
  left = ground arith;
  handed = ground arith;
}

size_kept :
    (m : Blocks) (p a req : ℕ)
    → p ≢ a
    → (set_blk_size (set_next_ptr m a null) a req).size p ≡ m.size p
unfolding set_next_ptr set_blk_size
size_kept m p a req ne = ground arith

carve_lem :
    (h : Impl) (req align p s : ℕ)
    → SmallAlign align
    → p % 16 ≡ 0
    → p + 16 * s + 16 < word_mod
    → 0 < req
    → req + 1 < s
    → h.blocks.size p ≡ s
    → carve h req align p
      ≡ returns
          (p + 16 * (s - req) + 16)
          (record h { freep = p; blocks = cut_blocks h.blocks p s req })
unfolding carve
carve_lem h req align p s small al w pos big e =
    let a = p + 16 * (s - req) in
    let size_left : sub_word s req ≡ s - req = omega arith in
    let whole_req : sub_word req 0 ≡ req = omega arith in
    let place : slot p (s - req) ≡ a = slot_lem p (s - req) (omega arith) in
    let no_shift : header_slot_optimize a align ≡ 0 =
      header_slot_optimize_lem a align small (omega arith) (omega arith) in
    let body : get_body_ptr a align ≡ a + 16 =
      get_body_ptr_lem a align small (omega arith) (omega arith) in
    let kept : (set_blk_size (set_next_ptr h.blocks a null) a req).size p ≡ s =
      size_kept h.blocks p a req (omega arith) ∙ e in
    rw e (
      rw size_left
        (rw place (rw no_shift (rw whole_req (rw kept (rw size_left (rw place (rw body))))))))

-- The free list was used up: one block is left, and its header reads null, since an `offset_ptr`
-- cannot stand for its own address.
abbrev pub Exhausted : Blocks → Ptr → List Cell → Type 0
Exhausted m f zs =
    (t : ℕ) × (zs ≡ (f, t) ∷ []) × (f ≢ null) × (get_next_ptr m f ≡ null) × (m.size f ≡ t)

-- A block taken from the free blocks `zs`: where it lies, and what is left.
pub record Got (h h' : Impl) (zs : List Cell) (req body : ℕ) : Type 0 where
  pub block : Ptr
  pub count : ℕ
  pub rest : List Cell
  pub at : body ≡ block + 16
  pub enough : req ≤ count
  pub tight : count ≤ req + 1
  pub aligned : block % 16 ≡ 0
  pub header : h'.blocks.size block ≡ count
  pub inside :
      (us : List Cell) × (p : Ptr) × (s : ℕ) × (vs : List Cell) × (zs ≡ us ++ (p, s) ∷ vs)
      × (p ≤ block)
      × (block + 16 * count ≤ p + 16 * s)
  pub apart : ApartAll (block, count) rest
  pub conserved : total rest + count ≡ total zs
  pub free : Ring h'.blocks h'.freep rest ⊎ Exhausted h'.blocks h'.freep rest
  pub kept : (b : Ptr) → has_empty b zs ≡ true → has_empty b rest ≡ true
  pub bounds : (h'.end ≡ h.end) × (h'.base ≡ h.base)
  pub leaves : Leaves h.blocks h'.blocks zs ((block, count) ∷ rest)
  pub last : (b : Ptr) → has_empty b zs ≡ true → length rest ≡ 1 → Exhausted h'.blocks h'.freep rest

pub data Allocated (h : Impl) (zs : List Cell) (req : ℕ) : Outcome → Type 0 where
  full : NoFit req zs → Allocated h zs req (returns null h)
  got : {h' : Impl} {body : ℕ} → Got h h' zs req body → Allocated h zs req (returns body h')

-- A block with room is not the one of size zero.
keep_empty :
    (b : Ptr) (us vs : List Cell) (p s s' : ℕ) (zs : List Cell)
    → 0 < s
    → zs ≡ us ++ (p, s) ∷ vs
    → has_empty b zs ≡ true
    → has_empty b ((p, s') ∷ vs ++ us) ≡ true
keep_empty b us vs p s s' zs room e i =
    ground
      (arith, ap (has_empty b) e, has_empty-append b us ((p, s) ∷ vs), has_empty-append b vs us)

pub total-middle : (us vs : List Cell) (p s : ℕ) → total (us ++ (p, s) ∷ vs) ≡ s + total (vs ++ us)
total-middle us vs p s = omega (arith, total-append us ((p, s) ∷ vs), total-append vs us)

Ring-Cut :
    (m m' : Blocks) (p s req : ℕ) (ws : List Cell)
    → 0 < req
    → req + 1 < s
    → Cut m m' p s req
    → Ring m p ((p, s) ∷ ws)
    → Ring m' p ((p, s - req) ∷ ws)
unfolding get_next_ptr OffsetPtr.get
Ring-Cut m m' p s req ws pos big c r = record {
  chain = (
    refl,
    r.chain.1,
    c.left,
    (rw (ap (OffsetPtr.calc_address p) c.next_kept) (
        Seg-frame m m' (get_next_ptr m p) p ws
          (λ b i.
            c.elsewhere b (omega (arith, apart_outside b p s ws r.disjoint.0 i))
              (omega (arith, apart_outside b p s ws r.disjoint.0 i)))
          r.chain.3)),
  );
  disjoint = (
    ApartAll-part p (s - req) p s ws (omega arith) (omega arith) (omega arith) r.disjoint.0,
    r.disjoint.1,
  );
  placed = (omega (arith, r.placed.0), r.placed.1, omega (arith, r.placed.2), r.placed.3);
}

carve-Leaves :
    (m m' : Blocks) (p s req : ℕ) (ws : List Cell)
    → 0 < req
    → req + 1 < s
    → Cut m m' p s req
    → Leaves m m' ((p, s) ∷ ws) ((p + 16 * (s - req), req) ∷ (p, s - req) ∷ ws)
carve-Leaves m m' p s req ws pos big c = record {
  others = λ b t a. (
    (omega (arith, a.0), (omega (arith, a.0), a.1)),
    (c.elsewhere b (omega (arith, a.0)) (omega (arith, a.0))).1,
  );
  within = λ lo hi a. (inr (omega (arith, a.0)), (inr (omega (arith, a.0)), a.1));
}

-- A block with room is not the only one where there is one of size zero.
one_left :
    (b p s : ℕ) (ws : List Cell)
    → 0 < s
    → has_empty b ((p, s) ∷ ws) ≡ true
    → length ((p, s) ∷ ws) ≢ 1
one_left b p s [] pos i e = ground (arith, pos, i)
one_left b p s (w ∷ ws) pos i e = omega (arith, e)

pub carve-Allocated :
    (h : Impl) (req align p s : ℕ) (us vs zs : List Cell)
    → SmallAlign align
    → 0 < req
    → req + 1 < s
    → zs ≡ us ++ (p, s) ∷ vs
    → Ring h.blocks h.freep zs
    → Allocated h zs req (carve h req align p)
carve-Allocated h req align p s us vs zs small pos big e ring =
    rw (carve_lem h req align p s small (omega (arith, r.placed.0)) r.placed.2 pos big r.chain.2) (
      got (record {
        block = p + 16 * (s - req);
        count = req;
        rest = (p, s - req) ∷ vs ++ us;
        at = refl;
        enough = omega arith;
        tight = omega arith;
        aligned = omega (arith, r.placed.0);
        header = c.handed;
        inside = (us, p, s, vs, e, omega arith, omega arith);
        apart = (
          inr (omega arith),
          ApartAll-part _ req p s (vs ++ us) (omega arith) (omega arith) (omega arith) r.disjoint.0,
        );
        conserved = omega (arith, ap total e, total-middle us vs p s);
        free = inl (Ring-Cut h.blocks _ p s req (vs ++ us) pos big c r);
        kept = λ b i. keep_empty b us vs p s (s - req) zs (omega arith) e i;
        bounds = (refl, refl);
        leaves =
            subst
              (λ l.
                Leaves h.blocks (cut_blocks h.blocks p s req) l
                  ((p + 16 * (s - req), req) ∷ (p, s - req) ∷ vs ++ us))
              (sym e)
              (Leaves-rotate h.blocks (cut_blocks h.blocks p s req) us ((p, s) ∷ vs) _
                (carve-Leaves h.blocks _ p s req (vs ++ us) pos big c));
        last = λ b i one. absurd (
            one_left b p (s - req) (vs ++ us) (omega arith)
              (keep_empty b us vs p s (s - req) zs (omega arith) e i) one);
      }))
  where
    r : Ring h.blocks p ((p, s) ∷ vs ++ us)
    r = Ring-rotate h.blocks h.freep p s us vs (rw e at ring)

    c : Cut h.blocks (cut_blocks h.blocks p s req) p s req
    c = cut_blocks-Cut h.blocks p s req (omega arith)
