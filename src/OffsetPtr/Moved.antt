-- ===== src/OffsetPtr/Moved.antt =====
-- Every member function does the same to a region wherever it is mapped.
use procshared_mem.Base.{
  ℕ, ◌+◌, ◌*◌, ◌%◌, ◌<◌, ◌≤◌, ◌≡◌, refl, sym, ◌∙◌, Bool, Option, none, some, List, [], ◌∷◌, ◌==◌,
  ltb, Bool-cases, inl, inr, if◌then◌else◌, arith,
}
use procshared_mem.Base.Word.{IsWord, word_mod, add_word, sub_word}
use procshared_mem.Base.Tally.{update}
use procshared_mem.OffsetPtr.{
  Offsets, write, calc_offset, get, construct_default, construct, copy_construct, move_construct,
  assign_nullptr, copy_assign, move_assign, convert_assign, eq, ne, lt, le, gt, ge,
  convert_move_assign, swap, add_assign, sub_assign, pre_increment, pre_decrement,
}
use procshared_mem.OffsetPtr.Relocate.{
  Places, address, Within, Represents, Within-Target, get-Represents, Represents-write,
  Represents-null, Call, defaults, builds, copies, moves, clears, copy_assigns, move_assigns,
  converts, convert_moves, swaps, adds, subs, increments, decrements, apply_call, place_call, set,
  shift,
}

-- The arithmetic on a pointer that is not null ends in the region.
abbrev pub Reaches : ℕ → (ℕ → ℕ) → Option ℕ → Type 0
Reaches len f none = ⊥
Reaches len f (some t) = f t < len

-- The objects of a call and what it makes them stand for are in the region.
abbrev pub Inside : ℕ → ℕ → Places → Call → Type 0
Inside len size a (defaults i) = i < len
Inside len size a (builds i v) = (i < len) × Within len v
Inside len size a (copies i j) = (i < len) × (j < len)
Inside len size a (moves i j) = (i < len) × (j < len)
Inside len size a (clears i) = i < len
Inside len size a (copy_assigns i j) = (i < len) × (j < len)
Inside len size a (move_assigns i j) = (i < len) × (j < len)
Inside len size a (converts i j) = (i < len) × (j < len)
Inside len size a (convert_moves i j) = (i < len) × (j < len)
Inside len size a (swaps i j) = (i < len) × (j < len)
Inside len size a (adds i d) = (i < len) × Reaches len (λ t. add_word t (d * size)) (a i)
Inside len size a (subs i d) = (i < len) × Reaches len (λ t. sub_word t (d * size % word_mod)) (a i)
Inside len size a (increments i) = (i < len) × Reaches len (λ t. add_word t size) (a i)
Inside len size a (decrements i) = (i < len) × Reaches len (λ t. sub_word t size) (a i)

abbrev pub AllInside : ℕ → ℕ → Places → List Call → Type 0
AllInside len size a [] = Unit {0}
AllInside len size a (c ∷ cs) = Inside len size a c × AllInside len size (place_call size a c) cs

unfoldable pub run_calls : ℕ → ℕ → Offsets → List Call → Offsets
run_calls size base m [] = m
run_calls size base m (c ∷ cs) = run_calls size base (apply_call size base m c) cs

unfoldable pub place_run : ℕ → Places → List Call → Places
place_run size a [] = a
place_run size a (c ∷ cs) = place_run size (place_call size a c) cs

module _ (len base : ℕ) (pos : 0 < base) (end : base + len ≤ word_mod) where
  -- What an object at `j` gives, stored in the one at `i`.
  transfer :
      (m : Offsets) (a : Places) (i j : ℕ)
      → Represents len base m a
      → i < len
      → j < len
      → Represents len base
          (write m (base + i) (calc_offset (base + i) (get m (base + j))))
          (set a i (a j))
  transfer m a i j r h k =
      rw (get-Represents len base pos end m a j r k)
        (Represents-write len base pos end m a i (a j) r h (Within-Target len j (a j) (r j k).1))

  transfer_out :
      (m : Offsets) (a : Places) (i j : ℕ)
      → Represents len base m a
      → i < len
      → j < len
      → Represents len base
          (write (write m (base + i) (calc_offset (base + i) (get m (base + j)))) (base + j) 0)
          (update (set a i (a j)) j none)
  transfer_out m a i j r h k =
      Represents-null len base pos end
        (write m (base + i) (calc_offset (base + i) (get m (base + j)))) (set a i (a j)) j
        (transfer m a i j r h k) k

  -- Arithmetic that `g` does on addresses and `f` on places.
  shifted :
      (m : Offsets) (a : Places) (i : ℕ) (f g : ℕ → ℕ)
      → Represents len base m a
      → i < len
      → Reaches len f (a i)
      → ((t : ℕ) → f t < len → g (base + t) ≡ base + f t)
      → Represents len base
          (write m (base + i) (calc_offset (base + i) (g (get m (base + i)))))
          (set a i (shift f (a i)))
  shifted m a i f g r h c e = rw (get-Represents len base pos end m a i r h) (go (a i) c)
    where
      go :
          (v : Option ℕ)
          → Reaches len f v
          → Represents len base
              (write m (base + i) (calc_offset (base + i) (g (address base v))))
              (set a i (shift f v))
      go none c = absurd c
      go (some t) c = rw (e t c) (Represents-write len base pos end m a i (some (f t)) r h c)

  choose :
      (b b' : Bool) (m m' : Offsets) (a a' : Places)
      → b ≡ b'
      → Represents len base m a
      → Represents len base m' a'
      → Represents len base (if b then m else m') (if b' then a else a')
  choose b b' m m' a a' e r r' = elim (Bool-cases b') [ inl f ↦ rw (e, f) r | inr f ↦ rw (e, f) r' ]

  apply_call-Represents :
      (size : ℕ) (small : IsWord size) (m : Offsets) (a : Places) (c : Call)
      → Represents len base m a
      → Inside len size a c
      → Represents len base (apply_call size base m c) (place_call size a c)
  unfolding apply_call place_call construct_default construct copy_construct move_construct
      assign_nullptr copy_assign move_assign convert_assign convert_move_assign swap add_assign
      sub_assign pre_increment pre_decrement
  apply_call-Represents size small m a (defaults i) r h = Represents-null len base pos end m a i r h
  apply_call-Represents size small m a (builds i v) r h =
      Represents-write len base pos end m a i v r h.0 h.1
  apply_call-Represents size small m a (copies i j) r h = transfer m a i j r h.0 h.1
  apply_call-Represents size small m a (moves i j) r h = transfer_out m a i j r h.0 h.1
  apply_call-Represents size small m a (clears i) r h = Represents-null len base pos end m a i r h
  apply_call-Represents size small m a (copy_assigns i j) r h =
      choose (base + i == base + j) (i == j) m
        (write m (base + i) (calc_offset (base + i) (get m (base + j)))) a (set a i (a j))
        (ground arith) r (transfer m a i j r h.0 h.1)
  apply_call-Represents size small m a (move_assigns i j) r h =
      choose (base + i == base + j) (i == j) m
        (write (write m (base + i) (calc_offset (base + i) (get m (base + j)))) (base + j) 0) a
        (update (set a i (a j)) j none) (ground arith) r (transfer_out m a i j r h.0 h.1)
  apply_call-Represents size small m a (converts i j) r h = transfer m a i j r h.0 h.1
  apply_call-Represents size small m a (convert_moves i j) r h = transfer_out m a i j r h.0 h.1
  apply_call-Represents size small m a (swaps i j) r h =
      let first = transfer m a j i r h.1 h.0 in
      rw (get-Represents len base pos end m a j r h.1) (
        Represents-write len base pos end
          (write m (base + j) (calc_offset (base + j) (get m (base + i)))) (set a j (a i)) i (a j)
          first h.0 (Within-Target len j (a j) (r j h.1).1))
  apply_call-Represents size small m a (adds i d) r h =
      shifted m a i (λ t. add_word t (d * size)) (λ p. add_word p (d * size)) r h.0 h.1
        (λ t l. omega (arith, pos, end, l))
  apply_call-Represents size small m a (subs i d) r h =
      shifted m a i (λ t. sub_word t (d * size % word_mod)) (λ p. sub_word p (d * size % word_mod))
        r h.0 h.1 (λ t l. omega (arith, pos, end, l))
  apply_call-Represents size small m a (increments i) r h =
      shifted m a i (λ t. add_word t size) (λ p. add_word p size) r h.0 h.1
        (λ t l. omega (arith, pos, end, l))
  apply_call-Represents size small m a (decrements i) r h =
      shifted m a i (λ t. sub_word t size) (λ p. sub_word p size) r h.0 h.1
        (λ t l. omega (arith, pos, end, l, small))

  run_calls-Represents :
      (size : ℕ)
      → IsWord size
      → (m : Offsets) (a : Places) (cs : List Call) → Represents len base m a
      → AllInside len size a cs
      → Represents len base (run_calls size base m cs) (place_run size a cs)
  unfolding run_calls place_run
  run_calls-Represents size small m a [] r h = r
  run_calls-Represents size small m a (c ∷ cs) r h =
      run_calls-Represents size small (apply_call size base m c) (place_call size a c) cs
        (apply_call-Represents size small m a c r h.0) h.1

-- A program of calls on the objects of a region leaves the same bytes in them wherever the region is
-- mapped, and they stand for the places that the program computes without any address.
pub run_calls-moved :
    (len size base base' : ℕ) (m m' : Offsets) (a : Places) (cs : List Call)
    → IsWord size
    → 0 < base
    → base + len ≤ word_mod
    → 0 < base'
    → base' + len ≤ word_mod
    → Represents len base m a
    → Represents len base' m' a
    → AllInside len size a cs
    → (i : ℕ) → i < len
    → (run_calls size base m cs (base + i) ≡ run_calls size base' m' cs (base' + i))
      × (get (run_calls size base m cs) (base + i) ≡ address base (place_run size a cs i))
      × (get (run_calls size base' m' cs) (base' + i) ≡ address base' (place_run size a cs i))
run_calls-moved len size base base' m m' a cs small p e p' e' r r' h i l =
    let s = run_calls-Represents len base p e size small m a cs r h in
    let s' = run_calls-Represents len base' p' e' size small m' a cs r' h in
    let b = place_run size a cs in
    (
      (s i l).0 ∙ sym ((s' i l).0),
      get-Represents len base p e (run_calls size base m cs) b i s l,
      get-Represents len base' p' e' (run_calls size base' m' cs) b i s' l,
    )

-- Two addresses of a region compare as the places do.
compare_addresses :
    (base base' : ℕ) (u v : Option ℕ)
    → 0 < base
    → 0 < base'
    → ((address base u == address base v) ≡ (address base' u == address base' v))
      × (ltb (address base u) (address base v) ≡ ltb (address base' u) (address base' v))
compare_addresses base base' none none p p' = (refl, refl)
compare_addresses base base' none (some t) p p' = ground arith
compare_addresses base base' (some s) none p p' = ground arith
compare_addresses base base' (some s) (some t) p p' = ground arith

-- Two objects of a region compare the same way in every mapping of it.
pub compare-moved :
    (len base base' : ℕ) (m m' : Offsets) (a : Places) (i j : ℕ)
    → 0 < base
    → base + len ≤ word_mod
    → 0 < base'
    → base' + len ≤ word_mod
    → Represents len base m a
    → Represents len base' m' a
    → i < len
    → j < len
    → (eq m (base + i) (base + j) ≡ eq m' (base' + i) (base' + j))
      × (ne m (base + i) (base + j) ≡ ne m' (base' + i) (base' + j))
      × (lt m (base + i) (base + j) ≡ lt m' (base' + i) (base' + j))
      × (le m (base + i) (base + j) ≡ le m' (base' + i) (base' + j))
      × (gt m (base + i) (base + j) ≡ gt m' (base' + i) (base' + j))
      × (ge m (base + i) (base + j) ≡ ge m' (base' + i) (base' + j))
unfolding eq ne lt le gt ge
compare-moved len base base' m m' a i j p e p' e' r r' h k =
    let there = compare_addresses base base' (a i) (a j) p p' in
    let back = compare_addresses base base' (a j) (a i) p p' in
    rw
      (
        get-Represents len base p e m a i r h,
        get-Represents len base p e m a j r k,
        get-Represents len base' p' e' m' a i r' h,
        get-Represents len base' p' e' m' a j r' k,
        there.0,
        there.1,
        back.1,
      )
      (refl, refl, refl, refl, refl, refl)
