-- ===== src/Typed/Loops.antt =====
-- The loops over the elements of an array: what the constructors have made, the destructors undo.
use procshared_mem.Base.{
  ℕ, zero, suc, ◌<◌, ◌≡◌, ◌≢◌, refl, sym, ap, ◌∙◌, subst, inl, inr, Bool, true, false, none, some,
  ◌==◌, Bool-cases, Option-cases, arith,
}
use procshared_mem.Base.Tally.{update}
use procshared_mem.Typed.{Layout, element, construct_elements, destroy_down, destroy_up}

module _ (t : Layout) (top : ℕ) where
  -- Whether an object is alive after the loops depends on what stood at its address only.
  destroy_up-same :
      (n : ℕ) (x y : ℕ → Bool) (a : ℕ) → x a ≡ y a → destroy_up t top n x a ≡ destroy_up t top n y a
  unfolding destroy_up
  destroy_up-same zero x y a e = e
  destroy_up-same (suc n) x y a e = let r = destroy_up-same n x y a e in ground (arith, r)

  destroy_down-destroy_up :
      (n : ℕ) (x : ℕ → Bool) (a : ℕ) → destroy_down t top n x a ≡ destroy_up t top n x a
  unfolding destroy_up destroy_down
  destroy_down-destroy_up zero x a = refl
  destroy_down-destroy_up (suc n) x a =
      let y = update x (element t top n) false in
      elim (Bool-cases (a == element t top n)) [
        | inl e ↦ destroy_down-destroy_up n y a ∙ gone n y a (rw e refl) ∙ sym (rw e refl)
        | inr e ↦
            destroy_down-destroy_up n y a ∙ destroy_up-same n y x a (rw e refl) ∙ sym (rw e refl)
      ]
    where
      gone : (n : ℕ) (y : ℕ → Bool) (a : ℕ) → y a ≡ false → destroy_up t top n y a ≡ false
      gone zero y a e = e
      gone (suc n) y a e = let r = gone n y a e in ground (arith, r)

  step_lem :
      (throws : ℕ → Bool) (n : ℕ) (alive : ℕ → Bool)
      → (construct_elements t top throws n alive).1 ≡ none
      → throws n ≡ false
      → (construct_elements t top throws (suc n) alive).0
        ≡ update (construct_elements t top throws n alive).0 (element t top n) true
  unfolding construct_elements
  step_lem throws n alive f g = rw (construct_elements, f, g) refl

  last_constructed :
      (throws : ℕ → Bool) (n : ℕ) (alive : ℕ → Bool)
      → (construct_elements t top throws (suc n) alive).1 ≡ none
      → ((construct_elements t top throws n alive).1 ≡ none)
        × ((construct_elements t top throws (suc n) alive).0
            ≡ update (construct_elements t top throws n alive).0 (element t top n) true)
  unfolding construct_elements
  last_constructed throws n alive e =
      elim (Option-cases (construct_elements t top throws n alive).1) [
        | inr (j, f) ↦ absurd (ground (arith, e, f))
        | inl f ↦ elim (Bool-cases (throws n)) [
          | inl g ↦ absurd (ground (arith, e, f, g))
          | inr g ↦ (f, step_lem throws n alive f g)
        ]
      ]

  -- The elements that were constructed, where nothing stood before, and are destroyed again.
  pub all_constructed :
      (throws : ℕ → Bool) (n : ℕ) (alive : ℕ → Bool) (a : ℕ)
      → ((i : ℕ) → i < n → alive (element t top i) ≡ false)
      → (construct_elements t top throws n alive).1 ≡ none
      → destroy_up t top n (construct_elements t top throws n alive).0 a ≡ alive a
  unfolding destroy_up construct_elements
  all_constructed throws zero alive a free e = refl
  all_constructed throws (suc n) alive a free e =
      let k = last_constructed throws n alive e in
      let r = construct_elements t top throws n alive in
      let rest = all_constructed throws n alive a (λ i l. free i (omega (arith, l))) k.0 in
      elim (Bool-cases (a == element t top n)) [
        | inl q ↦
            let at : a ≡ element t top n = ground (arith, q) in
            rw q (sym (ap alive at ∙ free n (omega arith)))
        | inr q ↦
            let same : (construct_elements t top throws (suc n) alive).0 a ≡ r.0 a =
              ap (λ x. x a) k.1 ∙ rw q refl in
            rw q (
              destroy_up-same n (construct_elements t top throws (suc n) alive).0 r.0 a same ∙ rest)
      ]

  -- The loop up to the element whose constructor throws.
  stopped :
      (throws : ℕ → Bool) (n i : ℕ) (alive : ℕ → Bool)
      → (construct_elements t top throws n alive).1 ≡ some i
      → (i < n)
        × ((construct_elements t top throws i alive).1 ≡ none)
        × ((construct_elements t top throws n alive).0
            ≡ (construct_elements t top throws i alive).0)
  unfolding construct_elements
  stopped throws zero i alive e = absurd (ground (arith, e))
  stopped throws (suc n) i alive e =
      elim (Option-cases (construct_elements t top throws n alive).1) [
        | inr (j, f) ↦
            let same : j ≡ i = ground (arith, e, f) in
            let r = stopped throws n i alive (f ∙ ap some same) in
            (omega (arith, r.0), r.1, rw (construct_elements, f) refl ∙ r.2)
        | inl f ↦ elim (Bool-cases (throws n)) [
          | inl g ↦
              let here : n ≡ i = ground (arith, e, f, g) in
              subst
                (λ k.
                  (k < suc n)
                  × ((construct_elements t top throws k alive).1 ≡ none)
                  × ((construct_elements t top throws (suc n) alive).0
                      ≡ (construct_elements t top throws k alive).0))
                here (omega arith, f, rw (construct_elements, f, g) refl)
          | inr g ↦ absurd (ground (arith, e, f, g))
        ]
      ]

  -- The same for those before the one whose constructor throws.
  pub some_constructed :
      (throws : ℕ → Bool) (n i : ℕ) (alive : ℕ → Bool) (a : ℕ)
      → ((j : ℕ) → j < n → alive (element t top j) ≡ false)
      → (construct_elements t top throws n alive).1 ≡ some i
      → destroy_down t top i (construct_elements t top throws n alive).0 a ≡ alive a
  some_constructed throws n i alive a free e =
      let r = stopped throws n i alive e in
      destroy_down-destroy_up i (construct_elements t top throws n alive).0 a
      ∙ ap (λ x. destroy_up t top i x a) r.2
      ∙ all_constructed throws i alive a (λ j l. free j (omega (arith, l, r.0))) r.1

  pub none_throws :
      (throws : ℕ → Bool) (n : ℕ) (alive : ℕ → Bool)
      → ((i : ℕ) → i < n → throws i ≡ false)
      → (construct_elements t top throws n alive).1 ≡ none
  unfolding construct_elements
  none_throws throws zero alive ok = refl
  none_throws throws (suc n) alive ok =
      let r = none_throws throws n alive (λ i l. ok i (omega (arith, l))) in
      ground (arith, r, ok n (omega arith))

  pub one_throws :
      (throws : ℕ → Bool) (n i : ℕ) (alive : ℕ → Bool)
      → i < n
      → throws i ≡ true
      → (j : ℕ) × ((construct_elements t top throws n alive).1 ≡ some j)
  unfolding construct_elements
  one_throws throws zero i alive l g = absurd (omega (arith, l))
  one_throws throws (suc n) i alive l g =
      elim (Option-cases (construct_elements t top throws n alive).1) [
        | inr (j, f) ↦ (j, ground (arith, f))
        | inl f ↦ elim (Bool-cases (i == n)) [
          | inl e ↦
              let at : throws n ≡ true = ap throws (ground (arith, e)) ∙ g in
              (n, ground (arith, f, at))
          | inr e ↦
              let r = one_throws throws n i alive (omega (arith, l, e, is_other i n e)) g in
              absurd (ground (arith, f, r.1))
        ]
      ]
    where
      is_other : (i n : ℕ) → (i == n) ≡ false → i ≢ n
      is_other i n e = ground (arith, e)
