-- ===== src/SharedPtr/WeakSteps.antt =====
-- Every operation of the weak objects keeps all control blocks counted.
use procshared_mem.Base.{
  ℕ, ◌+◌, ◌<◌, ◌≡◌, refl, sym, subst, inl, inr, false, ◌==◌, Bool-cases, arith,
}
use procshared_mem.Base.Tally.{update, one, tally, tally-pos}
use procshared_mem.SharedPtr.{Handle, null_handle, copy_weak, lock}
use procshared_mem.SharedPtr.Objects.{State, put_weak}
use procshared_mem.SharedPtr.Counts.{Good, bound}
use procshared_mem.SharedPtr.Temporaries.{
  impls, Counted, tally-impls, Good-same, Counted-put_weak, Good-copy_weak, Good-lock,
  Counted-new_shared, Counted-new_weak, Good-taken_weak,
}
use procshared_mem.SharedPtr.Weak

module _ (n : ℕ) (small : n + 1 < bound) (st : State) (good : Counted n st) where
  Weak_taken :
      (this r : ℕ)
      → (this == r) ≡ false
      → ((st.weaks this).impl == (st.weaks r).impl) ≡ false
      → Weak.move_assign st this r
        ≡ put_weak (record st { weaks = update st.weaks r null_handle }) this (st.heap, st.weaks r)
  unfolding Weak.move_assign
  Weak_taken this r e e' = rw e (rw e' refl)

  pub Counted-weak_move_assign :
      (this r : ℕ) → this < n → r < n → Counted n (Weak.move_assign st this r)
  unfolding Weak.move_assign
  Counted-weak_move_assign this r h k = elim (Bool-cases (this == r)) [
    | inl e ↦ rw e good
    | inr e ↦ elim (Bool-cases ((st.weaks this).impl == (st.weaks r).impl)) [
      | inl e' ↦ rw e (rw e' good)
      | inr e' ↦ subst (Counted n) (sym (Weak_taken this r e e')) (
          Counted-put_weak n small (record st { weaks = update st.weaks r null_handle }) this
            st.heap (st.weaks r) h (Good-taken_weak n small st r k good))
    ]
  ]

  pub Counted-weak_copy_assign :
      (this r : ℕ) → this < n → r < n → Counted n (Weak.copy_assign st this r)
  unfolding Weak.copy_assign
  Counted-weak_copy_assign this r h k = elim (Bool-cases (this == r)) [
    | inl e ↦ rw e good
    | inr e ↦ elim (Bool-cases ((st.weaks this).impl == (st.weaks r).impl)) [
      | inl e' ↦ rw e (rw e' good)
      | inr e' ↦
          let t = copy_weak st.heap (st.weaks r) in
          rw e (
            rw e' (
              Counted-put_weak n small st this t.0 t.1 h (
                Good-copy_weak n small st (st.weaks r)
                  (λ z. omega (arith, tally-pos (impls st.weaks) n r k)) good)))
    ]
  ]

  pub Counted-assign_shared :
      (this r : ℕ) → this < n → r < n → Counted n (Weak.assign_shared st this r)
  unfolding Weak.assign_shared
  Counted-assign_shared this r h k =
      let t = copy_weak st.heap (st.shared r) in
      Counted-put_weak n small st this t.0 t.1 h (
        Good-copy_weak n small st (st.shared r)
          (λ z. omega (arith, tally-pos (impls st.shared) n r k)) good)

  pub Counted-weak_copy_construct :
      (this r : ℕ)
      → this < n
      → r < n
      → (st.weaks this).impl ≡ 0
      → Counted n (Weak.copy_construct st this r)
  unfolding Weak.copy_construct
  Counted-weak_copy_construct this r h k e =
      let t = copy_weak st.heap (st.weaks r) in
      Counted-new_weak n small st this t.0 t.1 h e (
        Good-copy_weak n small st (st.weaks r)
          (λ z. omega (arith, tally-pos (impls st.weaks) n r k)) good)

  pub Counted-from_shared :
      (this r : ℕ)
      → this < n
      → r < n
      → (st.weaks this).impl ≡ 0
      → Counted n (Weak.from_shared st this r)
  unfolding Weak.from_shared
  Counted-from_shared this r h k e =
      let t = copy_weak st.heap (st.shared r) in
      Counted-new_weak n small st this t.0 t.1 h e (
        Good-copy_weak n small st (st.shared r)
          (λ z. omega (arith, tally-pos (impls st.shared) n r k)) good)

  -- A swap, and a move construction of an object that was null, only move handles about.
  moved_about :
      (this r : ℕ) (x : Handle)
      → this < n
      → r < n
      → x.impl ≡ (st.weaks this).impl
      → Counted n (record st { weaks = update (update st.weaks this (st.weaks r)) r x })
  moved_about this r x h k e =
      Good-same st.heap (tally (impls st.shared) n) (tally (impls st.shared) n)
        (tally (impls st.weaks) n)
        (tally (impls (update (update st.weaks this (st.weaks r)) r x)) n) good (λ c hc. refl)
        (λ c hc. ground (
          arith,
          tally-impls st.weaks n this c (st.weaks r) h,
          tally-impls (update st.weaks this (st.weaks r)) n r c x k,
          e,
        ))

  swapped :
      (this r : ℕ)
      → (this == r) ≡ false
      → Weak.swap st this r
        ≡ record st { weaks = update (update st.weaks this (st.weaks r)) r (st.weaks this) }
  unfolding Weak.swap
  swapped this r e = rw e refl

  none_added : Good st.heap (tally (impls st.shared) n) (λ b. tally (impls st.weaks) n b + one 0 b)
  none_added =
      Good-same st.heap (tally (impls st.shared) n) (tally (impls st.shared) n)
        (tally (impls st.weaks) n) (λ b. tally (impls st.weaks) n b + one 0 b) good (λ b hb. refl)
        (λ b hb. ground arith)

  pub Counted-weak_swap : (this r : ℕ) → this < n → r < n → Counted n (Weak.swap st this r)
  unfolding Weak.swap
  Counted-weak_swap this r h k = elim (Bool-cases (this == r)) [
    | inl e ↦ rw e good
    | inr e ↦
        subst (Counted n) (sym (swapped this r e)) (moved_about this r (st.weaks this) h k refl)
  ]

  pub Counted-weak_move_construct :
      (this r : ℕ)
      → this < n
      → r < n
      → (st.weaks this).impl ≡ 0
      → Counted n (Weak.move_construct st this r)
  unfolding Weak.move_construct
  Counted-weak_move_construct this r h k e = moved_about this r null_handle h k (sym e)

  pub Counted-weak_reset : (this : ℕ) → this < n → Counted n (Weak.reset st this)
  unfolding Weak.reset
  Counted-weak_reset this h = Counted-put_weak n small st this st.heap null_handle h none_added

  pub Counted-weak_destroy : (this : ℕ) → this < n → Counted n (Weak.destroy st this)
  unfolding Weak.destroy
  Counted-weak_destroy this h = Counted-put_weak n small st this st.heap null_handle h none_added

  pub Counted-lock_into :
      (this w : ℕ)
      → this < n
      → w < n
      → (st.shared this).impl ≡ 0
      → Counted n (Weak.lock_into st this w)
  unfolding Weak.lock_into
  Counted-lock_into this w h k e =
      let r = lock st.heap (st.weaks w) in
      Counted-new_shared n small st this r.0 r.1 h e (Good-lock n small st w k good)
