-- ===== src/SharedPtr/Steps.antt =====
-- Every operation of the objects keeps all control blocks counted.
use procshared_mem.Base.{
  ℕ, ◌+◌, ◌<◌, ◌≡◌, ◌≢◌, refl, sym, subst, inl, inr, false, Option, none, some, ◌==◌, Bool-cases,
  arith,
}
use procshared_mem.Base.Tally.{update, one, tally}
use procshared_mem.SharedPtr.{
  Heap, null_handle, construct_ctrl, increment, shrd, copy_shared, shared_of_weak, make_shared,
  Construction, constructed, threw_early, threw_late,
}
use procshared_mem.SharedPtr.Objects.{State, put_shared}
use procshared_mem.SharedPtr.Counts.{bound, Good-construct_ctrl}
use procshared_mem.SharedPtr.Temporaries.{
  impls, Counted, tally-impls, Good-same, Counted-put_shared, Good-copy_shared, Good-none_added,
  Good-one_added, Counted-new_shared, Good-taken_shared,
}
use procshared_mem.SharedPtr.Shared

-- What the allocator of control blocks answers is free memory.
abbrev pub Fresh : Heap → Option ℕ → Type 0
Fresh h cb = (c : ℕ) → cb ≡ some c → (c ≢ 0) × ((h.ctrl c).live ≡ false)

module _ (n : ℕ) (small : n + 1 < bound) (st : State) (good : Counted n st) where
  move_assign-taken :
      (this orig : ℕ)
      → (this == orig) ≡ false
      → ((st.shared this).impl == (st.shared orig).impl) ≡ false
      → ((st.shared orig).impl == 0) ≡ false
      → Shared.move_assign st this orig
        ≡ put_shared
            (record st { shared = update st.shared orig null_handle })
            this
            (st.heap, st.shared orig)
  unfolding Shared.move_assign
  move_assign-taken this orig e e' z = rw e (rw e' (rw z refl))

  pub Counted-move_assign :
      (this orig : ℕ) → this < n → orig < n → Counted n (Shared.move_assign st this orig)
  unfolding Shared.move_assign
  Counted-move_assign this orig h k = elim (Bool-cases (this == orig)) [
    | inl e ↦ rw e good
    | inr e ↦ elim (Bool-cases ((st.shared this).impl == (st.shared orig).impl)) [
      | inl e' ↦ rw e (rw e' good)
      | inr e' ↦ elim (Bool-cases ((st.shared orig).impl == 0)) [
        | inl z ↦ rw e (
            rw e' (
              rw z (
                Counted-put_shared n small st this st.heap null_handle h
                  (Good-none_added n small st good))))
        | inr z ↦ subst (Counted n) (sym (move_assign-taken this orig e e' z)) (
            Counted-put_shared n small (record st { shared = update st.shared orig null_handle })
              this st.heap (st.shared orig) h (Good-taken_shared n small st orig k good))
      ]
    ]
  ]

  pub Counted-copy_assign :
      (this orig : ℕ) → this < n → orig < n → Counted n (Shared.copy_assign st this orig)
  unfolding Shared.copy_assign
  Counted-copy_assign this orig h k = elim (Bool-cases (this == orig)) [
    | inl e ↦ rw e good
    | inr e ↦ elim (Bool-cases ((st.shared this).impl == (st.shared orig).impl)) [
      | inl e' ↦ rw e (rw e' good)
      | inr e' ↦
          let r = copy_shared st.heap (st.shared orig) in
          rw e (
            rw e' (
              Counted-put_shared n small st this r.0 r.1 h
                (Good-copy_shared n small st orig k good)))
    ]
  ]

  pub Counted-swap : (this b : ℕ) → this < n → b < n → Counted n (Shared.swap st this b)
  unfolding Shared.swap
  Counted-swap this b h k = elim (Bool-cases (this == b)) [
    | inl e ↦ rw e good
    | inr e ↦ rw e (
        Good-same st.heap (tally (impls st.shared) n)
          (tally (impls (update (update st.shared this (st.shared b)) b (st.shared this))) n)
          (tally (impls st.weaks) n) (tally (impls st.weaks) n) good
          (λ c hc. ground (
            arith,
            tally-impls st.shared n this c (st.shared b) h,
            tally-impls (update st.shared this (st.shared b)) n b c (st.shared this) k,
          ))
          (λ c hc. refl))
  ]

  pub Counted-reset : (this : ℕ) → this < n → Counted n (Shared.reset st this)
  unfolding Shared.reset
  Counted-reset this h =
      Counted-put_shared n small st this st.heap null_handle h (Good-none_added n small st good)

  pub Counted-destroy : (this : ℕ) → this < n → Counted n (Shared.destroy st this)
  unfolding Shared.destroy
  Counted-destroy this h =
      Counted-put_shared n small st this st.heap null_handle h (Good-none_added n small st good)

  pub Counted-copy_construct :
      (this orig : ℕ)
      → this < n
      → orig < n
      → (st.shared this).impl ≡ 0
      → Counted n (Shared.copy_construct st this orig)
  unfolding Shared.copy_construct
  Counted-copy_construct this orig h k e =
      let r = copy_shared st.heap (st.shared orig) in
      Counted-new_shared n small st this r.0 r.1 h e (Good-copy_shared n small st orig k good)

  pub Counted-move_construct :
      (this orig : ℕ)
      → this < n
      → orig < n
      → (st.shared this).impl ≡ 0
      → Counted n (Shared.move_construct st this orig)
  unfolding Shared.move_construct
  Counted-move_construct this orig h k e = elim (Bool-cases ((st.shared orig).impl == 0)) [
    | inl z ↦ rw z (
        Counted-new_shared n small st this st.heap null_handle h e
          (Good-none_added n small st good))
    | inr z ↦ rw z (
        Good-same st.heap (tally (impls st.shared) n)
          (tally (impls (update (update st.shared this (st.shared orig)) orig null_handle)) n)
          (tally (impls st.weaks) n) (tally (impls st.weaks) n) good
          (λ c hc. ground (
            arith,
            tally-impls st.shared n this c (st.shared orig) h,
            tally-impls (update st.shared this (st.shared orig)) n orig c null_handle k,
            e,
          ))
          (λ c hc. refl))
  ]

  from_weak-some :
      (this w : ℕ) (st' : State)
      → Shared.from_weak st this w ≡ some st'
      → ((st.weaks w).impl ≢ 0)
        × ((st.heap.ctrl (st.weaks w).impl).shrd_refc ≢ 0)
        × (st' ≡ record st {
          heap = increment st.heap (st.weaks w).impl shrd;
          shared = update st.shared this (st.weaks w);
        })
  unfolding Shared.from_weak shared_of_weak
  from_weak-some this w st' q = (ground (arith, q), ground (arith, q), ground (arith, q))

  pub Counted-from_weak :
      (this w : ℕ) (st' : State)
      → this < n
      → w < n
      → (st.shared this).impl ≡ 0
      → Shared.from_weak st this w ≡ some st'
      → Counted n st'
  unfolding Shared.from_weak shared_of_weak
  Counted-from_weak this w st' h k e q =
      let r = from_weak-some this w st' q in
      subst (Counted n) (sym r.2) (
        Counted-new_shared n small st this (increment st.heap (st.weaks w).impl shrd) (st.weaks w) h
          e (Good-one_added n small st w k good r.0 r.1))

  pub Counted-construct :
      (this : ℕ) (cb : Option ℕ) (ends : Construction) (p : ℕ)
      → this < n
      → (st.shared this).impl ≡ 0
      → Fresh st.heap cb
      → Counted n (Shared.construct st this cb ends p)
  unfolding Shared.construct make_shared
  Counted-construct this none ends p h e fresh = good
  Counted-construct this (some c) threw_early p h e fresh = good
  Counted-construct this (some c) threw_late p h e fresh = good
  Counted-construct this (some c) constructed p h e fresh =
      Counted-new_shared n small st this (increment (construct_ctrl st.heap c p) c shrd)
        (record { impl = c; ptr = p }) h e
        (Good-construct_ctrl st.heap (tally (impls st.shared) n)
          (λ b. tally (impls st.shared) n b + one c b) (tally (impls st.weaks) n) c p good
          (fresh c refl).0 (fresh c refl).1 (λ b. refl))

  pub Counted-reset_to :
      (this : ℕ) (cb : Option ℕ) (ends : Construction) (p : ℕ)
      → this < n
      → Fresh st.heap cb
      → Counted n (Shared.reset_to st this cb ends p)
  unfolding Shared.reset_to make_shared
  Counted-reset_to this none ends p h fresh = good
  Counted-reset_to this (some c) threw_early p h fresh = good
  Counted-reset_to this (some c) threw_late p h fresh = good
  Counted-reset_to this (some c) constructed p h fresh =
      Counted-put_shared n small st this (increment (construct_ctrl st.heap c p) c shrd)
        (record { impl = c; ptr = p }) h
        (Good-construct_ctrl st.heap (tally (impls st.shared) n)
          (λ b. tally (impls st.shared) n b + one c b) (tally (impls st.weaks) n) c p good
          (fresh c refl).0 (fresh c refl).1 (λ b. refl))
