-- ===== src/SharedPtr/Turns.antt =====
-- What each operation of the objects does to the control blocks.
use procshared_mem.Base.{
  ℕ, ◌≡◌, ◌≢◌, refl, sym, subst, Bool, true, false, Option, none, some, ◌==◌, if◌then◌else◌, inl,
  inr, Bool-cases, arith,
}
use procshared_mem.Base.Tally.{update}
use procshared_mem.SharedPtr.{
  Heap, Handle, null_handle, shrd, weak, increment, copy_shared, copy_weak, lock, shared_of_weak,
  make_shared, Construction, constructed, threw_early, threw_late,
}
use procshared_mem.SharedPtr.Objects.{State, put_shared, put_weak}
use procshared_mem.SharedPtr.Resource.{
  Touch, leaves, counts, builds, refuses, refuses_twice, Turn, touched, dropped,
}
use procshared_mem.SharedPtr.Shared
use procshared_mem.SharedPtr.Weak

-- A new block is made where no resource is.
abbrev pub Vacant : Heap → Option ℕ → Type 0
Vacant h cb = (c : ℕ) → cb ≡ some c → (h.ctrl c).op_to_obj ≡ 0

module _ (p : ℕ) where
  Turn-if :
      (b : Bool) (h : Heap) (x y : State)
      → Turn p h x.heap
      → Turn p h y.heap
      → Turn p h (if b then x else y).heap
  Turn-if true h x y s t = s
  Turn-if false h x y s t = t

  Touch-copy_shared : (h : Heap) (a : Handle) → Touch p h (copy_shared h a).0
  unfolding copy_shared
  Touch-copy_shared h a = elim (Bool-cases (a.impl == 0)) [
    | inl e ↦ rw e (leaves h)
    | inr e ↦ rw e (counts h a.impl shrd)
  ]

  Touch-copy_weak : (h : Heap) (a : Handle) → Touch p h (copy_weak h a).0
  unfolding copy_weak
  Touch-copy_weak h a = elim (Bool-cases (a.impl == 0)) [
    | inl e ↦ rw e (leaves h)
    | inr e ↦ rw e (counts h a.impl weak)
  ]

  Touch-lock : (h : Heap) (a : Handle) → Touch p h (lock h a).0
  unfolding lock
  Touch-lock h a = elim (Bool-cases (a.impl == 0)) [
    | inl e ↦ rw e (leaves h)
    | inr e ↦ elim (Bool-cases ((h.ctrl a.impl).shrd_refc == 0)) [
      | inl z ↦ rw (e, z) (leaves h)
      | inr z ↦ rw (e, z) (counts h a.impl shrd)
    ]
  ]

  module _ (st : State) where
    pub Turn-construct :
        (this : ℕ) (cb : Option ℕ) (ends : Construction) (q : ℕ)
        → q ≢ p
        → Vacant st.heap cb
        → Turn p st.heap (Shared.construct st this cb ends q).heap
    unfolding Shared.construct make_shared
    Turn-construct this none ends q ne v = touched (refuses st.heap q ne)
    Turn-construct this (some c) constructed q ne v = touched (builds st.heap c q ne (v c refl))
    Turn-construct this (some c) threw_early q ne v = touched (refuses st.heap q ne)
    Turn-construct this (some c) threw_late q ne v = touched (refuses_twice st.heap q ne)

    pub Turn-reset_to :
        (this : ℕ) (cb : Option ℕ) (ends : Construction) (q : ℕ)
        → q ≢ p
        → Vacant st.heap cb
        → Turn p st.heap (Shared.reset_to st this cb ends q).heap
    unfolding Shared.reset_to make_shared
    Turn-reset_to this none ends q ne v = touched (refuses st.heap q ne)
    Turn-reset_to this (some c) constructed q ne v =
        dropped (st.shared this).impl shrd (builds st.heap c q ne (v c refl))
    Turn-reset_to this (some c) threw_early q ne v = touched (refuses st.heap q ne)
    Turn-reset_to this (some c) threw_late q ne v = touched (refuses_twice st.heap q ne)

    pub Turn-copy_construct :
        (this orig : ℕ) → Turn p st.heap (Shared.copy_construct st this orig).heap
    unfolding Shared.copy_construct
    Turn-copy_construct this orig = touched (Touch-copy_shared st.heap (st.shared orig))

    pub Turn-move_construct :
        (this orig : ℕ) → Turn p st.heap (Shared.move_construct st this orig).heap
    unfolding Shared.move_construct
    Turn-move_construct this orig =
        Turn-if ((st.shared orig).impl == 0) st.heap
          (record st { shared = update st.shared this null_handle })
          (record st { shared = update (update st.shared this (st.shared orig)) orig null_handle })
          (touched (leaves st.heap)) (touched (leaves st.heap))

    pub Turn-copy_assign : (this orig : ℕ) → Turn p st.heap (Shared.copy_assign st this orig).heap
    unfolding Shared.copy_assign
    Turn-copy_assign this orig =
        let put = put_shared st this (copy_shared st.heap (st.shared orig)) in
        let same = (st.shared this).impl == (st.shared orig).impl in
        Turn-if (this == orig) st.heap st (if same then st else put) (touched (leaves st.heap)) (
          Turn-if same st.heap st put (touched (leaves st.heap))
            (dropped (st.shared this).impl shrd (Touch-copy_shared st.heap (st.shared orig))))

    pub Turn-move_assign : (this orig : ℕ) → Turn p st.heap (Shared.move_assign st this orig).heap
    unfolding Shared.move_assign
    Turn-move_assign this orig =
        let drop = put_shared st this (st.heap, null_handle) in
        let put =
          put_shared (record st { shared = update st.shared orig null_handle }) this
            (st.heap, st.shared orig) in
        let same = (st.shared this).impl == (st.shared orig).impl in
        let empty = (st.shared orig).impl == 0 in
        let here : Turn p st.heap st.heap = touched (leaves st.heap) in
        Turn-if (this == orig) st.heap st (if same then st else if empty then drop else put) here (
          Turn-if same st.heap st (if empty then drop else put) here (
            Turn-if empty st.heap drop put (dropped (st.shared this).impl shrd (leaves st.heap))
              (dropped (update st.shared orig null_handle this).impl shrd (leaves st.heap))))

    pub Turn-swap : (this b : ℕ) → Turn p st.heap (Shared.swap st this b).heap
    unfolding Shared.swap
    Turn-swap this b =
        Turn-if (this == b) st.heap st
          (record st { shared = update (update st.shared this (st.shared b)) b (st.shared this) })
          (touched (leaves st.heap)) (touched (leaves st.heap))

    pub Turn-reset : (this : ℕ) → Turn p st.heap (Shared.reset st this).heap
    unfolding Shared.reset
    Turn-reset this = dropped (st.shared this).impl shrd (leaves st.heap)

    pub Turn-destroy : (this : ℕ) → Turn p st.heap (Shared.destroy st this).heap
    unfolding Shared.destroy
    Turn-destroy this = dropped (st.shared this).impl shrd (leaves st.heap)

    made_of_weak :
        (this w : ℕ) (st' : State)
        → Shared.from_weak st this w ≡ some st'
        → st' ≡ record st {
          heap = increment st.heap (st.weaks w).impl shrd;
          shared = update st.shared this (st.weaks w);
        }
    unfolding Shared.from_weak shared_of_weak
    made_of_weak this w st' q = ground (arith, q)

    pub Turn-from_weak :
        (this w : ℕ) (st' : State) → Shared.from_weak st this w ≡ some st' → Turn p st.heap st'.heap
    Turn-from_weak this w st' q =
        subst (λ s. Turn p st.heap s.heap) (sym (made_of_weak this w st' q))
          (touched (counts st.heap (st.weaks w).impl shrd))

    pub Turn-weak_copy_construct :
        (this r : ℕ) → Turn p st.heap (Weak.copy_construct st this r).heap
    unfolding Weak.copy_construct
    Turn-weak_copy_construct this r = touched (Touch-copy_weak st.heap (st.weaks r))

    pub Turn-from_shared : (this r : ℕ) → Turn p st.heap (Weak.from_shared st this r).heap
    unfolding Weak.from_shared
    Turn-from_shared this r = touched (Touch-copy_weak st.heap (st.shared r))

    pub Turn-weak_move_construct :
        (this r : ℕ) → Turn p st.heap (Weak.move_construct st this r).heap
    unfolding Weak.move_construct
    Turn-weak_move_construct this r = touched (leaves st.heap)

    pub Turn-weak_copy_assign : (this r : ℕ) → Turn p st.heap (Weak.copy_assign st this r).heap
    unfolding Weak.copy_assign
    Turn-weak_copy_assign this r =
        let put = put_weak st this (copy_weak st.heap (st.weaks r)) in
        let same = (st.weaks this).impl == (st.weaks r).impl in
        Turn-if (this == r) st.heap st (if same then st else put) (touched (leaves st.heap)) (
          Turn-if same st.heap st put (touched (leaves st.heap))
            (dropped (st.weaks this).impl weak (Touch-copy_weak st.heap (st.weaks r))))

    pub Turn-assign_shared : (this r : ℕ) → Turn p st.heap (Weak.assign_shared st this r).heap
    unfolding Weak.assign_shared
    Turn-assign_shared this r =
        dropped (st.weaks this).impl weak (Touch-copy_weak st.heap (st.shared r))

    pub Turn-weak_move_assign : (this r : ℕ) → Turn p st.heap (Weak.move_assign st this r).heap
    unfolding Weak.move_assign
    Turn-weak_move_assign this r =
        let put =
          put_weak (record st { weaks = update st.weaks r null_handle }) this
            (st.heap, st.weaks r) in
        let same = (st.weaks this).impl == (st.weaks r).impl in
        Turn-if (this == r) st.heap st (if same then st else put) (touched (leaves st.heap)) (
          Turn-if same st.heap st put (touched (leaves st.heap))
            (dropped (update st.weaks r null_handle this).impl weak (leaves st.heap)))

    pub Turn-weak_swap : (this r : ℕ) → Turn p st.heap (Weak.swap st this r).heap
    unfolding Weak.swap
    Turn-weak_swap this r =
        Turn-if (this == r) st.heap st
          (record st { weaks = update (update st.weaks this (st.weaks r)) r (st.weaks this) })
          (touched (leaves st.heap)) (touched (leaves st.heap))

    pub Turn-weak_reset : (this : ℕ) → Turn p st.heap (Weak.reset st this).heap
    unfolding Weak.reset
    Turn-weak_reset this = dropped (st.weaks this).impl weak (leaves st.heap)

    pub Turn-weak_destroy : (this : ℕ) → Turn p st.heap (Weak.destroy st this).heap
    unfolding Weak.destroy
    Turn-weak_destroy this = dropped (st.weaks this).impl weak (leaves st.heap)

    pub Turn-lock_into : (this w : ℕ) → Turn p st.heap (Weak.lock_into st this w).heap
    unfolding Weak.lock_into
    Turn-lock_into this w = touched (Touch-lock st.heap (st.weaks w))
