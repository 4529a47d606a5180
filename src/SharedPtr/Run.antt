-- ===== src/SharedPtr/Run.antt =====
-- Programs of shared and weak objects: their runs, and what an object sees after one.
use procshared_mem.Base.{
  ℕ, ◌+◌, ◌<◌, ◌≡◌, ◌≢◌, true, not, Option, none, some, ◌==◌, if◌then◌else◌, arith,
}
use procshared_mem.Base.Tally.{tally, tally-pos}
use procshared_mem.UniquePtr.{call_deleter}
use procshared_mem.SharedPtr.{
  Construction, Heap, null_handle, increment, decrement, settle, dispose_resource,
  call_destroy_deallocate, try_dispose_com, shrd, weak, lock, shared_of_weak, expired, use_count,
}
use procshared_mem.SharedPtr.Objects.{State}
use procshared_mem.SharedPtr.Counts.{Good, bound}
use procshared_mem.SharedPtr.Temporaries.{impls, Counted}
use procshared_mem.SharedPtr.Steps.{
  Fresh, Counted-move_assign, Counted-copy_assign, Counted-swap, Counted-reset, Counted-destroy,
  Counted-copy_construct, Counted-move_construct, Counted-from_weak, Counted-construct,
  Counted-reset_to,
}
use procshared_mem.SharedPtr.WeakSteps.{
  Counted-weak_move_assign, Counted-weak_copy_assign, Counted-assign_shared,
  Counted-weak_copy_construct, Counted-from_shared, Counted-weak_swap, Counted-weak_move_construct,
  Counted-weak_reset, Counted-weak_destroy, Counted-lock_into,
}
use procshared_mem.SharedPtr.Shared
use procshared_mem.SharedPtr.Weak

-- An operation on the first `n` objects of each kind. A constructor runs where no object is. An assignment
-- as one step is one that nobody comes between; where another process comes between its copy and the
-- destructor of its temporary, which lock two control blocks one after the other, it is a copy
-- construction of the temporary, a swap and a destruction (SharedPtr/Assign).
pub data Step (n : ℕ) : State → State → Type 0 where
  constructs :
      (st : State) (this : ℕ) (cb : Option ℕ) (ends : Construction) (p : ℕ)
      → this < n
      → (st.shared this).impl ≡ 0
      → Fresh st.heap cb
      → Step n st (Shared.construct st this cb ends p)
  copy_constructs :
      (st : State) (this orig : ℕ)
      → this < n
      → orig < n
      → (st.shared this).impl ≡ 0
      → Step n st (Shared.copy_construct st this orig)
  move_constructs :
      (st : State) (this orig : ℕ)
      → this < n
      → orig < n
      → (st.shared this).impl ≡ 0
      → Step n st (Shared.move_construct st this orig)
  from_weak :
      (st st' : State) (this w : ℕ)
      → this < n
      → w < n
      → (st.shared this).impl ≡ 0
      → Shared.from_weak st this w ≡ some st'
      → Step n st st'
  copy_assigns :
      (st : State) (this b : ℕ) → this < n → b < n → Step n st (Shared.copy_assign st this b)
  move_assigns :
      (st : State) (this b : ℕ) → this < n → b < n → Step n st (Shared.move_assign st this b)
  swaps : (st : State) (this b : ℕ) → this < n → b < n → Step n st (Shared.swap st this b)
  resets : (st : State) (this : ℕ) → this < n → Step n st (Shared.reset st this)
  resets_to :
      (st : State) (this : ℕ) (cb : Option ℕ) (ends : Construction) (p : ℕ)
      → this < n
      → Fresh st.heap cb
      → Step n st (Shared.reset_to st this cb ends p)
  destroys : (st : State) (this : ℕ) → this < n → Step n st (Shared.destroy st this)
  weak_copies :
      (st : State) (this r : ℕ)
      → this < n
      → r < n
      → (st.weaks this).impl ≡ 0
      → Step n st (Weak.copy_construct st this r)
  weak_of_shared :
      (st : State) (this r : ℕ)
      → this < n
      → r < n
      → (st.weaks this).impl ≡ 0
      → Step n st (Weak.from_shared st this r)
  weak_moves :
      (st : State) (this r : ℕ)
      → this < n
      → r < n
      → (st.weaks this).impl ≡ 0
      → Step n st (Weak.move_construct st this r)
  weak_copy_assigns :
      (st : State) (this r : ℕ) → this < n → r < n → Step n st (Weak.copy_assign st this r)
  weak_assigns_shared :
      (st : State) (this r : ℕ) → this < n → r < n → Step n st (Weak.assign_shared st this r)
  weak_move_assigns :
      (st : State) (this r : ℕ) → this < n → r < n → Step n st (Weak.move_assign st this r)
  weak_swaps : (st : State) (this r : ℕ) → this < n → r < n → Step n st (Weak.swap st this r)
  weak_resets : (st : State) (this : ℕ) → this < n → Step n st (Weak.reset st this)
  weak_destroys : (st : State) (this : ℕ) → this < n → Step n st (Weak.destroy st this)
  locks :
      (st : State) (this w : ℕ)
      → this < n
      → w < n
      → (st.shared this).impl ≡ 0
      → Step n st (Weak.lock_into st this w)

pub data Run (n : ℕ) : State → State → Type 0 where
  stay : (st : State) → Run n st st
  then_step : (st st' st'' : State) → Run n st st' → Step n st' st'' → Run n st st''

Counted-step :
    (n : ℕ) (st st' : State) → n + 1 < bound → Counted n st → Step n st st' → Counted n st'
Counted-step n _ _ m g (constructs st this cb ends p h e f) =
    Counted-construct n m st g this cb ends p h e f
Counted-step n _ _ m g (copy_constructs st this b h k e) =
    Counted-copy_construct n m st g this b h k e
Counted-step n _ _ m g (move_constructs st this b h k e) =
    Counted-move_construct n m st g this b h k e
Counted-step n _ _ m g (from_weak st st' this w h k e q) =
    Counted-from_weak n m st g this w st' h k e q
Counted-step n _ _ m g (copy_assigns st this b h k) = Counted-copy_assign n m st g this b h k
Counted-step n _ _ m g (move_assigns st this b h k) = Counted-move_assign n m st g this b h k
Counted-step n _ _ m g (swaps st this b h k) = Counted-swap n m st g this b h k
Counted-step n _ _ m g (resets st this h) = Counted-reset n m st g this h
Counted-step n _ _ m g (resets_to st this cb ends p h f) =
    Counted-reset_to n m st g this cb ends p h f
Counted-step n _ _ m g (destroys st this h) = Counted-destroy n m st g this h
Counted-step n _ _ m g (weak_copies st this r h k e) =
    Counted-weak_copy_construct n m st g this r h k e
Counted-step n _ _ m g (weak_of_shared st this r h k e) = Counted-from_shared n m st g this r h k e
Counted-step n _ _ m g (weak_moves st this r h k e) =
    Counted-weak_move_construct n m st g this r h k e
Counted-step n _ _ m g (weak_copy_assigns st this r h k) =
    Counted-weak_copy_assign n m st g this r h k
Counted-step n _ _ m g (weak_assigns_shared st this r h k) =
    Counted-assign_shared n m st g this r h k
Counted-step n _ _ m g (weak_move_assigns st this r h k) =
    Counted-weak_move_assign n m st g this r h k
Counted-step n _ _ m g (weak_swaps st this r h k) = Counted-weak_swap n m st g this r h k
Counted-step n _ _ m g (weak_resets st this h) = Counted-weak_reset n m st g this h
Counted-step n _ _ m g (weak_destroys st this h) = Counted-weak_destroy n m st g this h
Counted-step n _ _ m g (locks st this w h k e) = Counted-lock_into n m st g this w h k e

-- Through every run of operations on `n` shared and `n` weak objects, a control block stays
-- constructed exactly as long as an object points to it, and then its counts are the numbers of those
-- objects; its resource is disposed of when no shared object is left.
pub Counted-Run :
    (n : ℕ) (st st' : State) → n + 1 < bound → Counted n st → Run n st st' → Counted n st'
Counted-Run n st st' m g (stay _) = g
Counted-Run n st st' m g (then_step _ mid _ run s) =
    Counted-step n mid st' m (Counted-Run n st mid m g run) s

-- A shared object that goes calls the deleter on the resource exactly when it is the last one, and the
-- block goes with it exactly when no weak object is left either; a weak object that goes never calls it.
pub deleted-try_dispose_com :
    (h : Heap) (S W : ℕ → ℕ) (c : ℕ)
    → Good h S W
    → c ≢ 0
    → S c < bound
    → W c < bound
    → (0 < S c
        → let h' = try_dispose_com h c shrd in
          (h'.deleted
            ≡ (if S c == 1 then call_deleter h.deleted (h.ctrl c).op_to_obj else h.deleted))
          × ((h'.ctrl c).live ≡ (if S c == 1 then not (W c == 0) else true)))
      × (0 < W c
          → let h' = try_dispose_com h c weak in
            (h'.deleted ≡ h.deleted)
            × ((h'.ctrl c).live ≡ (if S c == 0 then not (W c == 1) else true)))
unfolding try_dispose_com decrement settle dispose_resource call_destroy_deallocate call_deleter
deleted-try_dispose_com h S W c good hc hs hw = (
  λ p. (ground (arith, good c hc, p), ground (arith, good c hc, p)),
  λ p. (ground (arith, good c hc, p), ground (arith, good c hc, p)),
)

shrd_refc-tally :
    (n : ℕ) (st : State) (w : ℕ)
    → Counted n st
    → w < n
    → (st.weaks w).impl ≢ 0
    → (st.heap.ctrl (st.weaks w).impl).shrd_refc ≡ tally (impls st.shared) n (st.weaks w).impl
shrd_refc-tally n st w good h ne =
    ground (arith, good (st.weaks w).impl ne, tally-pos (impls st.weaks) n w h)

-- A weak object is expired exactly when no shared object of its block is left; then `lock` answers a
-- null object and a shared object made of it throws `std::bad_weak_ptr`, and otherwise both answer an
-- object of the same block and resource and count it.
pub expired-lock :
    (n : ℕ) (st : State) (w : ℕ)
    → Counted n st
    → w < n
    → let a = st.weaks w in
      let gone = if a.impl == 0 then true else tally (impls st.shared) n a.impl == 0 in
      (expired st.heap a ≡ gone)
      × (lock st.heap a
          ≡ (if gone then (st.heap, null_handle) else (increment st.heap a.impl shrd, a)))
      × (shared_of_weak st.heap a
          ≡ (if gone then none else some (increment st.heap a.impl shrd, a)))
unfolding expired use_count lock shared_of_weak
expired-lock n st w good h = (
  ground (arith, shrd_refc-tally n st w good h),
  ground (arith, shrd_refc-tally n st w good h),
  ground (arith, shrd_refc-tally n st w good h),
)
