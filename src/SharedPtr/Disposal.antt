-- ===== src/SharedPtr/Disposal.antt =====
-- A resource through a whole run of a program: it is disposed of once, and not while it is shared.
use procshared_mem.Base.{ℕ, ◌+◌, ◌<◌, ◌≡◌, ◌≢◌, false, Option, some, ◌⊎◌, inl, inr, arith}
use procshared_mem.Base.Tally.{tally, tally-le, count}
use procshared_mem.SharedPtr.{not_positive, make_shared, constructed, increment, construct_ctrl}
use procshared_mem.SharedPtr.Shared
use procshared_mem.SharedPtr.Objects.{State}
use procshared_mem.SharedPtr.Counts.{bound}
use procshared_mem.SharedPtr.Temporaries.{impls, Counted}
use procshared_mem.SharedPtr.Steps.{Fresh}
use procshared_mem.SharedPtr.Resource.{Held, Deleted, Turn, Held-Turn, Deleted-Turn}
use procshared_mem.SharedPtr.Turns.{
  Vacant, Turn-construct, Turn-reset_to, Turn-copy_construct, Turn-move_construct, Turn-copy_assign,
  Turn-move_assign, Turn-swap, Turn-reset, Turn-destroy, Turn-from_weak, Turn-weak_copy_construct,
  Turn-from_shared, Turn-weak_move_construct, Turn-weak_copy_assign, Turn-assign_shared,
  Turn-weak_move_assign, Turn-weak_swap, Turn-weak_reset, Turn-weak_destroy, Turn-lock_into,
}
use procshared_mem.SharedPtr.Run.{
  Step, constructs, copy_constructs, move_constructs, from_weak, copy_assigns, move_assigns, swaps,
  resets, resets_to, destroys, weak_copies, weak_of_shared, weak_moves, weak_copy_assigns,
  weak_assigns_shared, weak_move_assigns, weak_swaps, weak_resets, weak_destroys, locks, Run, stay,
  then_step, Counted-Run,
}

-- The resource that a step hands over to a new control block, 0 for none.
abbrev pub handed : {n : ℕ} {st st' : State} → Step n st st' → ℕ
handed (constructs st this cb ok p h e f) = p
handed (resets_to st this cb ok p h f) = p
handed _ = 0

abbrev pub NeverHanded : {n : ℕ} {st st' : State} → ℕ → Run n st st' → Type 0
NeverHanded p (stay st) = Unit {0}
NeverHanded p (then_step st st' st'' run s) = NeverHanded p run × (handed s ≢ p)

-- A shared object of the block `c` is there all the time.
abbrev pub SharedThroughout : (n : ℕ) → {st st' : State} → ℕ → Run n st st' → Type 0
SharedThroughout n c (stay st) = 0 < tally (impls st.shared) n c
SharedThroughout n c (then_step st st' st'' run s) =
    SharedThroughout n c run × (0 < tally (impls st''.shared) n c)

Vacant-Fresh :
    (n : ℕ) (st : State) (cb : Option ℕ) → Counted n st → Fresh st.heap cb → Vacant st.heap cb
Vacant-Fresh n st cb good fresh c e =
    let f = fresh c e in let b = good c f.0 in b.disposed ((b.gone f.1).0)

module _ (n p : ℕ) where
  Turn-Step :
      {st st' : State} → Counted n st → (s : Step n st st') → handed s ≢ p → Turn p st.heap st'.heap
  Turn-Step good (constructs st this cb ok q h e f) ne =
      Turn-construct p st this cb ok q ne (Vacant-Fresh n st cb good f)
  Turn-Step good (resets_to st this cb ok q h f) ne =
      Turn-reset_to p st this cb ok q ne (Vacant-Fresh n st cb good f)
  Turn-Step good (copy_constructs st this b h k e) ne = Turn-copy_construct p st this b
  Turn-Step good (move_constructs st this b h k e) ne = Turn-move_construct p st this b
  Turn-Step good (from_weak st st' this w h k e q) ne = Turn-from_weak p st this w st' q
  Turn-Step good (copy_assigns st this b h k) ne = Turn-copy_assign p st this b
  Turn-Step good (move_assigns st this b h k) ne = Turn-move_assign p st this b
  Turn-Step good (swaps st this b h k) ne = Turn-swap p st this b
  Turn-Step good (resets st this h) ne = Turn-reset p st this
  Turn-Step good (destroys st this h) ne = Turn-destroy p st this
  Turn-Step good (weak_copies st this r h k e) ne = Turn-weak_copy_construct p st this r
  Turn-Step good (weak_of_shared st this r h k e) ne = Turn-from_shared p st this r
  Turn-Step good (weak_moves st this r h k e) ne = Turn-weak_move_construct p st this r
  Turn-Step good (weak_copy_assigns st this r h k) ne = Turn-weak_copy_assign p st this r
  Turn-Step good (weak_assigns_shared st this r h k) ne = Turn-assign_shared p st this r
  Turn-Step good (weak_move_assigns st this r h k) ne = Turn-weak_move_assign p st this r
  Turn-Step good (weak_swaps st this r h k) ne = Turn-weak_swap p st this r
  Turn-Step good (weak_resets st this h) ne = Turn-weak_reset p st this
  Turn-Step good (weak_destroys st this h) ne = Turn-weak_destroy p st this
  Turn-Step good (locks st this w h k e) ne = Turn-lock_into p st this w

-- The count of a block that has a shared object is positive.
positive_lem :
    (n c : ℕ) (st : State)
    → n + 1 < bound
    → c ≢ 0
    → Counted n st
    → 0 < tally (impls st.shared) n c
    → not_positive (st.heap.ctrl c).shrd_refc ≡ false
positive_lem n c st small hc good pos = ground (arith, good c hc, tally-le (impls st.shared) n c)

module _ (n p c : ℕ) (small : n + 1 < bound) (hp : p ≢ 0) (hc : c ≢ 0) where
  Held_throughout :
      {st st' : State}
      → Counted n st
      → Held p c st.heap
      → (run : Run n st st') → NeverHanded p run
      → SharedThroughout n c run
      → Held p c st'.heap
  Held_throughout good s (stay st) ne up = s
  Held_throughout good s (then_step st mid st' run step) ne up =
      let g = Counted-Run n st mid small good run in
      let g' = Counted-Run n st st' small good (then_step st mid st' run step) in
      (Held-Turn p c hp hc (Turn-Step n p g step ne.1) (Held_throughout good s run ne.0 up.0)).0
        (positive_lem n c st' small hc g' up.1)

  Held_or_Deleted :
      {st st' : State}
      → Counted n st
      → Held p c st.heap
      → (run : Run n st st') → NeverHanded p run
      → Held p c st'.heap ⊎ Deleted p st'.heap
  Held_or_Deleted good s (stay st) ne = inl s
  Held_or_Deleted good s (then_step st mid st' run step) ne =
      let g = Counted-Run n st mid small good run in
      let turn = Turn-Step n p g step ne.1 in
      elim (Held_or_Deleted good s run ne.0) [
        | inl t ↦ (Held-Turn p c hp hc turn t).1
        | inr t ↦ inr (Deleted-Turn p c hp turn t)
      ]

shared_left :
    (n p c : ℕ) (st : State)
    → p ≢ 0
    → c ≢ 0
    → Counted n st
    → Held p c st.heap
    → 0 < tally (impls st.shared) n c
shared_left n p c st hp hc good s = ground (arith, good c hc, s.owner)

-- A resource that is new gets the block that is made for it as its owner.
pub Held-construct :
    (st : State) (this p c : ℕ)
    → ((b : ℕ) → (st.heap.ctrl b).op_to_obj ≢ p)
    → count st.heap.deleted p ≡ 0
    → Held p c (Shared.construct st this (some c) constructed p).heap
unfolding Shared.construct make_shared increment construct_ctrl
Held-construct st this p c nobody new = record {
  owner = ground arith;
  alone = λ b ne. ground (arith, nobody b);
  untouched = new;
}

-- A resource that one control block owns and that no step hands over again: through any run its
-- deleter is called at most once. At the end the block still owns it and has a shared object, or the
-- deleter was called exactly once and no block owns it. While the block has a shared object at every
-- step the deleter is not called.
pub disposal-Run :
    (n p c : ℕ) (st st' : State)
    → n + 1 < bound
    → p ≢ 0
    → c ≢ 0
    → Counted n st
    → Held p c st.heap
    → (run : Run n st st') → NeverHanded p run
    → ((Held p c st'.heap × 0 < tally (impls st'.shared) n c) ⊎ Deleted p st'.heap)
      × (SharedThroughout n c run → Held p c st'.heap)
disposal-Run n p c st st' small hp hc good s run ne = (
  elim (Held_or_Deleted n p c small hp hc good s run ne) [
    | inl t ↦ inl (t, shared_left n p c st' hp hc (Counted-Run n st st' small good run) t)
    | inr t ↦ inr t
  ],
  Held_throughout n p c small hp hc good s run ne,
)
