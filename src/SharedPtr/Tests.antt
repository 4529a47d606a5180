-- ===== src/SharedPtr/Tests.antt =====
-- Two shared and two weak objects: one block is made at 64 for the resource 7, a weak object is made of
-- it, and the shared object is reset.
use procshared_mem.Base.{◌<◌, ◌≡◌, ◌⊎◌, refl, true, false, some, [], ◌∷◌, arith}
use procshared_mem.Base.Tally.{tally, count}
use procshared_mem.UniquePtr.{call_deleter}
use procshared_mem.SharedPtr.{
  null_handle, construct_ctrl, increment, make_shared, constructed, try_dispose_com, settle,
  decrement, dispose_resource, copy_weak, shrd, expired, lock, shared_of_weak, use_count,
}
use procshared_mem.SharedPtr.Objects.{State}
use procshared_mem.SharedPtr.Temporaries.{impls, Counted}
use procshared_mem.SharedPtr.Run.{
  Run, Counted-Run, expired-lock, stay, then_step, constructs, weak_of_shared, resets,
}
use procshared_mem.SharedPtr.Resource.{Held, Deleted}
use procshared_mem.SharedPtr.Disposal.{Held-construct, SharedThroughout, disposal-Run}
use procshared_mem.SharedPtr.Shared
use procshared_mem.SharedPtr.Weak

abbrev empty : State
empty = record {
  heap = record {
    ctrl = λ a. record { weak_refc = 0; shrd_refc = 0; op_to_obj = 0; live = false };
    deleted = [];
  };
  shared = λ a. null_handle;
  weaks = λ a. null_handle;
}

empty-Counted : Counted 2 empty
unfolding tally
empty-Counted b hb = record {
  counts = λ l. ground arith;
  disposed = λ z. refl;
  gone = λ l. (ground arith, ground arith);
}

abbrev made : State
made = Shared.construct empty 0 (some 64) constructed 7

abbrev watched : State
watched = Weak.from_shared made 0 0

abbrev disposed : State
disposed = Shared.reset watched 0

watching : Run 2 empty watched
unfolding Shared.construct make_shared
watching =
    then_step empty made watched
      (then_step empty empty made (stay empty) (
        constructs empty 0 (some 64) constructed 7 (omega arith) refl
          (λ c e. (ground (arith, e), refl))))
      (weak_of_shared made 0 0 (omega arith) (omega arith) refl)

watched-Counted : Counted 2 watched
watched-Counted = Counted-Run 2 empty watched (omega arith) empty-Counted watching

abbrev resetting : Run 2 watched disposed
resetting = then_step watched watched disposed (stay watched) (resets watched 0 (omega arith))

Counted-Run_example : Counted 2 disposed
Counted-Run_example = Counted-Run 2 watched disposed (omega arith) watched-Counted resetting

building : Run 2 empty made
unfolding Shared.construct make_shared
building = then_step empty empty made (stay empty) (
    constructs empty 0 (some 64) constructed 7 (omega arith) refl
      (λ c e. (ground (arith, e), refl)))

made-Held : Held 7 64 made.heap
unfolding count
made-Held = Held-construct empty 0 7 64 (λ b. omega arith) refl

abbrev all_of_it : Run 2 made disposed
unfolding Shared.construct make_shared
all_of_it =
    then_step made watched disposed
      (then_step made made watched (stay made)
        (weak_of_shared made 0 0 (omega arith) (omega arith) refl))
      (resets watched 0 (omega arith))

disposal-Run_example :
    ((Held 7 64 disposed.heap × 0 < tally (impls disposed.shared) 2 64) ⊎ Deleted 7 disposed.heap)
    × (SharedThroughout 2 64 all_of_it → Held 7 64 disposed.heap)
unfolding all_of_it
disposal-Run_example =
    disposal-Run 2 7 64 made disposed (omega arith) (omega arith) (omega arith)
      (Counted-Run 2 empty made (omega arith) empty-Counted building) made-Held all_of_it
      ((tt, omega arith), omega arith)

-- The resource is deleted once, by the reset, and the block lives on for the weak object.
after_reset : (disposed.heap.deleted ≡ 7 ∷ []) × (expired disposed.heap (disposed.weaks 0) ≡ true)
unfolding Shared.reset Shared.construct Weak.from_shared make_shared copy_weak increment
    construct_ctrl try_dispose_com decrement settle dispose_resource call_deleter expired use_count
after_reset = (refl, refl)

expired-lock_example :
    let h = watched.heap in
    let a = watched.weaks 0 in
    (expired h a ≡ false)
    × (lock h a ≡ (increment h a.impl shrd, a))
    × (shared_of_weak h a ≡ some (increment h a.impl shrd, a))
unfolding tally Shared.construct Weak.from_shared make_shared copy_weak
expired-lock_example = expired-lock 2 watched 0 watched-Counted (omega arith)
