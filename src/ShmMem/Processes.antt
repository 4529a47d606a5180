-- ===== src/ShmMem/Processes.antt =====
-- The processes that set up, use and leave one shared memory: the constructor and the destructor of
-- `ipsm_mem::impl` in libipsm_mem/src/ipsm_mem.cpp, step by step and in any order. A step lasts from one
-- call that other processes can see to the next. The kernel is here by what its calls do: `flock` on
-- the lock file refuses an exclusive lock while any process holds a lock, and a shared one while a
-- process holds the exclusive one, and a process that ends, by whatever cause, holds none.
use procshared_mem.Base.{ℕ, ◌≡◌, ◌⊎◌, Bool, true, false, Option, none, some}
use procshared_mem.Base.Tally.{update}

-- Where a process stands.
pub data Phase : Type 0 where
  -- It has no `impl`.
  outside : Phase
  -- At the top of the constructor's loop, with no lock.
  starting : Phase
  -- It holds the exclusive lock, and has created the object.
  initializing : ℕ → Phase
  -- It tries to get the shared lock.
  waiting : Phase
  -- It holds the shared lock, and has not looked at the object yet.
  opening : Phase
  -- The constructor is through.
  in_use : ℕ → Phase
  -- In the destructor, with no lock.
  leaving : Phase
  -- In the destructor, with the exclusive lock.
  removing : Phase

-- The object that the name of the shared memory stands for, the header of each object (`status_` is
-- `ready`, and `sharing_value_`), and where each process stands.
pub record World : Type 0 where
  pub named : Option ℕ
  pub ready : ℕ → Bool
  pub value : ℕ → ℕ
  pub phase : ℕ → Phase

abbrev pub is_exclusive : Phase → Bool
is_exclusive outside = false
is_exclusive starting = false
is_exclusive (initializing o) = true
is_exclusive waiting = false
is_exclusive opening = false
is_exclusive (in_use o) = false
is_exclusive leaving = false
is_exclusive removing = true

abbrev pub is_locked : Phase → Bool
is_locked outside = false
is_locked starting = false
is_locked (initializing o) = true
is_locked waiting = false
is_locked opening = true
is_locked (in_use o) = true
is_locked leaving = false
is_locked removing = true

abbrev pub move : World → ℕ → Phase → World
move w p x = record w { phase = update w.phase p x }

-- `try_exclusive_lock` and `try_shared_lock` succeed.
abbrev pub AllUnlocked : World → Type 0
AllUnlocked w = (p : ℕ) → is_locked (w.phase p) ≡ false

abbrev pub NoExclusive : World → Type 0
NoExclusive w = (p : ℕ) → is_exclusive (w.phase p) ≡ false

-- `create`, which truncates the object that has the name or makes a new one, and `ipsm_mem_header()`.
abbrev pub new_header : World → ℕ → ℕ → World
new_header w p o = record {
  named = some o;
  ready = update w.ready o false;
  value = update w.value o 0;
  phase = update w.phase p (initializing o);
}

-- `set_ready_with_sharing_value`, and the exclusive lock released.
abbrev pub set_ready : World → ℕ → ℕ → ℕ → World
set_ready w p o v = record {
  named = w.named;
  ready = update w.ready o true;
  value = update w.value o v;
  phase = update w.phase p waiting;
}

pub data Step (w : World) : World → Type 0 where
  start : (p : ℕ) → w.phase p ≡ outside → Step w (move w p starting)
  -- The exclusive lock is this process's, and `create` finds the object `o`, or makes it.
  create :
      (p o : ℕ)
      → w.phase p ≡ starting
      → AllUnlocked w
      → (w.named ≡ some o) ⊎ (w.named ≡ none)
      → Step w (new_header w p o)
  -- The exclusive lock is this process's, and `create` throws.
  create_fails : (p : ℕ) → w.phase p ≡ starting → AllUnlocked w → Step w (move w p outside)
  -- The process `q` has a lock.
  not_first :
      (p q : ℕ) → w.phase p ≡ starting → is_locked (w.phase q) ≡ true → Step w (move w p waiting)
  -- The functor answers the value `v`, or throws.
  init_returns : (p o v : ℕ) → w.phase p ≡ initializing o → Step w (set_ready w p o v)
  init_throws : (p o : ℕ) → w.phase p ≡ initializing o → Step w (move w p outside)
  share : (p : ℕ) → w.phase p ≡ waiting → NoExclusive w → Step w (move w p opening)
  time_out : (p : ℕ) → w.phase p ≡ waiting → Step w (move w p outside)
  -- `open` answers false, or the status is not ready: the locks are released and the loop goes on.
  open_fails : (p : ℕ) → w.phase p ≡ opening → Step w (move w p starting)
  not_ready :
      (p o : ℕ)
      → w.phase p ≡ opening
      → w.named ≡ some o
      → w.ready o ≡ false
      → Step w (move w p starting)
  open_ready :
      (p o : ℕ)
      → w.phase p ≡ opening
      → w.named ≡ some o
      → w.ready o ≡ true
      → Step w (move w p (in_use o))
  -- The destructor.
  leave : (p o : ℕ) → w.phase p ≡ in_use o → Step w (move w p leaving)
  not_last :
      (p q : ℕ) → w.phase p ≡ leaving → is_locked (w.phase q) ≡ true → Step w (move w p outside)
  last : (p : ℕ) → w.phase p ≡ leaving → AllUnlocked w → Step w (move w p removing)
  unlink : (p : ℕ) → w.phase p ≡ removing → Step w (record (move w p outside) { named = none })
  -- A process can end at any point.
  die : (p : ℕ) → Step w (move w p outside)

pub data Steps (w : World) : World → Type 0 where
  done : Steps w w
  after : {w' w'' : World} → Steps w w' → Step w' w'' → Steps w w''

-- No process is there; an object may have been left behind.
pub record IsIdle (w : World) : Type 0 where
  pub idle : (p : ℕ) → w.phase p ≡ outside
