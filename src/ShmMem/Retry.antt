-- ===== src/ShmMem/Retry.antt =====
-- The retries of the set-up loop.
use procshared_mem.Base.{
  ℕ, ◌≤◌, ◌≡◌, ◌≢◌, refl, sym, ap, ◌∙◌, subst, Bool, true, false, Option, none, some, List, [], ◌∷◌,
  ◌==◌, inl, inr, Bool-cases, if◌then◌else◌, arith,
}
use procshared_mem.ShmMem.{
  Answer, ok, fails, Os, ShmGuard, empty_guard, Result, returns, max_off, open_shm, opened, closed,
  mapped, map_opened, roundup_to_page_size, move_assign, destroy,
}
use procshared_mem.ShmMem.Locks.{LockFileGuard, construct, try_lock, release_lock, ewouldblock}
use procshared_mem.ShmMem.Setup.{
  ready, Request, Turn, Impl, Exit, Header, end_turn, goes_on, retries, undefined, necessary_size,
  initialize, wait_shared, release_then, check_ready, after_open, open_shared, setup_turn,
  setup_loop,
}

-- Arguments that `open` takes.
pub record IsOpenable (q : Request) : Type 0 where
  pub name : q.name_empty ≡ false
  pub file : q.fname_empty ≡ false
  pub not_zero : necessary_size q ≢ 0
  pub not_long : necessary_size q ≤ max_off

-- A process that holds the shared lock, with nothing mapped yet.
abbrev pub held : ℕ → LockFileGuard
held fd = record { fd = some fd; is_locked = true }

abbrev pub sharing : Os → ℕ → Impl
sharing os fd = record { os = os; shared_lock_guard_ = held fd; shm_guard_ = empty_guard }

-- The shared lock is released, and the branch goes on as it means to.
release_lem :
    (os : Os) (fd : ℕ) (g : ShmGuard) (unlock : Answer) (next : Exit)
    → unlock ≡ ok 0
    → (release_then
        (record { os = os; shared_lock_guard_ = held fd; shm_guard_ = g })
        unlock
        next).1
      ≡ next
unfolding release_then release_lock
release_lem os fd g unlock next u = rw u refl

-- What the emptied guard had mapped is mapped no more.
destroy-mapped : (os : Os) (g : ShmGuard) → g.p_addr ≢ 0 → (destroy os g).is_mapped g.p_addr ≡ false
unfolding destroy
destroy-mapped os g ne = ground (arith, ne)

check_unready :
    (t : Turn) (os : Os) (fd : ℕ) (g : ShmGuard)
    → t.unlock ≡ ok 0
    → g.p_addr ≢ 0
    → t.status ≢ ready
    → (check_ready t (record { os = os; shared_lock_guard_ = held fd; shm_guard_ = g })).1
      ≡ undefined
unfolding check_ready move_assign
check_unready t os fd g u ne s =
    let e : (t.status == ready) ≡ false = ground (arith, s) in
    rw (e, destroy-mapped os g ne) (release_lem (destroy os g) fd empty_guard t.unlock undefined u)

-- What `open` comes to with such arguments.
abbrev opened_answer : Request → Os → Answer → Answer → Os × ShmGuard × Result
opened_answer q os (fails e) m = (os, empty_guard, returns false)
opened_answer q os (ok f) m =
    map_opened os empty_guard f (roundup_to_page_size q.page_size (necessary_size q)) m

asked :
    (q : Request) (os : Os) (x m : Answer)
    → IsOpenable q
    → open_shm os empty_guard q.name_empty q.page_size (necessary_size q) x m
      ≡ opened_answer q os x m
unfolding open_shm
asked q os (ok f) m o = ground (arith, o.name, o.not_zero, o.not_long)
asked q os (fails e) m o = ground (arith, o.name, o.not_zero, o.not_long)

open_lem :
    (q : Request) (t : Turn) (os : Os) (fd : ℕ) (x m : Answer)
    → IsOpenable q
    → t.open_fd ≡ x
    → t.open_map ≡ m
    → open_shared q t (sharing os fd) ≡ after_open t (held fd) (opened_answer q os x m)
unfolding open_shared
open_lem q t os fd x m o h k =
    ap (after_open t (held fd)) (asked q os t.open_fd t.open_map o)
    ∙ ap (λ y. after_open t (held fd) (opened_answer q os y t.open_map)) h
    ∙ ap (λ y. after_open t (held fd) (opened_answer q os x y)) k

abbrev pub guard_of : Request → ℕ → ℕ → ShmGuard
guard_of q f a = record {
  fd = some f;
  p_addr = a;
  length = roundup_to_page_size q.page_size (necessary_size q);
}

-- The process with the object mapped at `a`.
abbrev pub using : Os → Request → ℕ → ℕ → ℕ → Impl
using os q fd f a = record {
  os = mapped (opened os f) a;
  shared_lock_guard_ = held fd;
  shm_guard_ = guard_of q f a;
}

check_ready_lem : (t : Turn) (i : Impl) → t.status ≡ ready → check_ready t i ≡ (i, goes_on)
unfolding check_ready
check_ready_lem t i e = rw e refl

-- What a turn comes to once it has the shared lock.
abbrev pub shared_exit : Answer → Answer → Bool → Exit
shared_exit (fails e) m is_ready = retries
shared_exit (ok f) (fails e) is_ready = retries
shared_exit (ok f) (ok a) is_ready = if is_ready then goes_on else undefined

opened_exit :
    (q : Request) (t : Turn) (os : Os) (fd : ℕ) (x m : Answer)
    → t.unlock ≡ ok 0
    → ((a : ℕ) → m ≡ ok a → a ≢ 0)
    → (after_open t (held fd) (opened_answer q os x m)).1 ≡ shared_exit x m (t.status == ready)
unfolding after_open map_opened
opened_exit q t os fd (fails e) m u ne = release_lem os fd empty_guard t.unlock retries u
opened_exit q t os fd (ok f) (fails e) u ne =
    release_lem (closed (opened os f) f) fd empty_guard t.unlock retries u
opened_exit q t os fd (ok f) (ok a) u ne = elim (Bool-cases (t.status == ready)) [
  | inl r ↦ ap (λ k. k.1) (check_ready_lem t (using os q fd f a) (ground (arith, r))) ∙ rw r refl
  | inr r ↦
      check_unready t (mapped (opened os f) a) fd (guard_of q f a) u (ne a refl) (ground (arith, r))
      ∙ rw r refl
]

-- With the shared lock, and where that can be released: if the object is not there or cannot be mapped,
-- the next turn starts; if it is ready, the constructor goes on; and if it is there but not ready,
-- the constructor reads its header after it has taken away the mapping.
pub open_shared-shared_exit :
    (q : Request) (t : Turn) (os : Os) (fd : ℕ)
    → IsOpenable q
    → t.unlock ≡ ok 0
    → ((a : ℕ) → t.open_map ≡ ok a → a ≢ 0)
    → (open_shared q t (sharing os fd)).1 ≡ shared_exit t.open_fd t.open_map (t.status == ready)
open_shared-shared_exit q t os fd o u ne =
    ap (λ r. r.1) (open_lem q t os fd t.open_fd t.open_map o refl refl)
    ∙ opened_exit q t os fd t.open_fd t.open_map u ne

-- A turn in which another process has the exclusive lock, the shared lock is given at the first try or
-- after some sleeps, and the object is not there. Whether its time is over is not said.
pub record IsMissed (t : Turn) : Type 0 where
  pub fd : ℕ
  pub file : t.file ≡ ok fd
  pub exclusive : t.exclusive ≡ fails ewouldblock
  pub late : Bool
  pub tries : List (Answer × Bool)
  pub shared : t.shared ≡ (ok 0, late) ∷ tries
  pub number : ℕ
  pub missing : t.open_fd ≡ fails number
  pub unlock : t.unlock ≡ ok 0

initialize_lem :
    (q : Request) (t : Turn) (os : Os) (fd : ℕ)
    → q.fname_empty ≡ false
    → t.file ≡ ok fd
    → t.exclusive ≡ fails ewouldblock
    → initialize q t os ≡ (os, empty_guard, none, goes_on)
unfolding initialize construct try_lock
initialize_lem q t os fd o e f = rw (o, e, f) refl

wait_lem :
    (fd : ℕ) (late : Bool) (tries : List (Answer × Bool))
    → wait_shared ((ok 0, late) ∷ tries) (record { fd = some fd; is_locked = false })
      ≡ some (held fd, goes_on)
unfolding wait_shared try_lock
wait_lem fd late tries = refl

-- A process in the loop, between two turns.
abbrev pub between : Os → ℕ → Impl
between os fd = record {
  os = os;
  shared_lock_guard_ = record { fd = some fd; is_locked = false };
  shm_guard_ = empty_guard;
}

released :
    (os : Os) (fd : ℕ) (unlock : Answer)
    → unlock ≡ ok 0
    → release_then (sharing os fd) unlock retries ≡ (between os fd, retries)
unfolding release_then release_lock
released os fd unlock u =
    subst (λ a. release_then (sharing os fd) a retries ≡ (between os fd, retries)) (sym u) refl

setup_turn_lem :
    (q : Request) (t : Turn) (i : Impl) (os : Os) (g : ShmGuard) (h : Option Header)
    (lock : LockFileGuard)
    → initialize q t i.os ≡ (os, g, h, goes_on)
    → wait_shared t.shared i.shared_lock_guard_ ≡ some (lock, goes_on)
    → setup_turn q t i
      ≡ some (end_turn g (open_shared q t (record i { os = os; shared_lock_guard_ = lock })))
unfolding setup_turn
setup_turn_lem q t i os g h lock x w = ground (arith, x, w)

missed_turn :
    (q : Request) (t : Turn) (os : Os) (fd : ℕ)
    → IsOpenable q
    → IsMissed t
    → setup_turn q t (between os fd) ≡ some (between os fd, retries)
unfolding after_open destroy
missed_turn q t os fd o m =
    let x = initialize_lem q t os m.fd o.file m.file m.exclusive in
    let w =
      ap (λ s. wait_shared s (between os fd).shared_lock_guard_) m.shared
      ∙ wait_lem fd m.late m.tries in
    let r =
      open_lem q t os fd (fails m.number) t.open_map o m.missing refl
      ∙ released os fd t.unlock m.unlock in
    setup_turn_lem q t (between os fd) os empty_guard none (held fd) x w
    ∙ ap (λ r. some (end_turn empty_guard r)) r

abbrev pub AllMissed : List Turn → Type 0
AllMissed [] = Unit {0}
AllMissed (t ∷ ts) = IsMissed t × AllMissed ts

-- The loop reads the clock only while the shared lock is refused: after any number of turns in which the
-- lock is given and the object is not there it still asks for one more, whatever the clock tells.
pub setup_loop-AllMissed :
    (q : Request) (ts : List Turn) (os : Os) (fd : ℕ)
    → IsOpenable q
    → AllMissed ts
    → setup_loop q ts (between os fd) ≡ none
unfolding setup_loop
setup_loop-AllMissed q [] os fd o m = refl
setup_loop-AllMissed q (t ∷ ts) os fd o m =
    rw (missed_turn q t os fd o m.0, setup_loop) (setup_loop-AllMissed q ts os fd o m.1)
