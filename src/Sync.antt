-- ===== src/Sync.antt =====
-- The mutex and the condition variable that processes share: libipsm_mem/src/ipsm_mutex.cpp,
-- libipsm_mem/src/ipsm_condition_variable.cpp and libipsm_mem/inc/ipsm_condition_variable.hpp. The
-- pthread functions are a parameter: a state of the mutex, and for each function the state after it and
-- the code that it returns.
pub mod Owner
pub mod Wait
mod Tests
use procshared_mem.Base.{
  ℕ, zero, suc, ◌≡◌, Bool, true, false, not, ◌&&◌, ◌||◌, Option, none, some, List, [], ◌∷◌, ◌==◌,
  if◌then◌else◌,
}

-- Codes of `errno.h`.
abbrev pub eperm : ℕ
eperm = 1

abbrev pub eintr : ℕ
eintr = 4

abbrev pub ebusy : ℕ
ebusy = 16

abbrev pub einval : ℕ
einval = 22

abbrev pub edeadlk : ℕ
edeadlk = 35

abbrev pub enosys : ℕ
enosys = 38

abbrev pub etimedout : ℕ
etimedout = 110

abbrev pub eownerdead : ℕ
eownerdead = 130

-- What a function returns, or the code of the `std::system_error` that it throws.
pub data Result {ℓ} (A : Type ℓ) : Type ℓ where
  ok : A → Result A
  system_error : ℕ → Result A

-- The functions of a pthread mutex that a thread calls.
pub record Pthread {ℓ} (S : Type ℓ) : Type ℓ where
  pub mutex_lock : S → S × ℕ
  pub mutex_trylock : S → S × ℕ
  pub mutex_unlock : S → S × ℕ
  pub mutex_consistent : S → S × ℕ
  pub mutex_destroy : S → S × ℕ

-- The constructor: `set` stands for the codes of `pthread_mutexattr_settype`, `setpshared` and
-- `setrobust`, in this order, and `init` for what `pthread_mutex_init` makes, whose code is not read.
unfoldable pub construct_mutex {ℓ} : {S : Type ℓ} → ℕ × ℕ × ℕ → S → Result S
construct_mutex set init =
    if not (set.0 == 0)
    then system_error set.0
    else if not (set.1 == enosys) && not (set.1 == 0)
    then system_error set.1
    else if not (set.2 == 0)
    then system_error set.2
    else ok init

module _ {ℓ} {S : Type ℓ} (os : Pthread S) where
  unfoldable pub destroy_mutex : S → S
  destroy_mutex s =
      let r = os.mutex_destroy s in
      if r.1 == ebusy then (os.mutex_destroy (os.mutex_unlock r.0).0).0 else r.0

  -- After `EOWNERDEAD`: what the call returns where the mutex is consistent again, and where
  -- `pthread_mutex_consistent` answers `EINVAL`.
  unfoldable pub recover {κ} : {A : Type κ} → S → A → A → S × Result A
  recover s recovered unchanged =
      let c = os.mutex_consistent s in
      if c.1 == 0
      then (c.0, ok recovered)
      else if c.1 == einval
      then (c.0, ok unchanged)
      else (c.0, system_error c.1)

  unfoldable pub lock : S → S × Result (Unit {0})
  lock s =
      let r = os.mutex_lock s in
      if r.1 == 0
      then (r.0, ok tt)
      else if r.1 == eownerdead
      then recover r.0 tt tt
      else (r.0, system_error r.1)

  unfoldable pub try_lock : S → S × Result Bool
  try_lock s =
      let r = os.mutex_trylock s in
      if r.1 == 0
      then (r.0, ok true)
      else if (r.1 == ebusy) || (r.1 == edeadlk)
      then (r.0, ok false)
      else if r.1 == eownerdead
      then recover r.0 true false
      else (r.0, system_error r.1)

  unfoldable pub unlock : S → S × Result (Unit {0})
  unlock s =
      let r = os.mutex_unlock s in
      if r.1 == 0
      then (r.0, ok tt)
      else if r.1 == eperm
      then (r.0, ok tt)
      else (r.0, system_error r.1)

-- `std::cv_status`.
pub data CvStatus : Type 0 where
  no_timeout : CvStatus
  timeout : CvStatus

-- The constructor of the condition variable: the codes of `setpshared` and `setclock`.
unfoldable pub construct_cond : ℕ × ℕ → Result (Unit {0})
construct_cond set =
    if not (set.0 == 0)
    then system_error set.0
    else if not (set.1 == 0)
    then system_error set.1
    else ok tt

-- `wait_until`: the codes that `pthread_cond_timedwait` returns, one for each call of it. `none` where
-- the loop asks for one more.
unfoldable pub wait_until : List ℕ → Option (Result CvStatus)
wait_until [] = none
wait_until (ret ∷ rets) =
    let again = wait_until rets in
    if ret == 0
    then some (ok no_timeout)
    else if ret == etimedout
    then some (ok timeout)
    else if ret == eintr
    then again
    else some (system_error ret)

-- `wait_until` with a predicate: what the predicate tells at first, and for each wait the codes that it
-- gets and what the predicate tells after it.
unfoldable pub wait_until_predicate : Bool → List (List ℕ × Bool) → Option (Result Bool)
wait_until_predicate pred [] = if pred then some (ok true) else none
wait_until_predicate pred ((rets, next) ∷ waits) =
    let again = wait_until_predicate next waits in
    let waited : Option (Result Bool) = elim (wait_until rets) [
      | none ↦ none
      | some (system_error e) ↦ some (system_error e)
      | some (ok timeout) ↦ some (ok next)
      | some (ok no_timeout) ↦ again
    ] in
    if pred then some (ok true) else waited
