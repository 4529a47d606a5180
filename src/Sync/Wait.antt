-- ===== src/Sync/Wait.antt =====
-- The loops of the condition variable.
use procshared_mem.Base.{
  ℕ, ◌≡◌, ◌≢◌, Bool, false, some, List, [], ◌∷◌, ◌++◌, ◌==◌, if◌then◌else◌, arith,
}
use procshared_mem.Sync.{
  eintr, etimedout, Result, ok, system_error, CvStatus, no_timeout, timeout, wait_until,
  wait_until_predicate,
}

-- Waits that a signal handler cut short.
abbrev pub AllEintr : List ℕ → Type 0
AllEintr [] = Unit {0}
AllEintr (ret ∷ rets) = (ret ≡ eintr) × AllEintr rets

-- What a code other than `EINTR` comes to.
abbrev pub status_of : ℕ → Result CvStatus
status_of ret =
    if ret == 0 then ok no_timeout else if ret == etimedout then ok timeout else system_error ret

-- `wait_until` waits again as long as a signal cuts the wait short, and ends with the first other code,
-- whatever would come after it.
pub wait_until-status_of :
    (cut : List ℕ) (ret : ℕ) (rets : List ℕ)
    → AllEintr cut
    → ret ≢ eintr
    → wait_until (cut ++ ret ∷ rets) ≡ some (status_of ret)
unfolding wait_until
wait_until-status_of [] ret rets c ne = ground (arith, ne)
wait_until-status_of (k ∷ cut) ret rets c ne =
    ground (arith, c.0, wait_until-status_of cut ret rets c.1 ne)

-- Waits after which the predicate did not hold, none of them at the limit.
abbrev pub AllInVain : List (List ℕ × Bool) → Type 0
AllInVain [] = Unit {0}
AllInVain ((rets, next) ∷ waits) =
    (wait_until rets ≡ some (ok no_timeout)) × (next ≡ false) × AllInVain waits

-- The wait with a predicate goes on as long as it is woken up in vain, and after the first wait that
-- ends at the limit it answers what the predicate tells then.
pub wait_until_predicate-timeout :
    (vain waits : List (List ℕ × Bool)) (rets : List ℕ) (next : Bool)
    → AllInVain vain
    → wait_until rets ≡ some (ok timeout)
    → wait_until_predicate false (vain ++ (rets, next) ∷ waits) ≡ some (ok next)
unfolding wait_until_predicate
wait_until_predicate-timeout [] waits rets next v e = ground (arith, e)
wait_until_predicate-timeout ((rets', next') ∷ vain) waits rets next v e =
    let rest = wait_until_predicate-timeout vain waits rets next v.2 e in
    ground (arith, v.0, v.1, rest)
