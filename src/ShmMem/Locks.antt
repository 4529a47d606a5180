-- ===== src/ShmMem/Locks.antt =====
-- `lock_file_guard` of libipsm_mem/src/ipsm_mem.cpp.
use procshared_mem.Base.{
  ℕ, ◌≡◌, refl, Bool, true, false, not, ◌&&◌, Option, none, some, ◌==◌, if◌then◌else◌, arith,
}
use procshared_mem.ShmMem.{Answer, ok, fails, Thrown, ipsm_mem_error, Result, returns, throws}

-- `fd_`, `none` for one below 0, and `is_locked_`.
pub record LockFileGuard : Type 0 where
  pub fd : Option ℕ
  pub is_locked : Bool

unfoldable pub construct : (fname_empty : Bool) → (answer : Answer) → LockFileGuard × Option Thrown
construct true answer = (record { fd = none; is_locked = false }, none)
construct false (fails e) = (record { fd = none; is_locked = false }, some (ipsm_mem_error e))
construct false (ok fd) = (record { fd = some fd; is_locked = false }, none)

abbrev pub ewouldblock : ℕ
ewouldblock = 11

-- `try_exclusive_lock` and `try_shared_lock` differ only in the operation they ask `flock` for.
unfoldable pub try_lock : LockFileGuard → (flock : Answer) → LockFileGuard × Result
try_lock g flock = elim g.fd [
  | none ↦ (g, returns false)
  | some fd ↦ elim flock [
    | ok r ↦ (record g { is_locked = true }, returns true)
    | fails e ↦ if e == ewouldblock then (g, returns false) else (g, throws (ipsm_mem_error e))
  ]
]

-- `release_lock`, as built without NDEBUG.
unfoldable pub release_lock : LockFileGuard → (flock : Answer) → LockFileGuard × Result
release_lock g flock = elim g.fd [
  | none ↦ (g, returns true)
  | some fd ↦ if not g.is_locked then (g, returns true) else elim flock [
    | ok r ↦ (record g { is_locked = false }, returns true)
    | fails e ↦ (g, throws (ipsm_mem_error e))
  ]
]

-- Whether a lock file is open.
abbrev pub has_file : LockFileGuard → Bool
has_file g = elim g.fd [ none ↦ false | some fd ↦ true ]

-- A lock that was taken is released again; without a lock file nothing happens and `false` is answered.
-- A lock that is refused leaves the guard as it was, and any error but `EWOULDBLOCK` is thrown.
pub release_lock-try_lock :
    (fd : Option ℕ) (locked : Bool) (e : ℕ)
    → let g : LockFileGuard = record { fd = fd; is_locked = locked } in
      let t = try_lock g (ok 0) in
      let f = try_lock g (fails e) in
      ((release_lock t.0 (ok 0)).0
        ≡ (if has_file g then record { fd = fd; is_locked = false } else g))
      × (t.1 ≡ returns (has_file g))
      × (f.0 ≡ g)
      × (f.1 ≡ (
          if has_file g && not (e == ewouldblock)
          then throws (ipsm_mem_error e)
          else returns false))
unfolding try_lock release_lock
release_lock-try_lock none locked e = (refl, refl, refl, refl)
release_lock-try_lock (some fd) locked e = (refl, refl, ground arith, ground arith)
