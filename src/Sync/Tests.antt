-- ===== src/Sync/Tests.antt =====
-- A mutex of one thread among others: it is free, this thread's, another's, this thread's after its last
-- owner died, or nobody's since its owner died.
use procshared_mem.Base.{ℕ, Bool, true, false, arith}
use procshared_mem.Sync.{eperm, ebusy, einval, edeadlk, eownerdead, Pthread, lock}
use procshared_mem.Sync.Owner.{IsRobust, Locked, lock-Locked}

data Toy : Type 0 where
  free : Toy
  mine : Toy
  other : Toy
  broken : Toy
  abandoned : Toy

abbrev toy_lock : Toy → Toy × ℕ
toy_lock free = (mine, 0)
toy_lock mine = (mine, edeadlk)
toy_lock other = (mine, 0)
toy_lock broken = (broken, edeadlk)
toy_lock abandoned = (broken, eownerdead)

abbrev toy_trylock : Toy → Toy × ℕ
toy_trylock free = (mine, 0)
toy_trylock mine = (mine, ebusy)
toy_trylock other = (other, ebusy)
toy_trylock broken = (broken, ebusy)
toy_trylock abandoned = (broken, eownerdead)

abbrev toy_unlock : Toy → Toy × ℕ
toy_unlock free = (free, eperm)
toy_unlock mine = (free, 0)
toy_unlock other = (other, eperm)
toy_unlock broken = (free, 0)
toy_unlock abandoned = (abandoned, eperm)

abbrev toy_consistent : Toy → Toy × ℕ
toy_consistent free = (free, einval)
toy_consistent mine = (mine, einval)
toy_consistent other = (other, einval)
toy_consistent broken = (mine, 0)
toy_consistent abandoned = (abandoned, einval)

abbrev is_mine : Toy → Bool
is_mine free = false
is_mine mine = true
is_mine other = false
is_mine broken = true
is_mine abandoned = false

abbrev is_broken : Toy → Bool
is_broken free = false
is_broken mine = false
is_broken other = false
is_broken broken = true
is_broken abandoned = true

abbrev toy : Pthread Toy
toy = record {
  mutex_lock = toy_lock;
  mutex_trylock = toy_trylock;
  mutex_unlock = toy_unlock;
  mutex_consistent = toy_consistent;
  mutex_destroy = λ s. (s, 0);
}

toy-IsRobust : IsRobust toy is_mine is_broken
toy-IsRobust = record {
  locks = λ s e. (ground (arith, e), ground (arith, e));
  inherits = λ s e. (ground (arith, e), ground (arith, e));
  fails = λ s e d. ground (arith, e, d);
  try_locks = λ s e. (ground (arith, e), ground (arith, e));
  try_inherits = λ s e. (ground (arith, e), ground (arith, e));
  try_fails = λ s e d. ground (arith, e, d);
  recovers = λ s e d. (ground (arith, e, d), ground (arith, e, d), ground (arith, e, d));
  frees = λ s e. (ground (arith, e), ground (arith, e));
  refuses = λ s e. (ground (arith, e), ground (arith, e));
}

lock-Locked_example : Locked toy is_mine is_broken toy-IsRobust abandoned (lock toy abandoned)
lock-Locked_example = lock-Locked toy is_mine is_broken toy-IsRobust abandoned
