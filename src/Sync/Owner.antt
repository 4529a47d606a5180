-- ===== src/Sync/Owner.antt =====
-- Who holds the mutex after each operation, over any robust pthread mutex.
use procshared_mem.Base.{
  ℕ, ◌≡◌, ◌≢◌, refl, inl, inr, ◌⊎◌, Bool, true, false, ◌||◌, ◌==◌, Bool-cases, arith,
}
use procshared_mem.Sync.{
  eperm, ebusy, edeadlk, eownerdead, Result, ok, system_error, Pthread, recover, lock, try_lock,
  unlock,
}

-- What POSIX says of a robust mutex, as the calling thread sees it. `Mine` is a state in which it holds
-- the mutex, and `Inconsistent` one in which the last owner died with the mutex and nobody has marked it
-- consistent since, which says nothing of the data. A call that fails does not change the holder.
pub record IsRobust {ℓ} {S : Type ℓ} (os : Pthread S) (Mine Inconsistent : S → Bool) : Type ℓ where
  pub locks :
      (s : S)
      → (os.mutex_lock s).1 ≡ 0
      → (Mine (os.mutex_lock s).0 ≡ true) × (Inconsistent (os.mutex_lock s).0 ≡ false)
  pub inherits :
      (s : S)
      → (os.mutex_lock s).1 ≡ eownerdead
      → (Mine (os.mutex_lock s).0 ≡ true) × (Inconsistent (os.mutex_lock s).0 ≡ true)
  pub fails :
      (s : S)
      → (os.mutex_lock s).1 ≢ 0
      → (os.mutex_lock s).1 ≢ eownerdead
      → Mine (os.mutex_lock s).0 ≡ Mine s
  pub try_locks :
      (s : S)
      → (os.mutex_trylock s).1 ≡ 0
      → (Mine (os.mutex_trylock s).0 ≡ true) × (Inconsistent (os.mutex_trylock s).0 ≡ false)
  pub try_inherits :
      (s : S)
      → (os.mutex_trylock s).1 ≡ eownerdead
      → (Mine (os.mutex_trylock s).0 ≡ true) × (Inconsistent (os.mutex_trylock s).0 ≡ true)
  pub try_fails :
      (s : S)
      → (os.mutex_trylock s).1 ≢ 0
      → (os.mutex_trylock s).1 ≢ eownerdead
      → Mine (os.mutex_trylock s).0 ≡ Mine s
  pub recovers :
      (s : S)
      → Mine s ≡ true
      → Inconsistent s ≡ true
      → ((os.mutex_consistent s).1 ≡ 0)
        × (Mine (os.mutex_consistent s).0 ≡ true)
        × (Inconsistent (os.mutex_consistent s).0 ≡ false)
  pub frees :
      (s : S) → Mine s ≡ true → ((os.mutex_unlock s).1 ≡ 0) × (Mine (os.mutex_unlock s).0 ≡ false)
  pub refuses :
      (s : S)
      → Mine s ≡ false
      → ((os.mutex_unlock s).1 ≡ eperm) × (Mine (os.mutex_unlock s).0 ≡ false)

module _ {ℓ} {S : Type ℓ} (os : Pthread S) (Mine Inconsistent : S → Bool)
    (robust : IsRobust os Mine Inconsistent) where
  -- The lock is held, and the mutex is marked consistent; or an error is thrown, and nothing is held that was
  -- not before.
  abbrev pub Locked : S → S × Result (Unit {0}) → Type 0
  Locked s r =
      ((r.1 ≡ ok tt) × (Mine r.0 ≡ true) × (Inconsistent r.0 ≡ false))
      ⊎ ((e : ℕ) × (r.1 ≡ system_error e) × (Mine r.0 ≡ Mine s))

  abbrev pub TryLocked : S → S × Result Bool → Type 0
  TryLocked s r =
      ((r.1 ≡ ok true) × (Mine r.0 ≡ true) × (Inconsistent r.0 ≡ false))
      ⊎ ((r.1 ≡ ok false) × (Mine r.0 ≡ Mine s))
      ⊎ ((e : ℕ) × (r.1 ≡ system_error e) × (Mine r.0 ≡ Mine s))

  recovered {κ} :
      {A : Type κ} (s : S) (a b : A)
      → Mine s ≡ true
      → Inconsistent s ≡ true
      → ((recover os s a b).1 ≡ ok a)
        × (Mine (recover os s a b).0 ≡ true)
        × (Inconsistent (recover os s a b).0 ≡ false)
  unfolding recover
  recovered s a b m d = let c = robust.recovers s m d in rw c.0 (refl, c.1, c.2)

  -- `lock` returns with the mutex held and marked consistent, also where the last owner died, whatever it
  -- left in the data; where it throws, the thread holds the mutex afterwards just if it held it before.
  pub lock-Locked : (s : S) → Locked s (lock os s)
  unfolding lock
  lock-Locked s = elim (Bool-cases ((os.mutex_lock s).1 == 0)) [
    | inl e ↦ let k = robust.locks s (ground (arith, e)) in rw e (inl (refl, k.0, k.1))
    | inr e ↦ elim (Bool-cases ((os.mutex_lock s).1 == eownerdead)) [
      | inl f ↦
          let i = robust.inherits s (ground (arith, f)) in
          rw (e, f) (inl (recovered (os.mutex_lock s).0 tt tt i.0 i.1))
      | inr f ↦
          rw (e, f)
            (inr
              ((os.mutex_lock s).1, refl, robust.fails s (ground (arith, e)) (ground (arith, f))))
    ]
  ]

  -- `try_lock` answers true with the mutex held and marked consistent; where it answers false or
  -- throws, the thread holds the mutex afterwards just if it held it before.
  pub try_lock-TryLocked : (s : S) → TryLocked s (try_lock os s)
  unfolding try_lock
  try_lock-TryLocked s = elim (Bool-cases ((os.mutex_trylock s).1 == 0)) [
    | inl e ↦ let k = robust.try_locks s (ground (arith, e)) in rw e (inl (refl, k.0, k.1))
    | inr e ↦
        elim (Bool-cases
          (((os.mutex_trylock s).1 == ebusy) || ((os.mutex_trylock s).1 == edeadlk))) [
            | inl f ↦
                rw (e, f)
                  (inr (
                    inl (
                      refl,
                      robust.try_fails s (ground (arith, e)) (not_dead (os.mutex_trylock s).1 f),
                    )))
            | inr f ↦ elim (Bool-cases ((os.mutex_trylock s).1 == eownerdead)) [
              | inl g ↦
                  let i = robust.try_inherits s (ground (arith, g)) in
                  rw (e, f, g) (inl (recovered (os.mutex_trylock s).0 true false i.0 i.1))
              | inr g ↦
                  rw (e, f, g)
                    (inr (
                      inr (
                        (os.mutex_trylock s).1,
                        refl,
                        robust.try_fails s (ground (arith, e)) (ground (arith, g)),
                      )))
            ]
          ]
  ]
    where
      not_dead : (k : ℕ) → ((k == ebusy) || (k == edeadlk)) ≡ true → k ≢ eownerdead
      not_dead k f e = absurd (ground (arith, f, e))

  -- A lock that the thread took is free after `unlock`, which returns; a mutex that it does not hold is
  -- left to its owner, and `unlock` returns as well.
  pub unlock-Mine : (s : S) → ((unlock os s).1 ≡ ok tt) × (Mine (unlock os s).0 ≡ false)
  unfolding unlock
  unlock-Mine s = elim (Bool-cases (Mine s)) [
    | inl e ↦ let u = robust.frees s e in rw u.0 (refl, u.1)
    | inr e ↦ let u = robust.refuses s e in rw u.0 (refl, u.1)
  ]
