-- ===== src/SharedPtr/Temporaries.antt =====
-- The counts of all control blocks through every operation.
use procshared_mem.Base.{ℕ, ◌+◌, ◌<◌, ◌≡◌, ◌≢◌, refl, inl, inr, ◌==◌, Bool-cases, arith}
use procshared_mem.Base.Tally.{update, one, tally, tally-change, tally-le, tally-pos}
use procshared_mem.SharedPtr.{
  Heap, Handle, null_handle, increment, shrd, copy_shared, copy_weak, lock,
}
use procshared_mem.SharedPtr.Objects.{State, put_shared, put_weak}
use procshared_mem.SharedPtr.Counts.{
  Good, bound, Good-increment_shrd, Good-increment_weak, Good-dispose_shrd, Good-dispose_weak,
}

abbrev pub impls : (ℕ → Handle) → ℕ → ℕ
impls f a = (f a).impl

-- Every control block counts the objects among the first `n` of each kind.
abbrev pub Counted : ℕ → State → Type 0
Counted n st = Good st.heap (tally (impls st.shared) n) (tally (impls st.weaks) n)

pub tally-impls :
    (f : ℕ → Handle) (n a c : ℕ) (x : Handle)
    → a < n
    → tally (impls (update f a x)) n c + one (f a).impl c ≡ tally (impls f) n c + one x.impl c
tally-impls f n a c x h =
    ground (arith, tally-change (impls f) (impls (update f a x)) n a c h (λ b ne. ground arith))

pub Good-same :
    (h : Heap) (S S' W W' : ℕ → ℕ)
    → Good h S W
    → ((b : ℕ) → b ≢ 0 → S' b ≡ S b)
    → ((b : ℕ) → b ≢ 0 → W' b ≡ W b)
    → Good h S' W'
Good-same h S S' W W' good es ew b hb = record {
  counts = λ l. ground (arith, es b hb, ew b hb, good b hb, l);
  disposed = λ z. ground (arith, es b hb, good b hb, z);
  gone = λ l. ground (arith, es b hb, ew b hb, good b hb, l);
}

module _ (n : ℕ) (small : n + 1 < bound) where
  -- A temporary that was counted on top takes the place of the object `this`.
  pub Counted-put_shared :
      (st : State) (this : ℕ) (h : Heap) (a : Handle)
      → this < n
      → Good h (λ b. tally (impls st.shared) n b + one a.impl b) (tally (impls st.weaks) n)
      → Counted n (put_shared st this (h, a))
  Counted-put_shared st this h a k good =
      Good-dispose_shrd h (λ b. tally (impls st.shared) n b + one a.impl b)
        (tally (impls (update st.shared this a)) n) (tally (impls st.weaks) n) (st.shared this).impl
        good
        (λ ne. (
          omega (arith, tally-pos (impls st.shared) n this k),
          ground (arith, tally-le (impls st.shared) n (st.shared this).impl),
          omega (arith, tally-le (impls st.weaks) n (st.shared this).impl),
        ))
        (λ b. tally-impls st.shared n this b a k)

  pub Counted-put_weak :
      (st : State) (this : ℕ) (h : Heap) (a : Handle)
      → this < n
      → Good h (tally (impls st.shared) n) (λ b. tally (impls st.weaks) n b + one a.impl b)
      → Counted n (put_weak st this (h, a))
  Counted-put_weak st this h a k good =
      Good-dispose_weak h (tally (impls st.shared) n)
        (λ b. tally (impls st.weaks) n b + one a.impl b) (tally (impls (update st.weaks this a)) n)
        (st.weaks this).impl good
        (λ ne. (
          omega (arith, tally-pos (impls st.weaks) n this k),
          omega (arith, tally-le (impls st.shared) n (st.weaks this).impl),
          ground (arith, tally-le (impls st.weaks) n (st.weaks this).impl),
        ))
        (λ b. tally-impls st.weaks n this b a k)

  -- The temporaries.
  pub Good-copy_shared :
      (st : State) (orig : ℕ)
      → orig < n
      → Counted n st
      → let r = copy_shared st.heap (st.shared orig) in
        Good r.0 (λ b. tally (impls st.shared) n b + one r.1.impl b) (tally (impls st.weaks) n)
  unfolding copy_shared
  Good-copy_shared st orig k good = elim (Bool-cases ((st.shared orig).impl == 0)) [
    | inl e ↦ rw e (
        Good-same st.heap (tally (impls st.shared) n) (λ b. tally (impls st.shared) n b + one 0 b)
          (tally (impls st.weaks) n) (tally (impls st.weaks) n) good (λ b hb. ground arith)
          (λ b hb. refl))
    | inr e ↦ rw e (
        Good-increment_shrd st.heap (tally (impls st.shared) n)
          (λ b. tally (impls st.shared) n b + one (st.shared orig).impl b)
          (tally (impls st.weaks) n) (st.shared orig).impl good (λ z. ground (arith, e, z))
          (tally-pos (impls st.shared) n orig k)
          (omega (arith, tally-le (impls st.shared) n (st.shared orig).impl)) (λ b. refl))
  ]

  pub Good-copy_weak :
      (st : State) (r : Handle)
      → (r.impl ≢ 0 → 0 < tally (impls st.shared) n r.impl + tally (impls st.weaks) n r.impl)
      → Counted n st
      → let t = copy_weak st.heap r in
        Good t.0 (tally (impls st.shared) n) (λ b. tally (impls st.weaks) n b + one t.1.impl b)
  unfolding copy_weak
  Good-copy_weak st r pos good = elim (Bool-cases (r.impl == 0)) [
    | inl e ↦ rw e (
        Good-same st.heap (tally (impls st.shared) n) (tally (impls st.shared) n)
          (tally (impls st.weaks) n) (λ b. tally (impls st.weaks) n b + one r.impl b) good
          (λ b hb. refl) (λ b hb. ground (arith, e)))
    | inr e ↦ rw e (
        Good-increment_weak st.heap (tally (impls st.shared) n) (tally (impls st.weaks) n)
          (λ b. tally (impls st.weaks) n b + one r.impl b) r.impl good (λ z. ground (arith, e, z))
          (pos (λ z. ground (arith, e, z))) (omega (arith, tally-le (impls st.weaks) n r.impl))
          (λ b. refl))
  ]

  pub Good-none_added :
      (st : State)
      → Counted n st
      → Good st.heap (λ b. tally (impls st.shared) n b + one 0 b) (tally (impls st.weaks) n)
  Good-none_added st good =
      Good-same st.heap (tally (impls st.shared) n) (λ b. tally (impls st.shared) n b + one 0 b)
        (tally (impls st.weaks) n) (tally (impls st.weaks) n) good (λ b hb. ground arith)
        (λ b hb. refl)

  -- A weak object whose block has a positive count of shared objects can add one.
  pub Good-one_added :
      (st : State) (w : ℕ)
      → w < n
      → Counted n st
      → (st.weaks w).impl ≢ 0
      → (st.heap.ctrl (st.weaks w).impl).shrd_refc ≢ 0
      → Good
          (increment st.heap (st.weaks w).impl shrd)
          (λ b. tally (impls st.shared) n b + one (st.weaks w).impl b)
          (tally (impls st.weaks) n)
  Good-one_added st w k good ne z =
      Good-increment_shrd st.heap (tally (impls st.shared) n)
        (λ b. tally (impls st.shared) n b + one (st.weaks w).impl b) (tally (impls st.weaks) n)
        (st.weaks w).impl good ne
        (ground (arith, good (st.weaks w).impl ne, tally-pos (impls st.weaks) n w k, z))
        (omega (arith, tally-le (impls st.shared) n (st.weaks w).impl)) (λ b. refl)

  pub Good-lock :
      (st : State) (w : ℕ)
      → w < n
      → Counted n st
      → let r = lock st.heap (st.weaks w) in
        Good r.0 (λ b. tally (impls st.shared) n b + one r.1.impl b) (tally (impls st.weaks) n)
  unfolding lock
  Good-lock st w k good = elim (Bool-cases ((st.weaks w).impl == 0)) [
    | inl e ↦ rw e (Good-none_added st good)
    | inr e ↦ elim (Bool-cases ((st.heap.ctrl (st.weaks w).impl).shrd_refc == 0)) [
      | inl z ↦ rw e (rw z (Good-none_added st good))
      | inr z ↦ rw e (
          rw z (Good-one_added st w k good (λ q. ground (arith, e, q)) (λ q. ground (arith, z, q))))
    ]
  ]

  -- A new object is made of a counted temporary.
  pub Counted-new_shared :
      (st : State) (this : ℕ) (h : Heap) (a : Handle)
      → this < n
      → (st.shared this).impl ≡ 0
      → Good h (λ b. tally (impls st.shared) n b + one a.impl b) (tally (impls st.weaks) n)
      → Counted n (record st { heap = h; shared = update st.shared this a })
  Counted-new_shared st this h a k e good =
      Good-same h (λ b. tally (impls st.shared) n b + one a.impl b)
        (tally (impls (update st.shared this a)) n) (tally (impls st.weaks) n)
        (tally (impls st.weaks) n) good
        (λ b hb. ground (arith, tally-impls st.shared n this b a k, e)) (λ b hb. refl)

  pub Counted-new_weak :
      (st : State) (this : ℕ) (h : Heap) (a : Handle)
      → this < n
      → (st.weaks this).impl ≡ 0
      → Good h (tally (impls st.shared) n) (λ b. tally (impls st.weaks) n b + one a.impl b)
      → Counted n (record st { heap = h; weaks = update st.weaks this a })
  Counted-new_weak st this h a k e good =
      Good-same h (tally (impls st.shared) n) (tally (impls st.shared) n)
        (λ b. tally (impls st.weaks) n b + one a.impl b) (tally (impls (update st.weaks this a)) n)
        good (λ b hb. refl) (λ b hb. ground (arith, tally-impls st.weaks n this b a k, e))

  -- An object that is made null leaves its count to a temporary.
  pub Good-taken_shared :
      (st : State) (orig : ℕ)
      → orig < n
      → Counted n st
      → Good st.heap
          (λ b. tally (impls (update st.shared orig null_handle)) n b + one (st.shared orig).impl b)
          (tally (impls st.weaks) n)
  Good-taken_shared st orig k good =
      Good-same st.heap (tally (impls st.shared) n)
        (λ b. tally (impls (update st.shared orig null_handle)) n b + one (st.shared orig).impl b)
        (tally (impls st.weaks) n) (tally (impls st.weaks) n) good
        (λ b hb. ground (arith, tally-impls st.shared n orig b null_handle k)) (λ b hb. refl)

  pub Good-taken_weak :
      (st : State) (r : ℕ)
      → r < n
      → Counted n st
      → Good st.heap
          (tally (impls st.shared) n)
          (λ b. tally (impls (update st.weaks r null_handle)) n b + one (st.weaks r).impl b)
  Good-taken_weak st r k good =
      Good-same st.heap (tally (impls st.shared) n) (tally (impls st.shared) n)
        (tally (impls st.weaks) n)
        (λ b. tally (impls (update st.weaks r null_handle)) n b + one (st.weaks r).impl b) good
        (λ b hb. refl) (λ b hb. ground (arith, tally-impls st.weaks n r b null_handle k))
