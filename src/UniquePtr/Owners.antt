-- ===== src/UniquePtr/Owners.antt =====
-- Ownership: through every operation, the objects that hold a pointer and the calls of a deleter on it
-- add up.
use procshared_mem.Base.{
  ℕ, zero, suc, List, ◌+◌, ◌≤◌, ◌==◌, Bool-cases, inl, inr, ◌<◌, ◌≡◌, ◌≢◌, refl, ◌∙◌, ◌⊎◌, arith,
}
use procshared_mem.Base.Tally.{one, tally, count, tally-change, count-cons}
use procshared_mem.UniquePtr.{
  Memory, call_deleter, construct, set_target, get, release, reset, destroy, move_construct,
  convert_construct, move_assign, swap,
}

abbrev pub targets : Memory → ℕ → ℕ
targets m b = (m.objects b).op_target

-- The objects among the first `n` that hold `p`, and the calls of a deleter on `p`.
abbrev pub account : Memory → ℕ → ℕ → ℕ
account m n p = tally (targets m) n p + count m.deleted p

pub count-call_deleter :
    (deleted : List ℕ) (q p : ℕ)
    → p ≢ 0
    → count (call_deleter deleted q) p ≡ one q p + count deleted p
unfolding call_deleter
count-call_deleter deleted q p h = ground (arith, count-cons deleted q p)

module _ (n p : ℕ) (hp : p ≢ 0) where
  pub account-construct :
      (m : Memory) (this q d : ℕ)
      → this < n
      → account (construct m this q d) n p + one (get m this) p ≡ account m n p + one q p
  unfolding construct get
  account-construct m this q d h = ground (
    arith,
    tally-change (targets m) (targets (construct m this q d)) n this p h (λ b ne. ground arith),
  )

  pub account-set_target :
      (m : Memory) (this q : ℕ)
      → this < n
      → account (set_target m this q) n p + one (get m this) p ≡ account m n p + one q p
  unfolding set_target get
  account-set_target m this q h = ground (
    arith,
    tally-change (targets m) (targets (set_target m this q)) n this p h (λ b ne. ground arith),
  )

  -- `reset` calls the deleter on the pointer that it replaces, once, and takes the new one: what held
  -- before and the new pointer are accounted for.
  pub account-reset :
      (m : Memory) (this q : ℕ) → this < n → account (reset m this q) n p ≡ account m n p + one q p
  unfolding reset get
  account-reset m this q h = ground (
    arith,
    account-set_target (record m { deleted = call_deleter m.deleted (get m this) }) this q h,
    count-call_deleter m.deleted (get m this) p hp,
  )

  -- A release takes one holder of the pointer it answers out of the account.
  pub account-release :
      (m : Memory) (this : ℕ)
      → this < n
      → account (release m this).1 n p + one (release m this).0 p ≡ account m n p
  unfolding release get
  account-release m this h = ground (arith, account-set_target m this 0 h)

  pub account-move_construct :
      (m : Memory) (this u : ℕ)
      → this < n
      → u < n
      → get m this ≡ 0
      → account (move_construct m this u) n p ≡ account m n p
  unfolding move_construct get set_target
  account-move_construct m this u h k e = ground (
    arith,
    account-set_target m u 0 k,
    account-construct (set_target m u 0) this (get m u) (m.objects u).deleter h,
  )

  pub account-convert_construct :
      (m : Memory) (this u : ℕ)
      → this < n
      → u < n
      → get m this ≡ 0
      → account (convert_construct m this u) n p ≡ account m n p
  unfolding convert_construct get set_target release
  account-convert_construct m this u h k e = ground (
    arith,
    account-set_target m u 0 k,
    account-construct (set_target m u 0) this (get m u) ((set_target m u 0).objects u).deleter h,
  )

  pub account-move_assign :
      (m : Memory) (this x : ℕ)
      → this < n
      → x < n
      → account (move_assign m this x) n p ≡ account m n p
  unfolding move_assign get set_target reset
  account-move_assign m this x h k = ground (
    arith,
    account-reset m this 0 h,
    account-set_target (reset m this 0) x 0 k,
    account-construct (set_target (reset m this 0) x 0) this (get (reset m this 0) x)
        ((reset m this 0).objects x).deleter h,
  )

  pub account-swap :
      (m : Memory) (this x : ℕ) → this < n → x < n → account (swap m this x) n p ≡ account m n p
  unfolding swap get construct
  account-swap m this x h k = ground (
    arith,
    account-construct m this (get m x) (m.objects x).deleter h,
    account-construct (construct m this (get m x) (m.objects x).deleter) x (get m this)
        (m.objects this).deleter k,
  )

-- What a program does with `n` objects that exist, once their pointers were handed over.
pub data Step (n : ℕ) : Memory → Memory → Type 0 where
  resets : (m : Memory) (this : ℕ) → this < n → Step n m (reset m this 0)
  destroys : (m : Memory) (this : ℕ) → this < n → Step n m (destroy m this)
  move_constructs :
      (m : Memory) (this u : ℕ)
      → this < n
      → u < n
      → get m this ≡ 0
      → Step n m (move_construct m this u)
  convert_constructs :
      (m : Memory) (this u : ℕ)
      → this < n
      → u < n
      → get m this ≡ 0
      → Step n m (convert_construct m this u)
  move_assigns : (m : Memory) (this x : ℕ) → this < n → x < n → Step n m (move_assign m this x)
  swaps : (m : Memory) (this x : ℕ) → this < n → x < n → Step n m (swap m this x)

pub data Run (n : ℕ) : Memory → Memory → Type 0 where
  stay : (m : Memory) → Run n m m
  then_step : (m m' m'' : Memory) → Run n m m' → Step n m' m'' → Run n m m''

account-step : (n p : ℕ) (m m' : Memory) → p ≢ 0 → Step n m m' → account m' n p ≡ account m n p
unfolding destroy
account-step n p _ _ hp (resets m this h) = ground (arith, account-reset n p hp m this 0 h)
account-step n p _ _ hp (destroys m this h) = ground (arith, account-reset n p hp m this 0 h)
account-step n p _ _ hp (move_constructs m this u h k e) =
    account-move_construct n p hp m this u h k e
account-step n p _ _ hp (convert_constructs m this u h k e) =
    account-convert_construct n p hp m this u h k e
account-step n p _ _ hp (move_assigns m this x h k) = account-move_assign n p hp m this x h k
account-step n p _ _ hp (swaps m this x h k) = account-swap n p hp m this x h k

-- The first `n` objects destroyed, as at the end of their scopes.
abbrev pub destroy_all : ℕ → Memory → Memory
destroy_all zero m = m
destroy_all (suc n) m = destroy (destroy_all n m) n

account-destroy_all :
    (k n p : ℕ) (m : Memory) → p ≢ 0 → k ≤ n → account (destroy_all k m) n p ≡ account m n p
account-destroy_all zero n p m hp h = refl
account-destroy_all (suc k) n p m hp h =
    account-step n p (destroy_all k m) (destroy_all (suc k) m) hp
      (destroys (destroy_all k m) k (omega arith))
    ∙ account-destroy_all k n p m hp (omega arith)

-- A destroyed object holds nothing.
targets-destroy_all : (k b : ℕ) (m : Memory) → b < k → targets (destroy_all k m) b ≡ 0
unfolding destroy reset set_target
targets-destroy_all zero b m h = absurd (omega (arith, h))
targets-destroy_all (suc k) b m h = elim (Bool-cases (b == k)) [
  | inl e ↦ rw (targets, e) refl
  | inr e ↦ rw (targets, e) (targets-destroy_all k b m (ground (arith, e, h)))
]

tally-nothing : (f : ℕ → ℕ) (n p : ℕ) → p ≢ 0 → ((b : ℕ) → b < n → f b ≡ 0) → tally f n p ≡ 0
unfolding tally
tally-nothing f zero p hp e = refl
tally-nothing f (suc n) p hp e =
    ground (arith, e n (omega arith), tally-nothing f n p hp (λ b h. e b (omega (arith, h))))

-- A pointer that is held by a single one of the first `n` objects and that no deleter saw: through every
-- run of resets, destructions, moves, conversions and swaps of these objects it is held by one of them,
-- or its deleter was called once and no object holds it; and once all of them are destroyed after that,
-- the deleter was called on it exactly once.
pub account-Run :
    (n p : ℕ) (m m' : Memory)
    → p ≢ 0
    → Run n m m'
    → account m n p ≡ 1
    → ((tally (targets m') n p ≡ 1 × count m'.deleted p ≡ 0)
        ⊎ (tally (targets m') n p ≡ 0 × count m'.deleted p ≡ 1))
      × (tally (targets (destroy_all n m')) n p ≡ 0)
      × (count (destroy_all n m').deleted p ≡ 1)
account-Run n p m m' hp run e =
    let none_left =
      tally-nothing (targets (destroy_all n m')) n p hp (λ b h. targets-destroy_all n b m' h) in
    (
      omega (arith, kept run),
      none_left,
      omega (arith, kept run, none_left, account-destroy_all n n p m' hp (omega arith)),
    )
  where
    kept : {m m' : Memory} → Run n m m' → account m' n p ≡ account m n p
    kept (stay m) = refl
    kept (then_step m m' m'' run s) = account-step n p m' m'' hp s ∙ kept run
