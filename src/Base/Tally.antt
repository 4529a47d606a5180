-- ===== src/Base/Tally.antt =====
-- Memories of objects: one cell changed, and the number of objects among the first `n` that hold a
-- value.
use procshared_mem.Base.{
  ℕ, zero, suc, ◌+◌, ◌≤◌, ◌<◌, ◌≡◌, ◌≢◌, true, List, [], ◌∷◌, ◌==◌, if◌then◌else◌, Bool-cases, inl,
  inr, arith,
}

abbrev pub update {ℓ} : {A : Type ℓ} → (ℕ → A) → ℕ → A → ℕ → A
update f a x b = if b == a then x else f b

abbrev pub one : ℕ → ℕ → ℕ
one x c = if x == c then 1 else 0

unfoldable pub tally : (ℕ → ℕ) → ℕ → ℕ → ℕ
tally f zero c = 0
tally f (suc n) c = one (f n) c + tally f n c

unfoldable pub count : List ℕ → ℕ → ℕ
count [] c = 0
count (x ∷ xs) c = one x c + count xs c

pub count-cons : (xs : List ℕ) (x c : ℕ) → count (x ∷ xs) c ≡ one x c + count xs c
unfolding count
count-cons xs x c = omega arith

pub tally-same : (f g : ℕ → ℕ) (n c : ℕ) → ((b : ℕ) → b < n → g b ≡ f b) → tally g n c ≡ tally f n c
unfolding tally
tally-same f g zero c same = omega arith
tally-same f g (suc n) c same =
    ground (arith, tally-same f g n c (λ b h. same b (omega arith)), same n (omega arith))

-- A cell that changes takes its old value from the count and adds its new one.
pub tally-change :
    (f g : ℕ → ℕ) (n a c : ℕ)
    → a < n
    → ((b : ℕ) → b ≢ a → g b ≡ f b)
    → tally g n c + one (f a) c ≡ tally f n c + one (g a) c
unfolding tally
tally-change f g zero a c h same = omega arith
tally-change f g (suc n) a c h same = elim (Bool-cases (n == a)) [
  | inl e ↦ ground (arith, tally-same f g n c (λ b hb. same b (λ eb. ground (arith, eb, hb, e))))
  | inr ne ↦ ground (arith, tally-change f g n a c (ground arith) same, same n (λ e. ground arith))
]

pub tally-le : (f : ℕ → ℕ) (n c : ℕ) → tally f n c ≤ n
unfolding tally
tally-le f zero c = omega arith
tally-le f (suc n) c = ground (arith, tally-le f n c)

eq-of_test : (n a : ℕ) → (n == a) ≡ true → n ≡ a
eq-of_test n a e = ground arith

pub tally-pos : (f : ℕ → ℕ) (n a : ℕ) → a < n → 0 < tally f n (f a)
unfolding tally
tally-pos f zero a h = omega arith
tally-pos f (suc n) a h = elim (Bool-cases (n == a)) [
  | inl e ↦ ground (arith, eq-of_test n a e)
  | inr ne ↦ ground (arith, tally-pos f n a (ground arith))
]
