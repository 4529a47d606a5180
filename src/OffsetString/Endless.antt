-- ===== src/OffsetString/Endless.antt =====
-- The loops that count characters and do not move their pointer.
use procshared_mem.Base.{
  ℕ, zero, suc, ◌+◌, ◌≡◌, refl, true, false, Option, none, some, ◌==◌, ◌&&◌, inl, inr,
  if◌then◌else◌, Bool-cases, arith,
}
use procshared_mem.OffsetString.{State, done, construct, empty}
use procshared_mem.OffsetString.Counting.{
  copy_text, exchange_texts, construct_text, size_loop, size, swap_copying,
}

size_loop-spins :
    (fuel : ℕ) (f : ℕ → ℕ) (p ans : ℕ) → (f p == 0) ≡ false → size_loop fuel f p ans ≡ none
unfolding size_loop
size_loop-spins zero f p ans e = refl
size_loop-spins (suc fuel) f p ans e = rw (e, size_loop) (size_loop-spins fuel f p (ans + 1) e)

size_loop-ends :
    (fuel : ℕ) (f : ℕ → ℕ) (p ans : ℕ) → f p ≡ 0 → size_loop (suc fuel) f p ans ≡ some ans
unfolding size_loop
size_loop-ends fuel f p ans e = rw (e, size_loop) refl

size-ends :
    (fuel : ℕ) (st : State) (this : ℕ) → empty st this ≡ true → size (suc fuel) st this ≡ some 0
unfolding size empty
size-ends fuel st this e =
    size_loop-ends fuel st.chars (st.strs this).op_string 0 (ground (arith, e))

size-spins : (fuel : ℕ) (st : State) (this : ℕ) → empty st this ≡ false → size fuel st this ≡ none
unfolding size empty
size-spins fuel st this e = size_loop-spins fuel st.chars (st.strs this).op_string 0 e

size_lem :
    (fuel : ℕ) (st : State) (this : ℕ)
    → size (suc fuel) st this ≡ (if empty st this then some 0 else none)
size_lem fuel st this = elim (Bool-cases (empty st this)) [
  | inl e ↦ rw e (size-ends fuel st this e)
  | inr e ↦ rw e (size-spins (suc fuel) st this e)
]

construct_text-one :
    (fuel : ℕ) (st : State) (this s a : ℕ) (ans : Option ℕ)
    → let st0 = construct st this a in
      construct_text (suc fuel) st this s a ans
      ≡ (if st0.chars s == 0 then some (copy_text st0 this s 1 ans) else none)
unfolding construct_text
construct_text-one fuel st this s a ans =
    let st0 = construct st this a in
    elim (Bool-cases (st0.chars s == 0)) [
      | inl e ↦ rw (e, construct_text) refl
      | inr e ↦ rw (e, size_loop-spins fuel st0.chars s 1 e, construct_text) refl
    ]

swap_copying-empty :
    (fuel : ℕ) (st : State) (this str : ℕ) (ans ans' : Option ℕ)
    → swap_copying (suc fuel) st this str ans ans' ≡ (
        if this == str
        then some (done st)
        else if empty st this && empty st str
        then some (exchange_texts st this str 1 1 ans ans')
        else none)
unfolding swap_copying
swap_copying-empty fuel st this str ans ans' = elim (Bool-cases (this == str)) [
  | inl e ↦ rw (e, swap_copying) refl
  | inr d ↦ elim (Bool-cases (empty st this)) [
    | inr f ↦ rw (d, f, size-spins (suc fuel) st this f, swap_copying) refl
    | inl f ↦ elim (Bool-cases (empty st str)) [
      | inr g ↦
          rw (d, f, g, size-ends fuel st this f, size-spins (suc fuel) st str g, swap_copying) refl
      | inl g ↦ rw (d, f, g, size-ends fuel st this f, size-ends fuel st str g, swap_copying) refl
    ]
  ]
]

-- `size` returns, and answers 0, exactly when the string is empty; of a string that is not empty it
-- never returns, whatever the fuel. The constructor from a text returns exactly when the text is empty,
-- and a swap that copies exactly when it swaps a string with itself or two empty strings.
pub size-empty :
    (fuel : ℕ) (st : State) (this str s a : ℕ) (ans ans' : Option ℕ)
    → let st0 = construct st this a in
      (size (suc fuel) st this ≡ (if empty st this then some 0 else none))
      × (construct_text (suc fuel) st this s a ans
          ≡ (if st0.chars s == 0 then some (copy_text st0 this s 1 ans) else none))
      × (swap_copying (suc fuel) st this str ans ans' ≡ (
          if this == str
          then some (done st)
          else if empty st this && empty st str
          then some (exchange_texts st this str 1 1 ans ans')
          else none))
size-empty fuel st this str s a ans ans' = (
  size_lem fuel st this,
  construct_text-one fuel st this s a ans,
  swap_copying-empty fuel st this str ans ans',
)
