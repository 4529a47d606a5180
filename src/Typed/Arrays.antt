-- ===== src/Typed/Arrays.antt =====
-- An array and its deletion, and an array one of whose elements cannot be constructed.
use procshared_mem.Base.{
  ℕ, ◌<◌, ◌≡◌, ◌≢◌, refl, sym, ap, ◌∙◌, inl, inr, Bool, true, false, ◌==◌, Bool-cases, arith,
}
use procshared_mem.Base.Word.{word_mod, add_word, sub_word}
use procshared_mem.Base.Tally.{update}
use procshared_mem.Typed.{
  Memory, Layout, made, constructor_threw, need_header_size, element, new_array, delete_array,
}
use procshared_mem.Typed.Loops.{all_constructed, some_constructed, none_throws, one_throws}

header_back :
    (t : Layout) (p : ℕ)
    → p < word_mod
    → t.align < word_mod
    → sub_word (add_word p (need_header_size t)) (need_header_size t) ≡ p
unfolding need_header_size
header_back t p w v = ground (arith, w, v)

pub given_back :
    (taken : ℕ → Bool) (p a : ℕ)
    → taken p ≡ false
    → update (update taken p true) p false a ≡ taken a
given_back taken p a fresh = elim (Bool-cases (a == p)) [
  | inl e ↦ let at : a ≡ p = ground (arith, e) in rw e (sym (ap taken at ∙ fresh))
  | inr e ↦ rw e refl
]

-- An array that was made in a fresh block, where no object stood, and is deleted again: all its elements
-- are constructed, and after that every object and every block is as before, so that exactly these
-- elements are destroyed and exactly this block is given back.
pub delete_array-new_array :
    (t : Layout) (m : Memory) (p n : ℕ) (throws : ℕ → Bool)
    → p ≢ 0
    → p < word_mod
    → t.align < word_mod
    → m.taken p ≡ false
    → ((i : ℕ) → i < n → m.alive (element t (add_word p (need_header_size t)) i) ≡ false)
    → ((i : ℕ) → i < n → throws i ≡ false)
    → let r = new_array t m p throws n in
      let m' = delete_array t r.0 (add_word p (need_header_size t)) in
      (r.1 ≡ made (add_word p (need_header_size t)))
      × ((a : ℕ) → m'.alive a ≡ m.alive a)
      × ((a : ℕ) → m'.taken a ≡ m.taken a)
unfolding new_array delete_array
delete_array-new_array t m p n throws ne w v fresh free ok =
    let top = add_word p (need_header_size t) in
    let s = none_throws t top throws n m.alive ok in
    let z : (p == 0) ≡ false = ground (arith, ne) in
    let back = header_back t p w v in
    let own : (p == p) ≡ true = ground arith in
    (
      rw (z, s) refl,
      λ a. rw (z, s, back, own) (all_constructed t top throws n m.alive a free s),
      λ a. rw (z, s, back) (given_back m.taken p a fresh),
    )

-- An array whose element `i` cannot be constructed: the exception goes on, all objects are as before, but
-- the block stays handed out, and its address is not answered.
pub new_array-throws :
    (t : Layout) (m : Memory) (p n i : ℕ) (throws : ℕ → Bool)
    → p ≢ 0
    → ((j : ℕ) → j < n → m.alive (element t (add_word p (need_header_size t)) j) ≡ false)
    → i < n
    → throws i ≡ true
    → let r = new_array t m p throws n in
      (r.1 ≡ constructor_threw) × ((a : ℕ) → r.0.alive a ≡ m.alive a) × (r.0.taken p ≡ true)
unfolding new_array
new_array-throws t m p n i throws ne free l g =
    let top = add_word p (need_header_size t) in
    let s = one_throws t top throws n i m.alive l g in
    let z : (p == 0) ≡ false = ground (arith, ne) in
    (
      rw (z, s.1) refl,
      λ a. rw (z, s.1) (some_constructed t top throws n s.0 m.alive a free s.1),
      rw (z, s.1) (ground arith),
    )
