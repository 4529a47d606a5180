-- ===== src/Base/Word.antt =====
-- `uintptr_t` and `size_t` of a 64-bit target: numbers below 2 ^ 64, with their wrap-around.
use Prim.Native.Nat.{ℕ, ◌+◌, ◌-◌, ◌%◌, ◌^◌, ◌<◌}

abbrev pub word_mod : ℕ
word_mod = 2 ^ 64

abbrev pub IsWord : ℕ → Type 0
IsWord n = n < word_mod

abbrev pub add_word : ℕ → ℕ → ℕ
add_word a b = (a + b) % word_mod

abbrev pub sub_word : ℕ → ℕ → ℕ
sub_word a b = (a + word_mod - b) % word_mod
