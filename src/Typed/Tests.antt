-- ===== src/Typed/Tests.antt =====
-- Arrays of four objects of 24 bytes, in a block at 4096.
use procshared_mem.Base.{ℕ, ◌≡◌, refl, true, false, ◌==◌, arith}
use procshared_mem.Typed.{Memory, Layout, constructor_threw, new_array}
use procshared_mem.Typed.Arrays.{new_array-throws}

abbrev layout : Layout
layout = record { size = 24; align = 8 }

abbrev nothing_there : Memory
nothing_there = record { taken = λ a. false; word_at = λ a. 0; alive = λ a. false }

new_array-throws_example :
    let r = new_array layout nothing_there 4096 (λ i. i == 2) 4 in
    (r.1 ≡ constructor_threw)
    × ((a : ℕ) → r.0.alive a ≡ nothing_there.alive a)
    × (r.0.taken 4096 ≡ true)
new_array-throws_example =
    new_array-throws layout nothing_there 4096 4 2 (λ i. i == 2) (omega arith) (λ j l. refl)
      (omega arith) refl
