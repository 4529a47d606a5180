-- ===== src/OffsetPtr/MovedTests.antt =====
-- A region of 64 bytes that is mapped at 0x1000 and at 0x5000, with objects of 8 bytes.
use procshared_mem.Base.{
  ℕ, ◌+◌, ◌≡◌, refl, true, false, none, some, List, [], ◌∷◌, ◌==◌, if◌then◌else◌, Bool-cases, inl,
  inr, arith,
}
use procshared_mem.OffsetPtr.{Offsets, get, calc_address, eq, ne, lt, le, gt, ge}
use procshared_mem.OffsetPtr.Relocate.{
  Places, Represents, Call, builds, copies, adds, moves, swaps, place_call,
}
use procshared_mem.OffsetPtr.Moved.{run_calls, place_run, run_calls-moved, compare-moved}
use procshared_mem.OffsetPtr.Null.{
  eq_null, ne_null, lt_null, le_null, gt_null, ge_null, null_eq, null_ne, null_lt, null_le, null_gt,
  null_ge, compare-null,
}

abbrev nulls : Offsets
nulls a = 0

abbrev no_places : Places
no_places i = none

-- The object at 8 comes to stand for 40, is moved to 16 and swapped with the one at 0.
abbrev calls : List Call
calls = builds 0 (some 32) ∷ copies 8 0 ∷ adds 8 1 ∷ moves 16 8 ∷ swaps 0 16 ∷ []

run_calls-moved_example :
    (run_calls 8 0x1000 nulls calls 0x1000 ≡ run_calls 8 0x5000 nulls calls 0x5000)
    × (get (run_calls 8 0x1000 nulls calls) 0x1000 ≡ 0x1028)
    × (get (run_calls 8 0x5000 nulls calls) 0x5000 ≡ 0x5028)
unfolding place_call place_run
run_calls-moved_example =
    run_calls-moved 64 8 0x1000 0x5000 nulls nulls no_places calls (omega arith) (omega arith)
      (omega arith) (omega arith) (omega arith) (λ i l. (refl, tt)) (λ i l. (refl, tt))
      (omega arith) 0 (omega arith)

-- The object at 8 stands for the place 24, the others are null.
abbrev pointing : ℕ → Offsets
pointing base a = if a == base + 8 then 16 else 0

abbrev pointing_places : Places
pointing_places i = if i == 8 then some 24 else none

pointing-Represents : (base : ℕ) → Represents 64 base (pointing base) pointing_places
pointing-Represents base i l = elim (Bool-cases (i == 8)) [
  | inl e ↦ let at : i ≡ 8 = ground (arith, e) in rw at (ground arith)
  | inr e ↦ rw e (ground (arith, e))
]

compare-moved_example :
    (eq (pointing 0x1000) 0x1008 0x1000 ≡ eq (pointing 0x5000) 0x5008 0x5000)
    × (ne (pointing 0x1000) 0x1008 0x1000 ≡ ne (pointing 0x5000) 0x5008 0x5000)
    × (lt (pointing 0x1000) 0x1008 0x1000 ≡ lt (pointing 0x5000) 0x5008 0x5000)
    × (le (pointing 0x1000) 0x1008 0x1000 ≡ le (pointing 0x5000) 0x5008 0x5000)
    × (gt (pointing 0x1000) 0x1008 0x1000 ≡ gt (pointing 0x5000) 0x5008 0x5000)
    × (ge (pointing 0x1000) 0x1008 0x1000 ≡ ge (pointing 0x5000) 0x5008 0x5000)
compare-moved_example =
    compare-moved 64 0x1000 0x5000 (pointing 0x1000) (pointing 0x5000) pointing_places 8 0
      (omega arith) (omega arith) (omega arith) (omega arith) (pointing-Represents 0x1000)
      (pointing-Represents 0x5000) (omega arith) (omega arith)

compare-null_example :
    (eq_null (pointing 0x1000) 0x1008 0x2000 ≡ false)
    × (ne_null (pointing 0x1000) 0x1008 0x2000 ≡ true)
    × (lt_null (pointing 0x1000) 0x1008 0x2000 ≡ false)
    × (le_null (pointing 0x1000) 0x1008 0x2000 ≡ false)
    × (gt_null (pointing 0x1000) 0x1008 0x2000 ≡ true)
    × (ge_null (pointing 0x1000) 0x1008 0x2000 ≡ true)
    × (null_eq (pointing 0x1000) 0x2000 0x1008 ≡ false)
    × (null_ne (pointing 0x1000) 0x2000 0x1008 ≡ true)
    × (null_lt (pointing 0x1000) 0x2000 0x1008 ≡ true)
    × (null_le (pointing 0x1000) 0x2000 0x1008 ≡ true)
    × (null_gt (pointing 0x1000) 0x2000 0x1008 ≡ false)
    × (null_ge (pointing 0x1000) 0x2000 0x1008 ≡ false)
unfolding get calc_address
compare-null_example = compare-null (pointing 0x1000) 0x1008 0x2000 (omega arith)
