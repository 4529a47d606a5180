-- ===== src/TimeUtil/Normal.antt =====
-- Sums and differences of time points: they are normal, and exact.
use procshared_mem.Base.{
  ℕ, ◌+◌, ◌-◌, ◌*◌, ◌/◌, ◌<◌, ◌≡◌, refl, sym, ap, ◌∙◌, ◌⊎◌, inl, inr, Option, none, some, arith,
}
use procshared_mem.Base.Int.{ℤ, pos, negsuc, ◌+ℤ◌, ◌-ℤ◌, ◌*ℤ◌, ◌≤ℤ◌, int_laws, +ℤ_cancel, +ℤ_comm}
use mathlib.Core.Option.{some-injective, none-ne-some}
use procshared_mem.TimeUtil.{
  Timespec, giga, ts2duration_nanoseconds, duration2timespec, plus, plus_left, minus, difference,
}

-- Whole seconds from 0 on, and less than a second of nanoseconds.
pub data IsNormal : Timespec → Type 0 where
  normal : (s n : ℕ) → n < giga → IsNormal (record { tv_sec = pos s; tv_nsec = pos n })

-- The conversion of a duration throws exactly below 0; otherwise its answer is normal and stands for
-- the same number of nanoseconds.
pub duration2timespec-IsNormal :
    (d : ℤ)
    → ((duration2timespec d ≡ none) × (d ≤ℤ negsuc 0))
      ⊎ ((t : Timespec) × (duration2timespec d ≡ some t)
          × IsNormal t
          × (ts2duration_nanoseconds t ≡ d)
          × (pos 0 ≤ℤ d))
unfolding duration2timespec ts2duration_nanoseconds ◌+ℤ◌ ◌*ℤ◌
duration2timespec-IsNormal (negsuc n) = inl (refl, omega arith)
duration2timespec-IsNormal (pos n) = inr (
  record { tv_sec = pos (n / giga); tv_nsec = pos (n - n / giga * giga) },
  refl,
  normal (n / giga) (n - n / giga * giga) (omega arith),
  ground arith,
  omega arith,
)

nanoseconds_of :
    (s n : ℕ)
    → ts2duration_nanoseconds (record { tv_sec = pos s; tv_nsec = pos n }) ≡ pos (s * giga + n)
unfolding ts2duration_nanoseconds ◌+ℤ◌ ◌*ℤ◌
nanoseconds_of s n = ground arith

-- A normal time point comes back from its nanoseconds.
pub duration2timespec-ts2duration :
    (t : Timespec) → IsNormal t → duration2timespec (ts2duration_nanoseconds t) ≡ some t
unfolding duration2timespec
duration2timespec-ts2duration _ (normal s n h) =
    rw (nanoseconds_of s n) (parts s n ((s * giga + n) / giga) (omega (arith, h)))
  where
    parts :
        (s n q : ℕ)
        → q ≡ s
        → Path
            (Option Timespec)
            (some (record { tv_sec = pos q; tv_nsec = pos (s * giga + n - q * giga) }))
            (some (record { tv_sec = pos s; tv_nsec = pos n }))
    parts s n q e = ground (arith, e)

sum_of :
    (t u : Timespec) (d : ℤ)
    → plus t d ≡ some u
    → ts2duration_nanoseconds u ≡ ts2duration_nanoseconds t +ℤ d
unfolding plus
sum_of t u d e = elim (duration2timespec-IsNormal (ts2duration_nanoseconds t +ℤ d)) [
  | inl n ↦ absurd (none-ne-some u (sym n.0 ∙ e))
  | inr (v, q, k, m, b) ↦ ap ts2duration_nanoseconds (some-injective _ _ (sym e ∙ q)) ∙ m
]

-- `(t + d) - d` is `t` and `(t + d) - t` is `d`, whenever `t + d` does not throw; `d + t` is `t + d`.
pub minus-plus :
    (t u : Timespec) (d : ℤ)
    → IsNormal t
    → plus t d ≡ some u
    → (minus u d ≡ some t) × (difference u t ≡ d) × (plus_left d t ≡ some u)
unfolding plus minus difference plus_left
minus-plus t u d ht e = (
  ap (λ x. duration2timespec (x -ℤ d)) (sum_of t u d e)
      ∙ ap duration2timespec (+ℤ_cancel (ts2duration_nanoseconds t) d)
      ∙ duration2timespec-ts2duration t ht,
  ap (λ x. x -ℤ ts2duration_nanoseconds t) (sum_of t u d e)
      ∙ back_again (ts2duration_nanoseconds t) d,
  ap duration2timespec (+ℤ_comm d (ts2duration_nanoseconds t)) ∙ e,
)
  where
    back_again : (a b : ℤ) → a +ℤ b -ℤ a ≡ b
    back_again a b = omega int_laws
