-- ===== src/TimeUtil/Tests.antt =====
-- 1.9 seconds, and 0.2 seconds more.
use procshared_mem.Base.{◌≡◌, refl, ◌⊎◌, none, some, arith}
use procshared_mem.Base.Int.{pos, negsuc, ◌≤ℤ◌, ◌+ℤ◌, ◌*ℤ◌}
use procshared_mem.TimeUtil.{Timespec, ts2duration_nanoseconds, duration2timespec, plus}
use procshared_mem.TimeUtil.Normal.{IsNormal, normal, duration2timespec-IsNormal}

abbrev before : Timespec
before = record { tv_sec = pos 1; tv_nsec = pos 900000000 }

abbrev after : Timespec
after = record { tv_sec = pos 2; tv_nsec = pos 100000000 }

before-IsNormal : IsNormal before
before-IsNormal = normal 1 900000000 (omega arith)

sum : plus before (pos 200000000) ≡ some after
unfolding plus duration2timespec ts2duration_nanoseconds ◌+ℤ◌ ◌*ℤ◌
sum = refl

duration2timespec-IsNormal_example :
    ((duration2timespec (negsuc 4) ≡ none) × (negsuc 4 ≤ℤ negsuc 0))
    ⊎ ((t : Timespec) × (duration2timespec (negsuc 4) ≡ some t)
        × IsNormal t
        × (ts2duration_nanoseconds t ≡ negsuc 4)
        × (pos 0 ≤ℤ negsuc 4))
duration2timespec-IsNormal_example = duration2timespec-IsNormal (negsuc 4)
