-- ===== src/TimeUtil.antt =====
-- `timespec_ct` of libipsm_mem/inc/ipsm_time_util.hpp and `call_clock_gettime` of
-- libipsm_mem/src/ipsm_time_util.cpp. Durations are counted in nanoseconds, as an integer; the counts
-- are taken to fit the 64 bits that std::chrono gives them. `clock_gettime` is a parameter: the error
-- number it leaves, or the time.
pub mod Normal
mod Tests
use procshared_mem.Base.{
  ℕ, ◌+◌, ◌-◌, ◌*◌, ◌/◌, ◌%◌, ◌≡◌, Bool, true, false, Option, none, some, ◌==◌, if◌then◌else◌,
  arith,
}
use procshared_mem.Base.Int.{ℤ, pos, negsuc, ◌+ℤ◌, ◌-ℤ◌, ◌*ℤ◌}

-- `struct timespec`.
pub record Timespec : Type 0 where
  pub tv_sec : ℤ
  pub tv_nsec : ℤ

abbrev pub giga : ℕ
giga = 1000000000

unfoldable pub ts2duration_nanoseconds : Timespec → ℤ
ts2duration_nanoseconds src = src.tv_sec *ℤ pos giga +ℤ src.tv_nsec

-- `none` is the range error for a negative time point.
unfoldable pub duration2timespec : ℤ → Option Timespec
duration2timespec (negsuc n) = none
duration2timespec (pos n) =
    let secs = n / giga in some (record { tv_sec = pos secs; tv_nsec = pos (n - secs * giga) })

unfoldable pub plus : Timespec → ℤ → Option Timespec
plus op1 op2 = duration2timespec (ts2duration_nanoseconds op1 +ℤ op2)

unfoldable pub plus_left : ℤ → Timespec → Option Timespec
plus_left op1 op2 = duration2timespec (op1 +ℤ ts2duration_nanoseconds op2)

unfoldable pub minus : Timespec → ℤ → Option Timespec
minus op1 op2 = duration2timespec (ts2duration_nanoseconds op1 -ℤ op2)

unfoldable pub minus_left : ℤ → Timespec → Option Timespec
minus_left op1 op2 = duration2timespec (op1 -ℤ ts2duration_nanoseconds op2)

unfoldable pub difference : Timespec → Timespec → ℤ
difference a b = ts2duration_nanoseconds a -ℤ ts2duration_nanoseconds b

-- `operator+=` and `operator-=`: the object, which keeps its value when the conversion throws.
unfoldable pub add_assign : Timespec → ℤ → Timespec × Bool
add_assign tsp op2 = elim (plus tsp op2) [ none ↦ (tsp, false) | some t ↦ (t, true) ]

unfoldable pub sub_assign : Timespec → ℤ → Timespec × Bool
sub_assign tsp op2 = elim (minus tsp op2) [ none ↦ (tsp, false) | some t ↦ (t, true) ]

-- What `call_clock_gettime` throws: a `std::system_error` with the error number, under a message for
-- each number that the manual names.
pub data ClockError : Type 0 where
  efault : ClockError
  einval : (clkid : ℕ) → ClockError
  eperm : ClockError
  unknown : (number : ℕ) → ClockError

pub data Clocked : Type 0 where
  time : Timespec → Clocked
  system_error : ClockError → Clocked

-- `clock_gettime` as a function of the clock: its return value, `errno` and the time.
unfoldable pub call_clock_gettime : (ℕ → ℕ × ℕ × Timespec) → ℕ → Clocked
call_clock_gettime clock_gettime clkid =
    let r = clock_gettime clkid in
    if r.0 == 0
    then time r.2
    else if r.1 == 14
    then system_error efault
    else if r.1 == 22
    then system_error (einval clkid)
    else if r.1 == 1
    then system_error eperm
    else system_error (unknown r.1)
