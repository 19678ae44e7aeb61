-- ===== src/TimerWrapper.antt =====
-- src/TimerWrapper.cpp: the conversions between milliseconds and `struct timespec`.
use miptp_cpp.Prelude.{
  ℕ, ◌+◌, ◌*◌, ◌/◌, ◌%◌, ◌<◌, ◌≡◌, Option, none, some, ltb, if◌then◌else◌, arith,
}

pub record Timespec : Type 0 where
  pub tv_sec : ℕ
  pub tv_nsec : ℕ

unfoldable pub timespec_to_ms : Timespec → ℕ
timespec_to_ms t = t.tv_sec * 1000 + t.tv_nsec / 1000000

-- `none` is the failed assertion.
unfoldable pub ms_to_timespec : ℕ → Option Timespec
ms_to_timespec ms =
    if ltb 0 ms then some (record { tv_sec = ms / 1000; tv_nsec = ms % 1000 * 1000000 }) else none

-- A positive time is converted to a valid timespec (the nanoseconds are below a second, and it is
-- not zero, which would disarm the timer), and converting back gives the time.
pub ms_to_timespec_roundtrip :
    (ms : ℕ)
    → 0 < ms
    → (t : Timespec) × (ms_to_timespec ms ≡ some t)
      × (t.tv_nsec < 1000000000)
      × (0 < t.tv_sec + t.tv_nsec)
      × (timespec_to_ms t ≡ ms)
unfolding ms_to_timespec timespec_to_ms
ms_to_timespec_roundtrip ms h = (
  record { tv_sec = ms / 1000; tv_nsec = ms % 1000 * 1000000 },
  ground arith,
  omega arith,
  omega arith,
  omega arith,
)
