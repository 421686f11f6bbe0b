-- ===== src/Time/Arithmetic.antt =====
-- daemon/retif_utils.c: additions to a time keep the sum, conversions go back and forth.
use retif.Common.{ℕ, ◌+◌, ◌*◌, ◌^◌, ◌<◌, ◌≤◌, ◌↔◌, ◌≡◌, arith}
use retif.Common.Int.{pos}
use retif.Time.{Timespec, carry, time_add_us, time_add_ms, time_cmp, timespec_to_us, us_to_timespec}

-- A time in nanoseconds.
unfoldable pub nanoseconds : Timespec → ℕ
nanoseconds t = t.tv_sec * 1_000_000_000 + t.tv_nsec

-- After `time_add_us` on a time with less than a second of nanoseconds, the time is later by exactly
-- `us` microseconds, and its nanoseconds are at most a second.
pub time_add_us-nanoseconds :
    (t : Timespec) (us : ℕ)
    → t.tv_nsec < 1_000_000_000
    → (nanoseconds (time_add_us t us) ≡ nanoseconds t + us * 1_000)
      × ((time_add_us t us).tv_nsec ≤ 1_000_000_000)
unfolding nanoseconds time_add_us carry
time_add_us-nanoseconds t us h = ground arith

-- After `time_add_ms` on a time with less than a second of nanoseconds, the time is later by exactly
-- `ms` milliseconds, and its nanoseconds are at most a second.
pub time_add_ms-nanoseconds :
    (t : Timespec) (ms : ℕ)
    → t.tv_nsec < 1_000_000_000
    → (nanoseconds (time_add_ms t ms) ≡ nanoseconds t + ms * 1_000_000)
      × ((time_add_ms t ms).tv_nsec ≤ 1_000_000_000)
unfolding nanoseconds time_add_ms carry
time_add_ms-nanoseconds t ms h = ground arith

-- A number of microseconds below 2^64 that is made a `struct timespec` and read back is the same
-- number.
pub us_to_timespec-timespec_to_us : (us : ℕ) → us < 2 ^ 64 → timespec_to_us (us_to_timespec us) ≡ us
unfolding timespec_to_us us_to_timespec
us_to_timespec-timespec_to_us us h = omega arith

-- On times with less than a second of nanoseconds, `time_cmp` returns 1 if and only if the first is
-- later.
pub time_cmp-later :
    (t1 t2 : Timespec)
    → t1.tv_nsec < 1_000_000_000
    → t2.tv_nsec < 1_000_000_000
    → (time_cmp t1 t2 ≡ pos 1) ↔ (nanoseconds t2 < nanoseconds t1)
unfolding time_cmp nanoseconds
time_cmp-later t1 t2 h1 h2 = ground arith
