-- ===== src/Time.antt =====
-- daemon/retif_utils.c, the functions on `struct timespec`.
-- Seconds and nanoseconds are not below zero and stay in the range of `long`; the results of type
-- `uint64_t` and `uint32_t` wrap around.
pub mod Arithmetic
use retif.Common.{ℕ, ◌+◌, ◌-◌, ◌*◌, ◌/◌, ◌%◌, ◌^◌, ltb, if◌then◌else◌}
use retif.Common.Int.{ℤ, pos, negsuc}

pub record Timespec : Type 0 where
  pub tv_sec : ℕ
  pub tv_nsec : ℕ

-- The carry of `time_add_us` and `time_add_ms`, whose test is `>`.
unfoldable pub carry : Timespec → Timespec
carry t =
    if ltb 1_000_000_000 t.tv_nsec
    then record { tv_sec = t.tv_sec + 1; tv_nsec = t.tv_nsec - 1_000_000_000 }
    else t

unfoldable pub time_add_us : Timespec → ℕ → Timespec
unfolding carry
time_add_us t us =
    carry
      (record { tv_sec = t.tv_sec + us / 1_000_000; tv_nsec = t.tv_nsec + us % 1_000_000 * 1_000 })

unfoldable pub time_add_ms : Timespec → ℕ → Timespec
unfolding carry
time_add_ms t ms =
    carry (record { tv_sec = t.tv_sec + ms / 1_000; tv_nsec = t.tv_nsec + ms % 1_000 * 1_000_000 })

unfoldable pub time_cmp : Timespec → Timespec → ℤ
time_cmp t1 t2 =
    if ltb t2.tv_sec t1.tv_sec
    then pos 1
    else if ltb t1.tv_sec t2.tv_sec
    then negsuc 0
    else if ltb t2.tv_nsec t1.tv_nsec
    then pos 1
    else if ltb t1.tv_nsec t2.tv_nsec
    then negsuc 0
    else pos 0

unfoldable pub timespec_to_us : Timespec → ℕ
timespec_to_us t = (t.tv_sec * 1_000_000 + t.tv_nsec / 1_000) % 2 ^ 64

unfoldable pub us_to_timespec : ℕ → Timespec
us_to_timespec us = record { tv_sec = us / 1_000_000; tv_nsec = us % 1_000_000 * 1_000 }

unfoldable pub timespec_to_ms : Timespec → ℕ
timespec_to_ms t = (t.tv_sec * 1_000 + t.tv_nsec / 1_000_000) % 2 ^ 32

unfoldable pub ms_to_timespec : ℕ → Timespec
ms_to_timespec ms = record { tv_sec = ms / 1_000; tv_nsec = ms % 1_000 * 1_000_000 }
