-- ===== src/Client/Periods.antt =====
-- lib/retif_lib.c, `rtf_task_start` and `rtf_task_wait_period`: the activations of a periodic task. `now` is what
-- `clock_gettime` returns.
use retif.Common.{ℕ, zero, suc, ◌+◌, ◌*◌, ◌%◌, ◌^◌, ◌<◌, ◌≤◌, ◌≡◌, ◌∙◌, refl, ap, arith}
use native.Mathlib.Nat.{suc-mul, add-mul}
use retif.Time.{Timespec, carry}
use retif.Time
use retif.Time.Arithmetic.{nanoseconds}
use retif.Client.{ClientTask}
use retif.Client.Doubles.{Doubles, DoubleLaws, time_add_ms, time_add_ms-exact}

abbrev pub rtf_task_get_accepted_budget : ClientTask → ℕ
rtf_task_get_accepted_budget t = t.acc_runtime

added :
    (t : Timespec) (ms : ℕ)
    → t.tv_nsec ≤ 1_000_000_000
    → (nanoseconds (Time.time_add_ms t ms) ≡ nanoseconds t + ms * 1_000_000)
      × ((Time.time_add_ms t ms).tv_nsec ≤ 1_000_000_000)
unfolding nanoseconds Time.time_add_ms carry
added t ms h = ground arith

below_limit : (t : Timespec) → nanoseconds t < 2 ^ 41 * 1_000_000_000 → t.tv_sec < 2 ^ 41
unfolding nanoseconds
below_limit t h = omega (arith, h)

module _ {D : Type 0} (d : Doubles D) where
  -- The fields are handed on as `uint32_t`.
  unfoldable pub advance : ClientTask → ClientTask
  unfolding time_add_ms
  advance t = record t {
    at = time_add_ms d t.at (t.p.period % 2 ^ 32);
    dl = time_add_ms d t.dl (t.p.deadline % 2 ^ 32);
  }

  unfoldable pub rtf_task_start : ClientTask → Timespec → ClientTask
  unfolding advance
  rtf_task_start t now = advance (record t { at = now; dl = now })

  -- The task, and the time until which the thread sleeps.
  unfoldable pub rtf_task_wait_period : ClientTask → ClientTask × Timespec
  unfolding advance
  rtf_task_wait_period t = let t' = advance t in (t', t'.at)

  -- The task after `n` more activations.
  abbrev pub waits : ℕ → ClientTask → ClientTask
  waits zero t = t
  waits (suc n) t = (rtf_task_wait_period (waits n t)).0

  waits-p : (n : ℕ) (t : ClientTask) → (waits n t).p ≡ t.p
  unfolding rtf_task_wait_period advance
  waits-p zero t = refl
  waits-p (suc n) t = waits-p n t

  -- The next activation is at `total` nanoseconds.
  abbrev IsAt : ClientTask → ℕ → Type 0
  IsAt t total = (nanoseconds t.at ≡ total) × (t.at.tv_nsec ≤ 1_000_000_000)

  advance-IsAt :
      (laws : DoubleLaws d) (t : ClientTask) (total : ℕ)
      → IsAt t total
      → total < 2 ^ 41 * 1_000_000_000
      → IsAt (advance t) (total + t.p.period % 2 ^ 32 * 1_000_000)
  unfolding advance
  advance-IsAt laws t total (at, nsec) h =
      let k = t.p.period % 2 ^ 32 in
      let exact =
        time_add_ms-exact d laws t.at k (below_limit t.at (omega (arith, at, h))) nsec
          (omega arith) in
      let (later, nsec') = added t.at k nsec in
      (
        ap nanoseconds exact ∙ later ∙ ap (λ n. n + k * 1_000_000) at,
        omega (arith, ap (λ (x : Timespec). x.tv_nsec) exact, nsec'),
      )

  waits-IsAt :
      (laws : DoubleLaws d) (n : ℕ) (t : ClientTask) (total : ℕ)
      → IsAt t total
      → total + n * (t.p.period % 2 ^ 32 * 1_000_000) < 2 ^ 41 * 1_000_000_000
      → IsAt (waits n t) (total + n * (t.p.period % 2 ^ 32 * 1_000_000))
  unfolding rtf_task_wait_period
  waits-IsAt laws zero t total is h = (omega (arith, is.0), is.1)
  waits-IsAt laws (suc n) t total is h =
      let k = t.p.period % 2 ^ 32 in
      let step = suc-mul n (k * 1_000_000) in
      let before = waits-IsAt laws n t total is (omega (arith, h, step)) in
      let same : (waits n t).p.period % 2 ^ 32 ≡ k = ap (λ p. p.period % 2 ^ 32) (waits-p n t) in
      let (at, nsec) =
        advance-IsAt laws (waits n t) (total + n * (k * 1_000_000)) before
          (omega (arith, h, step)) in
      (omega (arith, at, ap (λ m. m * 1_000_000) same, step), nsec)

  -- If `double` follows IEEE 754, `rtf_task_start` is called at the time `now`, with less than a second of
  -- nanoseconds, and the activations stay before 2^41 seconds, then after `n` calls of
  -- `rtf_task_wait_period` the next activation is exactly `n + 1` periods after `now`, with no drift from
  -- the rounding. The low 32 bits of the period, which the parameters give in microseconds, count as
  -- milliseconds.
  pub rtf_task_wait_period-start :
      (laws : DoubleLaws d) (n : ℕ) (t : ClientTask) (now : Timespec)
      → now.tv_nsec < 1_000_000_000
      → nanoseconds now + (n + 1) * (t.p.period % 2 ^ 32 * 1_000_000) < 2 ^ 41 * 1_000_000_000
      → nanoseconds (waits n (rtf_task_start t now)).at
        ≡ nanoseconds now + (n + 1) * (t.p.period % 2 ^ 32 * 1_000_000)
  unfolding rtf_task_start
  rtf_task_wait_period-start laws n t now h limit =
      let k = t.p.period % 2 ^ 32 in
      let split = add-mul n 1 (k * 1_000_000) in
      let started =
        advance-IsAt laws (record t { at = now; dl = now }) (nanoseconds now)
          (refl, omega (arith, h)) (omega (arith, limit, split)) in
      let (at, nsec) =
        waits-IsAt laws n (advance (record t { at = now; dl = now }))
          (nanoseconds now + k * 1_000_000) started (omega (arith, limit, split)) in
      omega (arith, at, split)
