-- ===== src/Client/Doubles.antt =====
-- lib/retif_lib.c, `time_add_ms`, and the macros of lib/retif.h for its conversions, which are constants of type
-- `double`.
use retif.Common.{
  ℕ, ◌+◌, ◌-◌, ◌*◌, ◌/◌, ◌%◌, ◌^◌, ◌<◌, ◌≤◌, Bool, ltb, if◌then◌else◌, ◌≡◌, refl, ap, arith,
  Bool-cases, inl, inr,
}
use retif.Time.{Timespec, carry}
use retif.Time

-- The operations of `double` that the library uses: conversions from an integer that is not below zero
-- and back, which drops the fraction, and arithmetic.
pub record Doubles (D : Type 0) : Type 0 where
  pub of_nat : ℕ → D
  pub to_nat : D → ℕ
  pub add : D → D → D
  pub sub : D → D → D
  pub mul : D → D → D
  pub div : D → D → D
  pub ltb : D → D → Bool

-- IEEE 754, `double` with 53 bits: integers below 2^53 are exact, so are sums, products, differences and
-- comparisons of them in that range; and below 2^41 the 11 bits for the fraction keep the thousandths of a
-- quotient by 1000 from being rounded up to the next integer.
pub record DoubleLaws {D : Type 0} (d : Doubles D) : Type 0 where
  pub thousandths :
      (s ms : ℕ)
      → s < 2 ^ 41
      → ms < 2 ^ 32
      → d.to_nat (d.add (d.of_nat s) (d.div (d.of_nat ms) (d.of_nat 1_000))) ≡ s + ms / 1_000
  pub sum :
      (a b : ℕ)
      → a + b * 1_000_000 < 2 ^ 53
      → d.to_nat (d.add (d.of_nat a) (d.mul (d.of_nat b) (d.of_nat 1_000_000))) ≡ a + b * 1_000_000
  pub difference :
      (a b : ℕ) → b ≤ a → a < 2 ^ 53 → d.to_nat (d.sub (d.of_nat a) (d.of_nat b)) ≡ a - b
  pub below : (a b : ℕ) → a < 2 ^ 53 → b < 2 ^ 53 → d.ltb (d.of_nat a) (d.of_nat b) ≡ ltb a b

module _ {D : Type 0} (d : Doubles D) where
  -- The end of the function, whose test is `>`.
  abbrev carry_double : Timespec → Timespec
  carry_double t =
      if d.ltb (d.of_nat 1_000_000_000) (d.of_nat t.tv_nsec)
      then record {
        tv_sec = t.tv_sec + 1;
        tv_nsec = d.to_nat (d.sub (d.of_nat t.tv_nsec) (d.of_nat 1_000_000_000));
      }
      else t

  unfoldable pub time_add_ms : Timespec → ℕ → Timespec
  time_add_ms t ms = carry_double (record {
    tv_sec = d.to_nat (d.add (d.of_nat t.tv_sec) (d.div (d.of_nat ms) (d.of_nat 1_000)));
    tv_nsec =
        d.to_nat (d.add (d.of_nat t.tv_nsec) (d.mul (d.of_nat (ms % 1_000)) (d.of_nat 1_000_000)));
  })

  carry_double-carry :
      (laws : DoubleLaws d) (t : Timespec) → t.tv_nsec < 2 ^ 53 → carry_double t ≡ carry t
  unfolding carry
  carry_double-carry laws t h =
      let same = laws.below 1_000_000_000 t.tv_nsec (omega arith) h in
      elim (Bool-cases (ltb 1_000_000_000 t.tv_nsec)) [
        | inl above ↦
            let le : 1_000_000_000 ≤ t.tv_nsec = ground arith in
            rw (same, above)
              (ap (λ n. record { tv_sec = t.tv_sec + 1; tv_nsec = n })
                (laws.difference t.tv_nsec 1_000_000_000 le h))
        | inr not_above ↦ rw (same, not_above) refl
      ]

  -- The library's `time_add_ms`, which computes with doubles, agrees with the daemon's function of that name
  -- on integers, for a time before 2^41 seconds.
  pub time_add_ms-exact :
      (laws : DoubleLaws d) (t : Timespec) (ms : ℕ)
      → t.tv_sec < 2 ^ 41
      → t.tv_nsec ≤ 1_000_000_000
      → ms < 2 ^ 32
      → time_add_ms t ms ≡ retif.Time.time_add_ms t ms
  unfolding time_add_ms retif.Time.time_add_ms
  time_add_ms-exact laws t ms h h' hm =
      rw (laws.thousandths t.tv_sec ms h hm, laws.sum t.tv_nsec (ms % 1_000) (omega (arith, h')))
        (carry_double-carry laws _ (omega (arith, h')))
