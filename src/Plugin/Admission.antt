-- ===== src/Plugin/Admission.antt =====
-- plugins/sched_EDF.c and plugins/sched_RM.c: what the utilisation tests decide.
use retif.Common.{
  ℕ, Bool, true, false, some, List, [], ◌∷◌, ◌++◌, length, get_elem?, All, ◌≡◌, ◌⊎◌, refl, sym,
  subst, arith, inl, inr, zero, suc,
}
use retif.Common.Int.{pos}
use retif.Floats.{Floats, FloatLaws}
use retif.Plugin.Data.{Plugin, ok, partial, refused}
use retif.Plugin.Cpus.{least_loaded_util, util_missing, utilization_test, desired_utilization_test}
use retif.Plugin.Choice.{
  InRange, Reads, LastPassing, unchanged, replaced, least_loaded_util-LastPassing, some_fits-cases,
}

All-get :
    {V : Type 0} (P : V → Type 0) (values : List V) (i : ℕ) {v : V}
    → All P values
    → get_elem? values i ≡ some v
    → P v
All-get P [] i h e = absurd (cc)
All-get P (x ∷ values) zero h e = subst P (ground arith) h.0
All-get P (x ∷ values) (suc i) h e = All-get P values i h.1 e

All-middle : (P : ℕ → Type 0) (before after : List ℕ) (x : ℕ) → All P (before ++ x ∷ after) → P x
All-middle P [] after x h = h.0
All-middle P (b ∷ before) after x h = All-middle P before after x h.1

pub LastPassing-All :
    {V : Type 0} (values : List V) (P : ℕ → Type 0) {test : V → Bool} {first best : ℕ}
    {cpus : List ℕ}
    → LastPassing values test first cpus best
    → All P (first ∷ cpus)
    → P best
LastPassing-All values P (unchanged e _) h = subst P (sym e) h.0
LastPassing-All values P (replaced before after e _ _) h =
    All-middle P before after _ (subst (All P) e h.1)

-- A plugin as rtf_plugins_init leaves it, with processors that index its arrays and with numbers in
-- the array of the free utilisation.
pub record IsSound {F : Type 0} (fl : Floats F) (p : Plugin F) : Type 0 where
  pub first : ℕ
  pub others : List ℕ
  pub some_cpu : p.cpulist ≡ first ∷ others
  pub in_range : InRange (length p.util_free_percpu) (first ∷ others)
  pub finite : All (λ f. fl.is_finite f ≡ true) p.util_free_percpu

-- A processor of the plugin has this much utilisation free.
pub record Fits {F : Type 0} (fl : Floats F) (p : Plugin F) (u : F) : Type 0 where
  pub before : List ℕ
  pub cpu : ℕ
  pub after : List ℕ
  pub listed : p.cpulist ≡ before ++ cpu ∷ after
  pub reads : Reads p.util_free_percpu (fl.leb u) true cpu

-- No processor of the plugin has.
abbrev pub NoneFits : {F : Type 0} → Floats F → Plugin F → F → Type 0
NoneFits fl p u = All (Reads p.util_free_percpu (fl.leb u) false) p.cpulist

module _ {F : Type 0} (fl : Floats F) (laws : FloatLaws fl) (p : Plugin F)
    (sound : IsSound fl p) where
  util_missing-cases :
      (u : F)
      → fl.is_finite u ≡ true
      → ((util_missing fl p u ≡ some (fl.of_int (pos 0))) × Fits fl p u)
        ⊎ ((m : F) × (util_missing fl p u ≡ some m)
            × (fl.ltb (fl.of_int (pos 0)) m ≡ true)
            × NoneFits fl p u)
  unfolding util_missing least_loaded_util
  util_missing-cases u fin = elim (some_fits-cases fl utils u p.cpulist in_range') [
    | inl found ↦ inl (
      rw found.0,
      record {
        before = found.1;
        cpu = found.2;
        after = found.3;
        listed = found.4;
        reads = found.5;
      },
    )
    | inr none_fits ↦
        let (free, best, _, chosen, last) =
          least_loaded_util-LastPassing fl utils sound.first sound.others sound.in_range in
        let small =
          LastPassing-All utils (Reads utils (fl.leb u) false) last
            (subst (All (Reads utils (fl.leb u) false)) sound.some_cpu none_fits.1) in
        inr (
          fl.sub u small.value,
          rw (none_fits.0, sound.some_cpu, chosen, small.entry) refl,
          laws.sub_pos u small.value fin
              (All-get (λ f. fl.is_finite f ≡ true) utils best sound.finite small.entry)
              small.result,
          none_fits.1,
        )
  ]
    where
      utils : List F
      utils = p.util_free_percpu

      in_range' : InRange (length utils) p.cpulist
      in_range' = subst (InRange (length utils)) (sym sound.some_cpu) sound.in_range

  -- For such a plugin and a finite utilisation, the utilisation test passes exactly when some processor of the plugin has the utilisation free.
  pub utilization_test-Fits :
      (u : F)
      → fl.is_finite u ≡ true
      → ((utilization_test fl p u ≡ some ok) × Fits fl p u)
        ⊎ ((utilization_test fl p u ≡ some refused) × NoneFits fl p u)
  unfolding utilization_test
  utilization_test-Fits u fin = elim (util_missing-cases u fin) [
    | inl fits ↦ inl (rw (fits.0, laws.zero_eq) refl, fits.1)
    | inr none_fits ↦ inr (rw (none_fits.1, laws.pos_ne none_fits.0 none_fits.2) refl, none_fits.3)
  ]

  -- For a plugin that has a processor, whose processors all index the array of the free utilisation, in
  -- which all numbers are finite, for finite utilisations and under the laws of `float`: with a desired
  -- utilisation the test does not fault, and says OK if that fits some processor, PARTIAL if only the
  -- required one fits some, and NO if neither fits any.
  pub desired_utilization_test-Fits :
      (u des : F)
      → fl.is_finite u ≡ true
      → fl.is_finite des ≡ true
      → ((desired_utilization_test fl p u des ≡ some ok) × Fits fl p des)
        ⊎ ((desired_utilization_test fl p u des ≡ some partial) × NoneFits fl p des × Fits fl p u)
        ⊎ ((desired_utilization_test fl p u des ≡ some refused)
            × NoneFits fl p des
            × NoneFits fl p u)
  unfolding desired_utilization_test
  desired_utilization_test-Fits u des fin fin' = elim (util_missing-cases des fin') [
    | inl fits_des ↦ elim (util_missing-cases u fin) [
      | inl fits ↦ inl (rw (fits.0, fits_des.0, laws.zero_eq) refl, fits_des.1)
      | inr none_fits ↦ inl (rw (none_fits.1, fits_des.0, laws.zero_eq) refl, fits_des.1)
    ]
    | inr no_des ↦ elim (util_missing-cases u fin) [
      | inl fits ↦ inr (
          inl (
            rw (fits.0, no_des.1, laws.pos_ne no_des.0 no_des.2, no_des.2, laws.zero_eq) refl,
            no_des.3,
            fits.1,
          ))
      | inr none_fits ↦ inr (
          inr (
            rw
                (
                  none_fits.1,
                  no_des.1,
                  laws.pos_ne no_des.0 no_des.2,
                  no_des.2,
                  laws.pos_ne none_fits.0 none_fits.2,
                )
                refl,
            no_des.3,
            none_fits.3,
          ))
    ]
  ]
