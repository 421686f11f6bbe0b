-- ===== src/Config/Valid.antt =====
-- daemon/retif_config.c, `configuration_valid`: what the checks accept.
use retif.Common.{
  ℕ, ◌<◌, Bool, true, false, ◌&&◌, not, List, [], ◌∷◌, All, leb, ◌==◌, if◌then◌else◌, ◌≡◌, ◌≢◌, ◌⊎◌,
  ◌↔◌, refl, ap₂, arith, inl, inr, Bool-cases,
}
use mathlib.Core.List.{head-eq_of_cons-eq, tail-eq_of_cons-eq}
use retif.Common.Int.{ℤ, pos, ltb_ℤ, ◌≤ℤ◌}
use retif.Floats.{Floats}
use retif.Task.{str_eq}
use retif.Config.{
  ConfPlugin, Configuration, to_size, cores_present, check_cpus, plugins_have_common_cpus,
  windows_above, check_priority_windows, check_minmax_priorities, name_free, check_plugin_names,
  check_max_util, configuration_valid,
}
use retif.Config.Cores.{Shared, IsAscending, plugins_have_common_cpus-Shared, clash}

-- A relation of each plugin and all those after it.
unfoldable pub Pairs : (ConfPlugin → ConfPlugin → Type 0) → List ConfPlugin → Type 0
Pairs R [] = Unit
Pairs R (p ∷ plugins) = All (R p) plugins × Pairs R plugins

-- Two plugins share no core, or the priorities of the first are all above those of the second.
abbrev pub Above : ConfPlugin → ConfPlugin → Type 0
Above high low =
    (Shared high.cores low.cores → ⊥) ⊎ (ltb_ℤ low.priority_max high.priority_min ≡ true)

abbrev pub CoresIn : ℕ → ConfPlugin → Type 0
CoresIn num_procs p = All (λ c. to_size c < num_procs) p.cores

-- What a configuration promises to the daemon.
pub record IsConsistent {F : Type 0} (fl : Floats F) (num_procs : ℕ) (conf : Configuration F)
    : Type 0 where
  pub not_below : fl.ltb conf.system.sched_max_util (fl.of_int (pos 0)) ≡ false
  pub not_above : fl.ltb (fl.of_int (pos 1)) conf.system.sched_max_util ≡ false
  pub cores : All (CoresIn num_procs) conf.plugins
  pub ranges : All (λ p. p.priority_min ≤ℤ p.priority_max) conf.plugins
  pub windows : Pairs Above conf.plugins
  pub names : Pairs (λ p q. p.name ≢ q.name) conf.plugins

-- One turn of a loop that stops at the first plugin that fails.
both-true : (b c : Bool) → (if b then c else false) ≡ true → (b ≡ true) × (c ≡ true)
both-true true c h = (refl, h)
both-true false c h = absurd (cc)

not-true : (b c : Bool) → (if b then false else c) ≡ true → (b ≡ false) × (c ≡ true)
not-true true c h = absurd (cc)
not-true false c h = (refl, h)

cores_present_iff :
    (num_procs : ℕ) (cores : List ℤ)
    → (cores_present num_procs cores ≡ true) ↔ All (λ c. to_size c < num_procs) cores
unfolding cores_present
cores_present_iff num_procs [] = (λ h. tt, λ h. refl)
cores_present_iff num_procs (c ∷ cores) =
    let (to, from) = cores_present_iff num_procs cores in
    (
      λ h.
          let (in_range, rest) = not-true (leb num_procs (to_size c)) _ h in
          (ground arith, to rest),
      λ h.
          let in_range : leb num_procs (to_size c) ≡ false = ground (arith, h.0) in
          rw in_range (from h.1),
    )

check_cpus_iff :
    (num_procs : ℕ) (plugins : List ConfPlugin)
    → (check_cpus num_procs plugins ≡ true) ↔ All (CoresIn num_procs) plugins
unfolding check_cpus
check_cpus_iff num_procs [] = (λ h. tt, λ h. refl)
check_cpus_iff num_procs (p ∷ plugins) =
    let (to, from) = check_cpus_iff num_procs plugins in
    let (one, one') = cores_present_iff num_procs p.cores in
    (
      λ h.
          let (first, rest) = both-true (cores_present num_procs p.cores) _ h in
          (one first, to rest),
      λ h. rw (one' h.0) (from h.1),
    )

check_minmax_priorities_iff :
    (plugins : List ConfPlugin)
    → (check_minmax_priorities plugins ≡ true) ↔ All (λ p. p.priority_min ≤ℤ p.priority_max) plugins
unfolding check_minmax_priorities
check_minmax_priorities_iff [] = (λ h. tt, λ h. refl)
check_minmax_priorities_iff (p ∷ plugins) =
    let (to, from) = check_minmax_priorities_iff plugins in
    (
      λ h.
          let (first, rest) = not-true (ltb_ℤ p.priority_max p.priority_min) _ h in
          (ground arith, to rest),
      λ h.
          let fine : ltb_ℤ p.priority_max p.priority_min ≡ false = ground (arith, h.0) in
          rw fine (from h.1),
    )

str_eq_iff : (cs ds : List ℕ) → (str_eq cs ds ≡ true) ↔ (cs ≡ ds)
unfolding str_eq
str_eq_iff [] [] = (λ h. refl, λ h. refl)
str_eq_iff [] (d ∷ ds) = (λ h. absurd (cc), λ h. absurd (cc))
str_eq_iff (c ∷ cs) [] = (λ h. absurd (cc), λ h. absurd (cc))
str_eq_iff (c ∷ cs) (d ∷ ds) =
    let (to, from) = str_eq_iff cs ds in
    (
      λ h.
          let same : c ≡ d = ground arith in
          let rest : str_eq cs ds ≡ true = ground arith in ap₂ (λ x xs. x ∷ xs) same (to rest),
      λ h.
          let e = head-eq_of_cons-eq h in
          let same : (c == d) ≡ true = ground (arith, e) in rw same (from (tail-eq_of_cons-eq h)),
    )

name_free_iff :
    (name : List ℕ) (plugins : List ConfPlugin)
    → (name_free name plugins ≡ true) ↔ All (λ q. name ≢ q.name) plugins
unfolding name_free
name_free_iff name [] = (λ h. tt, λ h. refl)
name_free_iff name (p ∷ plugins) =
    let (to, from) = name_free_iff name plugins in
    let (same, same') = str_eq_iff name p.name in
    (
      λ h.
          let (first, rest) = not-true (str_eq name p.name) _ h in
          ((λ e. clash (same' e) first), to rest),
      λ h. elim (Bool-cases (str_eq name p.name)) [
        | inl equal ↦ absurd (h.0 (same equal))
        | inr differs ↦ rw differs (from h.1)
      ],
    )

check_plugin_names_iff :
    (plugins : List ConfPlugin)
    → (check_plugin_names plugins ≡ true) ↔ Pairs (λ p q. p.name ≢ q.name) plugins
unfolding check_plugin_names Pairs
check_plugin_names_iff [] = (λ h. tt, λ h. refl)
check_plugin_names_iff (p ∷ plugins) =
    let (to, from) = check_plugin_names_iff plugins in
    let (one, one') = name_free_iff p.name plugins in
    (
      λ h. let (first, rest) = both-true (name_free p.name plugins) _ h in (one first, to rest),
      λ h. rw (one' h.0) (from h.1),
    )

-- One turn of the inner loop over the windows.
window_iff :
    (high low : ConfPlugin)
    → IsAscending high.cores
    → IsAscending low.cores
    → ((plugins_have_common_cpus high low && not (ltb_ℤ low.priority_max high.priority_min))
        ≡ false)
      ↔ Above high low
window_iff high low h k =
    let (to, from) = plugins_have_common_cpus-Shared high low h k in
    (
      λ fine. elim (Bool-cases (plugins_have_common_cpus high low)) [
        | inl common ↦ inr (ground arith)
        | inr apart ↦ inl (λ s. clash (from s) apart)
      ],
      λ a. elim a [
        | inl apart ↦ elim (Bool-cases (plugins_have_common_cpus high low)) [
          | inl common ↦ absurd (apart (to common))
          | inr none ↦ rw none refl
        ]
        | inr above ↦ ground arith
      ],
    )

windows_above_iff :
    (high : ConfPlugin) (plugins : List ConfPlugin)
    → IsAscending high.cores
    → All (λ p. IsAscending p.cores) plugins
    → (windows_above high plugins ≡ true) ↔ All (Above high) plugins
unfolding windows_above
windows_above_iff high [] h ks = (λ r. tt, λ r. refl)
windows_above_iff high (low ∷ plugins) h ks =
    let (to, from) = windows_above_iff high plugins h ks.1 in
    let (one, one') = window_iff high low h ks.0 in
    (
      λ r.
          let (first, rest) =
            not-true
              (plugins_have_common_cpus high low && not (ltb_ℤ low.priority_max high.priority_min))
              _ r in
          (one first, to rest),
      λ a. rw (one' a.0) (from a.1),
    )

check_priority_windows_iff :
    (plugins : List ConfPlugin)
    → All (λ p. IsAscending p.cores) plugins
    → (check_priority_windows plugins ≡ true) ↔ Pairs Above plugins
unfolding check_priority_windows Pairs
check_priority_windows_iff [] ks = (λ r. tt, λ r. refl)
check_priority_windows_iff (p ∷ plugins) ks =
    let (to, from) = check_priority_windows_iff plugins ks.1 in
    let (one, one') = windows_above_iff p plugins ks.0 ks.1 in
    (
      λ r. let (first, rest) = both-true (windows_above p plugins) _ r in (one first, to rest),
      λ a. rw (one' a.0) (from a.1),
    )

module _ {F : Type 0} (fl : Floats F) where
  -- For plugins whose lists of cores are in ascending order, `configuration_valid` accepts a configuration
  -- exactly if the utilisation is in its range, the cores are there, no window of priorities is inverted,
  -- a plugin's priorities are above those of each later plugin that it shares a core with, and no two
  -- plugins have the same name.
  pub configuration_valid-IsConsistent :
      (num_procs : ℕ) (conf : Configuration F)
      → All (λ p. IsAscending p.cores) conf.plugins
      → (configuration_valid fl num_procs conf ≡ true) ↔ IsConsistent fl num_procs conf
  unfolding configuration_valid check_max_util
  configuration_valid-IsConsistent num_procs conf ks =
      let (cpus, cpus') = check_cpus_iff num_procs conf.plugins in
      let (ranges, ranges') = check_minmax_priorities_iff conf.plugins in
      let (windows, windows') = check_priority_windows_iff conf.plugins ks in
      let (names, names') = check_plugin_names_iff conf.plugins in
      (
        λ h. record {
          not_below = ground arith;
          not_above = ground arith;
          cores = cpus (ground arith);
          ranges = ranges (ground arith);
          windows = windows (ground arith);
          names = names (ground arith);
        },
        λ c.
            rw
              (
                c.not_below,
                c.not_above,
                cpus' c.cores,
                ranges' c.ranges,
                windows' c.windows,
                names' c.names,
              )
              refl,
      )
