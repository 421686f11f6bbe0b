-- ===== src/Config.antt =====
-- daemon/retif_config.c, daemon/retif_config.h.in: the configuration, its checks, and the kernel's
-- real-time parameters. `Yaml` and `Parse` read a configuration from a document.
mod Types
pub mod Yaml
pub mod Parse
pub mod Kernel
pub mod Cores
pub mod Valid
pub use Types.*
use retif.Common.{
  ℕ, zero, suc, ◌-◌, ◌+◌, ◌^◌, Bool, true, false, ◌&&◌, ◌||◌, not, List, [], ◌∷◌, length, leb, ◌==◌,
  if◌then◌else◌,
}
use retif.Common.Int.{ℤ, pos, negsuc, ltb_ℤ}
use retif.Floats.{Floats}
use retif.Task.{str_eq}

-- The conversion of an `int` to `size_t`.
abbrev pub to_size : ℤ → ℕ
to_size (pos n) = n
to_size (negsuc n) = 2 ^ 64 - suc n

unfoldable pub cores_present : ℕ → List ℤ → Bool
cores_present num_procs [] = true
cores_present num_procs (c ∷ cores) =
    let rest = cores_present num_procs cores in if leb num_procs (to_size c) then false else rest

-- `num_procs` is what `get_nprocs2` returns.
unfoldable pub check_cpus : ℕ → List ConfPlugin → Bool
unfolding cores_present
check_cpus num_procs [] = true
check_cpus num_procs (p ∷ plugins) =
    let rest = check_cpus num_procs plugins in
    if cores_present num_procs p.cores then rest else false

-- The loop over two arrays of cores, of which each turn takes one element off.
unfoldable pub common_from : ℕ → List ℤ → List ℤ → Bool
common_from zero xs ys = false
common_from (suc fuel) [] ys = false
common_from (suc fuel) (x ∷ xs) [] = false
common_from (suc fuel) (x ∷ xs) (y ∷ ys) =
    let next_i = common_from fuel xs (y ∷ ys) in
    let next_j = common_from fuel (x ∷ xs) ys in
    if ltb_ℤ x y then next_i else if ltb_ℤ y x then next_j else true

unfoldable pub plugins_have_common_cpus : ConfPlugin → ConfPlugin → Bool
unfolding common_from
plugins_have_common_cpus p1 p2 =
    common_from (suc (length p1.cores + length p2.cores)) p1.cores p2.cores

-- The inner loops of the two checks of pairs.
unfoldable pub windows_above : ConfPlugin → List ConfPlugin → Bool
unfolding plugins_have_common_cpus
windows_above phigh [] = true
windows_above phigh (plow ∷ plugins) =
    let rest = windows_above phigh plugins in
    if plugins_have_common_cpus phigh plow && not (ltb_ℤ plow.priority_max phigh.priority_min)
    then false
    else rest

unfoldable pub check_priority_windows : List ConfPlugin → Bool
unfolding windows_above
check_priority_windows [] = true
check_priority_windows (p ∷ plugins) =
    let rest = check_priority_windows plugins in if windows_above p plugins then rest else false

unfoldable pub check_minmax_priorities : List ConfPlugin → Bool
check_minmax_priorities [] = true
check_minmax_priorities (p ∷ plugins) =
    let rest = check_minmax_priorities plugins in
    if ltb_ℤ p.priority_max p.priority_min then false else rest

unfoldable pub name_free : List ℕ → List ConfPlugin → Bool
unfolding str_eq
name_free name [] = true
name_free name (p ∷ plugins) =
    let rest = name_free name plugins in if str_eq name p.name then false else rest

unfoldable pub check_plugin_names : List ConfPlugin → Bool
unfolding name_free
check_plugin_names [] = true
check_plugin_names (p ∷ plugins) =
    let rest = check_plugin_names plugins in if name_free p.name plugins then rest else false

module _ {F : Type 0} (fl : Floats F) where
  unfoldable pub check_max_util : ConfSystem F → Bool
  check_max_util system = not (
      fl.ltb system.sched_max_util (fl.of_int (pos 0))
      || fl.ltb (fl.of_int (pos 1)) system.sched_max_util)

  -- The checks in their order, up to the first one that fails.
  unfoldable pub configuration_valid : ℕ → Configuration F → Bool
  unfolding check_max_util check_cpus check_minmax_priorities check_priority_windows
      check_plugin_names
  configuration_valid num_procs conf =
      check_max_util conf.system
      && check_cpus num_procs conf.plugins
      && check_minmax_priorities conf.plugins
      && check_priority_windows conf.plugins
      && check_plugin_names conf.plugins
