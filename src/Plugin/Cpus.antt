-- ===== src/Plugin/Cpus.antt =====
-- What plugins/sched_EDF.c and plugins/sched_RM.c do with the utilisation of the processors, what
-- sched_RR.c and sched_FP.c do with their task counts, and what all four do with a preference.
use retif.Common.{
  ◌==◌, ◌&&◌, ℕ, Bool, true, false, not, Option, none, some, List, [], ◌∷◌, get_elem?,
  if◌then◌else◌, ◌>>=◌,
}
use retif.Common.Int.{ℤ, pos, negsuc, ltb_ℤ}
use retif.Floats.{Floats}
use retif.Task.{Task, str_eq, task_get_preferred_plugin}
use retif.Plugin.Data.{Plugin, Verdict, ok, partial, refused}

module _ {F : Type 0} (fl : Floats F) where
  -- The loop of `least_loaded_cpu` over the processors behind the first, by free utilisation:
  -- `free_max` is not updated in the loop.
  unfoldable pub scan_util : List F → F → ℕ → List ℕ → Option ℕ
  scan_util utils free_max best [] = some best
  scan_util utils free_max best (cpu ∷ cpus) = get_elem? utils cpu >>= λ free.
      scan_util utils free_max (if fl.ltb free_max free then cpu else best) cpus

  unfoldable pub least_loaded_util_of : List F → List ℕ → Option ℕ
  unfolding scan_util
  least_loaded_util_of utils [] = none
  least_loaded_util_of utils (cpu ∷ cpus) =
      get_elem? utils cpu >>= λ free. scan_util utils free cpu cpus

  -- The loop of `eval_util_missing`: does some processor have `task_util` free?
  unfoldable pub some_fits : List F → F → List ℕ → Option Bool
  some_fits utils task_util [] = some false
  some_fits utils task_util (cpu ∷ cpus) = get_elem? utils cpu >>= λ free.
      let rest = some_fits utils task_util cpus in if fl.leb task_util free then some true else rest

  module _ (p : Plugin F) where
    unfoldable pub least_loaded_util : Option ℕ
    unfolding least_loaded_util_of
    least_loaded_util = least_loaded_util_of p.util_free_percpu p.cpulist

    unfoldable pub util_missing : F → Option F
    unfolding some_fits least_loaded_util
    util_missing task_util = some_fits p.util_free_percpu task_util p.cpulist >>= λ fits.
        if fits
        then some (fl.of_int (pos 0))
        else (least_loaded_util >>= λ cpu_min.
            get_elem? p.util_free_percpu cpu_min >>= λ free. some (fl.sub task_util free))

    unfoldable pub utilization_test : F → Option Verdict
    unfolding util_missing
    utilization_test task_util = util_missing task_util >>= λ missing.
        some (if fl.eqb missing (fl.of_int (pos 0)) then ok else refused)

    unfoldable pub desired_utilization_test : F → F → Option Verdict
    unfolding util_missing
    desired_utilization_test task_util task_des_util = util_missing task_util >>= λ missing.
        util_missing task_des_util >>= λ missing_des. some (
          if fl.eqb missing_des (fl.of_int (pos 0))
          then ok
          else if fl.ltb (fl.of_int (pos 0)) missing_des
          then (if fl.eqb missing (fl.of_int (pos 0)) then partial else refused)
          else refused)

-- The loop of `least_loaded_cpu` by task count: `min` is not updated in the loop.
unfoldable pub scan_count : List ℤ → ℤ → ℕ → List ℕ → Option ℕ
scan_count counts min best [] = some best
scan_count counts min best (cpu ∷ cpus) = get_elem? counts cpu >>= λ count.
    scan_count counts min (if ltb_ℤ count min then cpu else best) cpus

unfoldable pub least_loaded_count_of : List ℤ → List ℕ → Option ℕ
unfolding scan_count
least_loaded_count_of counts [] = none
least_loaded_count_of counts (cpu ∷ cpus) =
    get_elem? counts cpu >>= λ count. scan_count counts count cpu cpus

-- `pluginid == id`
abbrev pub is_id : ℤ → ℕ → Bool
is_id (pos n) id = n == id
is_id (negsuc n) id = false

abbrev pub is_ok : Verdict → Bool
is_ok ok = true
is_ok partial = false
is_ok refused = false

module _ {F : Type 0} where
  unfoldable pub least_loaded_count : Plugin F → Option ℕ
  unfolding least_loaded_count_of
  least_loaded_count p = least_loaded_count_of p.task_count_percpu p.cpulist

  abbrev prefers_other : Plugin F → Option (List ℕ) → Bool
  prefers_other p none = false
  prefers_other p (some preferred) = not (str_eq p.name preferred)

  unfoldable pub has_another_preference : Plugin F → Task F → Bool
  unfolding task_get_preferred_plugin
  has_another_preference p t = prefers_other p (task_get_preferred_plugin t)

  -- An OK from a plugin that the task does not prefer is partial.
  unfoldable pub downgrade : Plugin F → Task F → Verdict → Verdict
  downgrade this t test_res =
      if has_another_preference this t && is_ok test_res then partial else test_res
