-- ===== src/Tests/Configs.antt =====
-- A configuration of two plugins that share a core, and the kernel's parameters.
use retif.Common.{
  ℕ, Bool, true, false, Option, none, some, List, [], ◌∷◌, All, ◌==◌, if◌then◌else◌, ◌≡◌, ◌↔◌, refl,
}
use retif.Common.Int.{ℤ, pos, negsuc}
use retif.Floats.Fixed.{fixed}
use retif.Config.{ConfPlugin, ConfSystem, Configuration, configuration_valid}
use retif.Config.Yaml.{Node, scalar, sequence}
use retif.Config.Parse.CoreList.{parse_conf_plugins_item_cores}
use retif.Config.Parse.Failures.{Takes, parse_conf_plugins_item_cores-Takes}
use retif.Config.Cores.{IsAscending}
use retif.Config.Valid.{IsConsistent, configuration_valid-IsConsistent}
use retif.Config.Kernel.{
  Proc, Contents, ProcBackup, rr_timeslice_file, rt_runtime_file, rt_period_file,
  save_rt_kernel_params, set_rt_kernel_params, restore_rt_kernel_params,
  restore_rt_kernel_params-save,
}

abbrev above : ConfPlugin
above = record {
  name = 65 ∷ [];
  plugin_path = [];
  priority_min = pos 50;
  priority_max = pos 60;
  cores = pos 0 ∷ pos 1 ∷ [];
}

abbrev below : ConfPlugin
below = record {
  name = 66 ∷ [];
  plugin_path = [];
  priority_min = pos 10;
  priority_max = pos 20;
  cores = pos 1 ∷ pos 2 ∷ [];
}

abbrev system : ConfSystem ℤ
system = record { rr_timeslice = pos 100; sched_max_util = pos 950_000 }

abbrev configuration : Configuration ℤ
configuration = record { system = system; plugins = above ∷ below ∷ [] }

ascending : All (λ p. IsAscending p.cores) configuration.plugins
unfolding IsAscending
ascending = (((refl, tt), (tt, tt)), (((refl, tt), (tt, tt)), tt))

accepted_test : configuration_valid fixed 4 configuration ≡ true
unfolding configuration_valid retif.Common.Int.◌*ℤ◌
accepted_test = refl

configuration_valid_example :
    (configuration_valid fixed 4 configuration ≡ true) ↔ IsConsistent fixed 4 configuration
configuration_valid_example = configuration_valid-IsConsistent fixed 4 configuration ascending

abbrev proc : Proc
proc = record { opens_read = λ f. true; opens_write = λ f. true; takes = λ f value. true }

abbrev files : Contents
files rr_timeslice_file = some (pos 90)
files rt_runtime_file = some (pos 950_000)
files rt_period_file = some (pos 1_000_000)

abbrev backup : ProcBackup
backup = record { rr_timeslice = pos 0; rt_runtime = pos 0 }

restore_example :
    (let saved = save_rt_kernel_params proc files backup in
      let set = set_rt_kernel_params proc files system in
      let restored = restore_rt_kernel_params proc set.1 saved.1 in
      (saved.0 ≡ pos 0)
      × (set.0 ≡ pos 0)
      × (restored.0 ≡ pos 0)
      × (restored.1 rr_timeslice_file ≡ some (pos 90))
      × (restored.1 rt_runtime_file ≡ some (pos 950_000)))
restore_example =
    restore_rt_kernel_params-save proc files system backup (pos 90) (pos 950_000) (λ f. refl)
      (λ f. refl) refl refl refl refl

-- The cores of a plugin are given as a sequence of a number and of text that is no number.
abbrev document : ℕ → Option Node
document i = if i == 1 then some (scalar (b'3' ∷ [])) else some (scalar (b'a' ∷ []))

cores_example :
    (cores : List ℤ) × (errno' : Bool) × (parse_conf_plugins_item_cores document
        (sequence (1 ∷ 2 ∷ []))
        above
        false
      ≡ some (0, record above { cores = cores }, errno'))
    × Takes document (1 ∷ 2 ∷ []) cores
cores_example =
    parse_conf_plugins_item_cores-Takes document (1 ∷ 2 ∷ []) above
      ((scalar (b'3' ∷ []), refl), ((scalar (b'a' ∷ []), refl), tt))
