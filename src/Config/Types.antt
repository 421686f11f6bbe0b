-- ===== src/Config/Types.antt =====
-- daemon/retif_config.h.in: the data of a configuration. The rules are left out: no code reads or writes
-- them.
use retif.Common.{ℕ, List}
use retif.Common.Int.{ℤ}

-- `struct conf_plugin`. Strings are their bytes before the end.
pub record ConfPlugin : Type 0 where
  pub name : List ℕ
  pub plugin_path : List ℕ
  pub priority_min : ℤ
  pub priority_max : ℤ
  pub cores : List ℤ

-- `struct conf_system`; the `double` is a number of `F`.
pub record ConfSystem (F : Type 0) : Type 0 where
  pub rr_timeslice : ℤ
  pub sched_max_util : F

-- `struct configuration`
pub record Configuration (F : Type 0) : Type 0 where
  pub system : ConfSystem F
  pub plugins : List ConfPlugin
