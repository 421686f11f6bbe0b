-- ===== src/Scheduler/Assign.antt =====
-- daemon/retif_scheduler.c, `rtf_scheduler_test_and_assign`: which plugin a new task goes to.
use retif.Common.{ℕ, some, ◌≡◌}
use retif.Plugin.{World, Verdict}
use retif.Scheduler.{Scheduler, Loaded}
use retif.Scheduler.Choice.{Choice}

module _ {F : Type 0} (w : World F) (a : ℕ) where
  -- The plugin answers `r` to the task `a`.
  abbrev pub Says : Verdict → Loaded F → Type 0
  Says r p = p.calls.accept p.plg w a ≡ some r

  abbrev pub Answers : Loaded F → Type 0
  Answers p = (r : Verdict) × Says r p
