-- ===== src/Task/Utilisation.antt =====
-- daemon/retif_task.c, `rtf_task_get_min_declared` and the utilisations that divide by it.
use native.Mathlib.Nat.{mod-eq_of_lt}
use retif.Common.{ℕ, ◌<◌, ◌≤◌, ◌%◌, ◌^◌, ◌≡◌, ◌≢◌, arith, ◌⊎◌}
use retif.Common.Int.{pos, negsuc}
use retif.Floats.{Floats}
use retif.Task.{Task, task_get_min_declared, task_get_util, int_of_uint64}

int_of_uint64_small : (x : ℕ) → x < 2 ^ 31 → int_of_uint64 x ≡ pos x
unfolding int_of_uint64
int_of_uint64_small x h =
    let low : x % 2 ^ 32 ≡ x = mod-eq_of_lt (omega arith) in rw (low, int_of_uint64) (ground arith)

int_of_uint64_wraps : (x : ℕ) → x % 2 ^ 32 ≡ 0 → int_of_uint64 x ≡ pos 0
unfolding int_of_uint64
int_of_uint64_wraps x h = rw (h, int_of_uint64)

module _ {F : Type 0} where
  -- `rtf_task_get_min_declared` is 0 exactly when neither the period nor the deadline is declared;
  -- otherwise it is one of the two and at most each that is declared.
  pub task_get_min_declared_lem :
      (t : Task F)
      → ((task_get_min_declared t ≡ 0) × (t.params.period ≡ 0) × (t.params.deadline ≡ 0))
        ⊎ ((task_get_min_declared t ≢ 0)
            × ((task_get_min_declared t ≡ t.params.period)
                ⊎ (task_get_min_declared t ≡ t.params.deadline))
            × ((t.params.period ≢ 0 → task_get_min_declared t ≤ t.params.period)
                × (t.params.deadline ≢ 0 → task_get_min_declared t ≤ t.params.deadline)))
  unfolding task_get_min_declared
  task_get_min_declared_lem t = ground arith

  -- A task with a runtime whose declared minimum fits an `int` has the utilisation runtime / minimum.
  pub task_get_util-div :
      (fl : Floats F) (t : Task F)
      → t.params.runtime ≢ 0
      → task_get_min_declared t ≢ 0
      → task_get_min_declared t < 2 ^ 31
      → task_get_util fl t
        ≡ fl.div (fl.of_nat t.params.runtime) (fl.of_int (pos (task_get_min_declared t)))
  unfolding task_get_util
  task_get_util-div fl t r m small =
      rw (int_of_uint64_small (task_get_min_declared t) small) (ground arith)

  -- A declared minimum that is a multiple of 2^32 microseconds counts as none: the utilisation is -1,
  -- as for a task that declares no period, whatever its runtime.
  pub task_get_util-wraps :
      (fl : Floats F) (t : Task F)
      → task_get_min_declared t % 2 ^ 32 ≡ 0
      → task_get_util fl t ≡ fl.of_int (negsuc 0)
  unfolding task_get_util
  task_get_util-wraps fl t m = rw (int_of_uint64_wraps (task_get_min_declared t) m)
