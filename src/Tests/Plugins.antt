-- ===== src/Tests/Plugins.antt =====
-- The plugins.
use retif.Common.{
  ℕ, ◌+◌, ◌-◌, ◌^◌, ◌<◌, ◌≤◌, Bool, true, false, Option, some, none, List, [], ◌∷◌, length,
  get_elem?, set, All, ◌==◌, if◌then◌else◌, ◌>>=◌, ◌≡◌, ◌≢◌, ◌⊎◌, refl, arith,
}
use retif.Common.Int.{ℤ, pos, negsuc, ◌+ℤ◌, ◌-ℤ◌}
use retif.Floats.Fixed.{fixed, fixed-FloatLaws}
use retif.Task.{Task, task_get_util, task_get_des_util, task_get_des_runtime}
use retif.Taskset.{Heap}
use retif.Plugin.{
  Plugin, World, Verdict, ok, partial, refused, least_loaded_util, least_loaded_util_of,
  desired_utilization_test,
}
use retif.Plugin.Choice.{LastPassing, least_loaded_util-LastPassing}
use retif.Plugin.Admission.{IsSound, Fits, NoneFits, desired_utilization_test-Fits}
use retif.Edf
use retif.Edf.Accept.{Admits, plg_task_accept-Admits}
use retif.Edf.Schedule.{plg_task_release-schedule}
use retif.Edf.Books.{Booked, plg_task_schedule-Booked}
use retif.Rm
use retif.Rr
use retif.Rr.Priorities.{declared, Ascending, assign_priorities-InOrder}
use retif.Rm.Levels.{InOrder, Distinct, prio_of}
use retif.Rm.Priorities.{RateMonotonic, period_of, Descending, assign_priorities-RateMonotonic}
use retif.Tests.Data.{heap, world, kernel, plugin, params}

plugin-IsSound : IsSound fixed (plugin 0)
plugin-IsSound = record {
  first = 0;
  others = 1 ∷ [];
  some_cpu = refl;
  in_range = (omega arith, (omega arith, tt));
  finite = (refl, (refl, tt));
}

least_loaded_util_example :
    (free : ℤ) × (cpu : ℕ) × (get_elem? (pos 500_000 ∷ pos 900_000 ∷ []) 0 ≡ some free)
    × (least_loaded_util_of fixed (pos 500_000 ∷ pos 900_000 ∷ []) (0 ∷ 1 ∷ []) ≡ some cpu)
    × LastPassing (pos 500_000 ∷ pos 900_000 ∷ []) (fixed.ltb free) 0 (1 ∷ []) cpu
least_loaded_util_example =
    least_loaded_util-LastPassing fixed (pos 500_000 ∷ pos 900_000 ∷ []) 0 (1 ∷ [])
      (omega arith, (omega arith, tt))

desired_utilization_test_example :
    ((desired_utilization_test fixed (plugin 0) (pos 600_000) (pos 950_000) ≡ some ok)
      × Fits fixed (plugin 0) (pos 950_000))
    ⊎ ((desired_utilization_test fixed (plugin 0) (pos 600_000) (pos 950_000) ≡ some partial)
        × NoneFits fixed (plugin 0) (pos 950_000)
        × Fits fixed (plugin 0) (pos 600_000))
    ⊎ ((desired_utilization_test fixed (plugin 0) (pos 600_000) (pos 950_000) ≡ some refused)
        × NoneFits fixed (plugin 0) (pos 950_000)
        × NoneFits fixed (plugin 0) (pos 600_000))
desired_utilization_test_example =
    desired_utilization_test-Fits fixed fixed-FloatLaws (plugin 0) plugin-IsSound (pos 600_000)
      (pos 950_000) refl refl

accept_example :
    (v : Verdict) × (retif.Edf.plg_task_accept fixed (plugin 0) world 1 ≡ some v)
    × Admits fixed (plugin 0) (world.heap 1) v
accept_example =
    plg_task_accept-Admits fixed fixed-FloatLaws (plugin 0) plugin-IsSound world 1 refl refl

-- A task with a desired runtime that fits.
abbrev greedy : World ℤ
greedy = record world {
  heap = λ a. record (heap a) { params = record (params 2_000 10_000 5) { des_runtime = 4_000 } };
}

abbrev booked : Plugin ℤ × World ℤ
booked = elim (retif.Edf.plg_task_schedule fixed (plugin 0) greedy 1) [
  | none ↦ (plugin 0, greedy)
  | some r ↦ r
]

booked-run : retif.Edf.plg_task_schedule fixed (plugin 0) greedy 1 ≡ some (booked.0, booked.1)
unfolding retif.Edf.plg_task_schedule least_loaded_util retif.Common.Int.◌*ℤ◌ task_get_des_util
    retif.Task.int_of_uint64 retif.Task.task_get_min_declared desired_utilization_test task_get_util
booked-run = refl

books_example : Booked fixed (plugin 0) greedy 1 plugin-IsSound.first plugin-IsSound.others
books_example =
    plg_task_schedule-Booked fixed fixed-FloatLaws (plugin 0) plugin-IsSound greedy 1
      (omega arith, (omega arith, tt)) refl refl

release_example :
    (cpu : ℕ) × (acceptedu free : ℤ) × (res : Verdict) × (w'' : World ℤ) × (least_loaded_util fixed
        (plugin 0)
      ≡ some cpu)
    × (get_elem? (pos 500_000 ∷ pos 900_000 ∷ []) cpu ≡ some free)
    × (retif.Edf.plg_task_release kernel fixed booked.0 booked.1 1
        ≡ some (
          res,
          record (plugin 0) {
            util_free_percpu =
                set (pos 500_000 ∷ pos 900_000 ∷ []) cpu (free -ℤ acceptedu +ℤ acceptedu);
          },
          w'',
        ))
    × ((w''.heap 1).pluginid ≡ negsuc 0)
release_example = plg_task_release-schedule fixed kernel (plugin 0) greedy 1 booked-run

assign_priorities_example :
    (heap' : Heap ℤ) × (retif.Rm.assign_priorities fixed (plugin 0) 0 heap ≡ some heap')
    × All (λ b. (2 ≤ prio_of heap' b) × (prio_of heap' b ≤ 9)) (1 ∷ 2 ∷ [])
    × RateMonotonic (period_of heap) (prio_of heap') (1 ∷ 2 ∷ [])
unfolding Distinct Descending retif.Rm.Levels.changes
assign_priorities_example =
    assign_priorities-RateMonotonic fixed (plugin 0) 0 heap
      (record { tasks = record { n = 2; root = 1 ∷ 2 ∷ [] } }) 2 refl refl refl (omega arith)
      (omega arith) (omega arith) (omega arith) (((λ e. omega (arith, e)), tt), (tt, tt))
      ((omega arith, tt), (tt, tt)) (omega arith, (omega arith, tt))

rr_assign_priorities_example :
    (heap' : Heap ℤ) × (retif.Rr.assign_priorities kernel fixed (plugin 0) 0 heap ≡ some heap')
    × All (λ b. (2 ≤ prio_of heap' b) × (prio_of heap' b ≤ 9)) (1 ∷ 2 ∷ [])
    × InOrder (declared heap) (prio_of heap') (1 ∷ 2 ∷ [])
unfolding Distinct Ascending retif.Rm.Levels.changes
rr_assign_priorities_example =
    assign_priorities-InOrder kernel fixed (plugin 0) 0 heap
      (record { tasks = record { n = 2; root = 1 ∷ 2 ∷ [] } }) 2 refl refl refl (omega arith)
      (omega arith) (omega arith) (omega arith) (((λ e. omega (arith, e)), tt), (tt, tt))
      ((omega arith, tt), (tt, tt)) (omega arith, (omega arith, tt))
