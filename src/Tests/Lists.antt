-- ===== src/Tests/Lists.antt =====
-- Lists, tasks and task sets.
use mathlib.Core.List.{Perm}
use retif.Common.{ℕ, some, List, [], ◌∷◌, ◌==◌, ◌≡◌, refl, arith}
use retif.Common.Int.{ℤ, pos, negsuc}
use retif.Floats.Fixed.{fixed}
use retif.LinkedList.{LinkedList, IsCounted, list_add_sorted, list_sort}
use retif.LinkedList.Insert.{IsSorted, list_add_sorted-IsSorted}
use retif.LinkedList.Remove.{Removed, list_remove-Removed}
use retif.LinkedList.Sort.{IsLeast, list_sort-IsLeast}
use retif.Task.{Task, task_cmp, period, task_get_util, task_get_min_declared}
use retif.Task.Compare.{task_cmp-IsComparison, task_cmp-IsMergeOrder}
use retif.Task.Utilisation.{task_get_util-wraps}
use retif.Taskset.{taskset_cmp_ppid, taskset_remove_all_by_ppid}
use retif.Taskset.Removal.{without, taskset_remove_all_by_ppid-without}
use retif.Tests.Data.{params, task, heap, scheduler}

abbrev short : Task ℤ
short = task 1 10 (pos 0) (params 1_000 5_000 1)

abbrev middle : Task ℤ
middle = task 2 10 (pos 0) (params 1_000 7_000 2)

abbrev long : Task ℤ
long = task 3 10 (pos 0) (params 1_000 10_000 3)

abbrev by_period : Task ℤ → Task ℤ → ℤ
by_period a b = task_cmp a b period (pos 1)

abbrev two : LinkedList (Task ℤ)
two = record { n = 2; root = short ∷ long ∷ [] }

abbrev three : LinkedList (Task ℤ)
three = record { n = 3; root = long ∷ short ∷ middle ∷ [] }

list_add_sorted_example :
    (after : LinkedList (Task ℤ)) × (next : List (Task ℤ)) × (list_add_sorted by_period two middle
      ≡ some (after, next))
    × IsSorted by_period after.root
    × Perm after.root (middle ∷ short ∷ long ∷ [])
unfolding task_cmp
list_add_sorted_example =
    list_add_sorted-IsSorted by_period (task_cmp-IsComparison period (pos 1)) two middle refl
      ((refl, tt), (tt, tt))

list_remove_example : Removed (λ (t : Task ℤ). t.id == 2) three
list_remove_example = list_remove-Removed (λ (t : Task ℤ). t.id == 2) three refl

list_sort_example :
    (m : Task ℤ) × (list_sort by_period three ≡ some (record { n = 3; root = m ∷ [] }))
    × IsLeast by_period m three.root
list_sort_example =
    list_sort-IsLeast by_period (task_cmp-IsMergeOrder period (pos 1)) three (omega arith)

remove_all_by_ppid_example :
    (after : LinkedList ℕ) × (taskset_remove_all_by_ppid heap scheduler.taskset 10
      ≡ some (record { tasks = after }))
    × (after.root ≡ without (taskset_cmp_ppid heap 10) (1 ∷ 2 ∷ []))
    × IsCounted after
remove_all_by_ppid_example = taskset_remove_all_by_ppid-without heap scheduler.taskset 10 refl

abbrev wrapping : Task ℤ
wrapping = task 4 10 (pos 0) (params 1_000 4_294_967_296 3)

task_get_util_wraps_example : task_get_util fixed wrapping ≡ fixed.of_int (negsuc 0)
unfolding task_get_min_declared
task_get_util_wraps_example = task_get_util-wraps fixed wrapping refl
