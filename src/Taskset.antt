-- ===== src/Taskset.antt =====
-- daemon/retif_taskset.c and daemon/retif_taskset.h: a task set is a list of pointers to tasks.
-- A pointer is an address, and `heap` gives the task that stands at an address.
pub mod Removal
use retif.Common.{ℕ, zero, suc, Bool, false, Option, none, some, List, ◌==◌, if◌then◌else◌, ◌>>=◌}
use retif.Common.Int.{ℤ, pos, negsuc}
use retif.LinkedList.{
  LinkedList, list_init, list_is_empty, list_get_size, list_add_top, list_add_sorted,
  list_remove_top, list_get_top_elem, list_get_i_node, list_get_next_node, list_search_elem,
  list_sort, list_remove, iterator_init, iterator_get_next, iterator_get_elem,
}
use retif.Task.{Task, Param, runtime, period, deadline, priority, task_cmp, asc, dsc}

abbrev pub Heap : Type 0 → Type 0
Heap F = ℕ → Task F

pub record Taskset : Type 0 where
  pub tasks : LinkedList ℕ

-- What a list operation makes of the task set that holds the list.
abbrev wrap {ℓ} : {R : Type ℓ} → Option (R × LinkedList ℕ) → Option (R × Taskset)
wrap r = r >>= λ (res, l). some (res, record { tasks = l })

abbrev wrap_added : Option (LinkedList ℕ × List ℕ) → Option (Taskset × List ℕ)
wrap_added r = r >>= λ (l, next). some (record { tasks = l }, next)

abbrev pub taskset_init : Taskset
taskset_init = record { tasks = list_init }

unfoldable pub taskset_is_empty : Taskset → Bool
unfolding list_is_empty
taskset_is_empty ts = list_is_empty ts.tasks

unfoldable pub taskset_get_size : Taskset → ℕ
unfolding list_get_size
taskset_get_size ts = list_get_size ts.tasks

unfoldable pub taskset_add_top : Taskset → ℕ → Taskset
unfolding list_add_top
taskset_add_top ts task = record { tasks = list_add_top ts.tasks task }

unfoldable pub taskset_remove_top : Taskset → Option (Option ℕ × Taskset)
unfolding list_remove_top
taskset_remove_top ts = wrap (list_remove_top ts.tasks)

unfoldable pub taskset_get_top_task : Taskset → Option (Option ℕ)
unfolding list_get_top_elem
taskset_get_top_task ts = list_get_top_elem ts.tasks

unfoldable pub taskset_get_i_node : Taskset → ℕ → Option (List ℕ)
unfolding list_get_i_node
taskset_get_i_node ts i = list_get_i_node ts.tasks i

unfoldable pub taskset_get_next_node : List ℕ → List ℕ
unfolding list_get_next_node
taskset_get_next_node node = list_get_next_node node

abbrev pub taskset_iterator_init : Taskset → List ℕ
taskset_iterator_init ts = iterator_init ts.tasks

unfoldable pub taskset_iterator_get_next : List ℕ → Option (List ℕ)
unfolding iterator_get_next
taskset_iterator_get_next iterator = iterator_get_next iterator

unfoldable pub taskset_iterator_get_elem : List ℕ → Option ℕ
unfolding iterator_get_elem
taskset_iterator_get_elem iterator = iterator_get_elem iterator

-- `flag == ASC`
abbrev flag_is_asc : ℤ → Bool
flag_is_asc (pos n) = n == 1
flag_is_asc (negsuc n) = false

module _ {F : Type 0} (heap : Heap F) where
  abbrev pub taskset_cmp_deadline_asc : ℕ → ℕ → ℤ
  taskset_cmp_deadline_asc task1 task2 = task_cmp (heap task1) (heap task2) deadline asc

  abbrev pub taskset_cmp_deadline_dsc : ℕ → ℕ → ℤ
  taskset_cmp_deadline_dsc task1 task2 = task_cmp (heap task1) (heap task2) deadline dsc

  abbrev pub taskset_cmp_priority_asc : ℕ → ℕ → ℤ
  taskset_cmp_priority_asc task1 task2 = task_cmp (heap task1) (heap task2) priority asc

  abbrev pub taskset_cmp_priority_dsc : ℕ → ℕ → ℤ
  taskset_cmp_priority_dsc task1 task2 = task_cmp (heap task1) (heap task2) priority dsc

  abbrev pub taskset_cmp_period_asc : ℕ → ℕ → ℤ
  taskset_cmp_period_asc task1 task2 = task_cmp (heap task1) (heap task2) period asc

  abbrev pub taskset_cmp_period_dsc : ℕ → ℕ → ℤ
  taskset_cmp_period_dsc task1 task2 = task_cmp (heap task1) (heap task2) period dsc

  abbrev pub taskset_cmp_wcet_asc : ℕ → ℕ → ℤ
  taskset_cmp_wcet_asc task1 task2 = task_cmp (heap task1) (heap task2) runtime asc

  abbrev pub taskset_cmp_wcet_dsc : ℕ → ℕ → ℤ
  taskset_cmp_wcet_dsc task1 task2 = task_cmp (heap task1) (heap task2) runtime dsc

  abbrev pub taskset_cmp_ppid : ℕ → ℕ → Bool
  taskset_cmp_ppid ppid task = (heap task).ptid == ppid

  abbrev pub taskset_cmp_rsvid : ℕ → ℕ → Bool
  taskset_cmp_rsvid rsvid task = (heap task).id == rsvid

  -- The functions that insert return the `next` of the new node too.
  unfoldable pub taskset_add_sorted_dl : Taskset → ℕ → Option (Taskset × List ℕ)
  taskset_add_sorted_dl ts task =
      wrap_added (list_add_sorted taskset_cmp_deadline_asc ts.tasks task)

  unfoldable pub taskset_add_sorted_pr : Taskset → ℕ → Option (Taskset × List ℕ)
  taskset_add_sorted_pr ts task = wrap_added (list_add_sorted taskset_cmp_period_dsc ts.tasks task)

  unfoldable pub taskset_add_sorted_prio : Taskset → ℕ → Option (Taskset × List ℕ)
  taskset_add_sorted_prio ts task =
      wrap_added (list_add_sorted taskset_cmp_priority_asc ts.tasks task)

  unfoldable pub taskset_search : Taskset → ℕ → Option ℕ
  unfolding list_search_elem
  taskset_search ts rsvid = list_search_elem (taskset_cmp_rsvid rsvid) ts.tasks

  -- The comparison that `rtf_taskset_sort` picks.
  abbrev pub sort_cmp : Param → ℤ → ℕ → ℕ → ℤ
  sort_cmp period flag = if flag_is_asc flag then taskset_cmp_period_asc else taskset_cmp_period_dsc
  sort_cmp deadline flag =
      if flag_is_asc flag then taskset_cmp_deadline_asc else taskset_cmp_deadline_dsc
  sort_cmp priority flag =
      if flag_is_asc flag then taskset_cmp_priority_asc else taskset_cmp_priority_dsc
  sort_cmp runtime flag = if flag_is_asc flag then taskset_cmp_wcet_asc else taskset_cmp_wcet_dsc

  unfoldable pub taskset_sort : Taskset → Param → ℤ → Option Taskset
  taskset_sort ts p flag = list_sort (sort_cmp p flag) ts.tasks >>= λ l. some (record { tasks = l })

  unfoldable pub taskset_remove_by_ppid : Taskset → ℕ → Option (Option ℕ × Taskset)
  taskset_remove_by_ppid ts ppid = wrap (list_remove (taskset_cmp_ppid ppid) ts.tasks)

  unfoldable pub taskset_remove_by_rsvid : Taskset → ℕ → Option (Option ℕ × Taskset)
  taskset_remove_by_rsvid ts rsvid = wrap (list_remove (taskset_cmp_rsvid rsvid) ts.tasks)

  -- The `do … while` loop on fuel; `none` is a fault or the end of the fuel.
  pub remove_all_by_ppid : ℕ → Taskset → ℕ → Option Taskset
  remove_all_by_ppid zero ts ppid = none
  remove_all_by_ppid (suc fuel) ts ppid = taskset_remove_by_ppid ts ppid >>= λ (t, ts'). elim t [
    | none ↦ some ts'
    | some task ↦ remove_all_by_ppid fuel ts' ppid
  ]

  -- One round for each task and one more to see that none is left.
  unfoldable pub taskset_remove_all_by_ppid : Taskset → ℕ → Option Taskset
  unfolding remove_all_by_ppid
  taskset_remove_all_by_ppid ts ppid = remove_all_by_ppid (suc ts.tasks.n) ts ppid
