-- ===== src/Rr.antt =====
-- plugins/sched_RR.c: the plugin that runs tasks under SCHED_RR, by declared priority.
-- The static arrays are `n_per_prio`, of MAX_CPU = 32 rows of MAX_PRIO = 100 entries, and `dist_prio`.
pub mod Priorities
use retif.Common.{
  ℕ, ◌+◌, ◌-◌, ◌%◌, ◌^◌, Bool, false, ◌&&◌, Option, none, some, List, [], ◌∷◌, get_elem?, set, ◌==◌,
  if◌then◌else◌, ◌>>=◌,
}
use retif.Common.Int.{ℤ, pos, negsuc}
use retif.Floats.{Floats}
use retif.Task.{task_get_ignore_admission, task_get_priority, task_set_real_priority}
use retif.Taskset.{Heap, taskset_add_sorted_prio, taskset_remove_by_rsvid, taskset_iterator_init}
use retif.Plugin.{
  Plugin, Verdict, ok, partial, World, write, update, modify_at, inc, dec, uinc, udec, Kernel, both,
  sched_rr, sched_setaffinity, sched_setscheduler, least_loaded_count, has_another_preference,
  detach_thread, detach_running,
}
use retif.Rm.{assign_levels, too_many}

module _ {F : Type 0} where
  abbrev pub least_loaded_cpu : Plugin F → Option ℕ
  least_loaded_cpu this = least_loaded_count this

  abbrev pub plg_task_init : Plugin F → Verdict
  plg_task_init this = ok

  unfoldable pub plg_task_accept : Plugin F → World F → ℕ → Option Verdict
  plg_task_accept this w a =
      let t = w.heap a in
      if (task_get_ignore_admission t == 0) && (task_get_priority t == 0)
      then some partial
      else if has_another_preference this t
      then some partial
      else some ok

  unfoldable pub plg_task_change : Plugin F → World F → ℕ → Option (Verdict × Plugin F)
  unfolding plg_task_accept
  plg_task_change this w a = plg_task_accept this w a >>= λ test_res. some (test_res, this)

  -- The end of a list is a NULL that the source reads through.
  unfoldable pub copy_next : Heap F → ℕ → List ℕ → Option (Heap F)
  copy_next heap a [] = none
  copy_next heap a (n ∷ next) =
      some (update heap a (task_set_real_priority (heap a) (heap n).schedprio))

-- `n_per_prio[cpu][prio]`
abbrev pub level_count : List (List ℤ) → ℕ → ℕ → Option ℤ
level_count table cpu prio = get_elem? table cpu >>= λ row. get_elem? row prio

abbrev pub modify_level : List (List ℤ) → ℕ → ℕ → (ℤ → ℤ) → Option (List (List ℤ))
modify_level table cpu prio f =
    get_elem? table cpu >>= λ row. modify_at row prio f >>= λ row'. some (set table cpu row')

abbrev pub is_int : ℤ → ℕ → Bool
is_int (pos n) m = n == m
is_int (negsuc n) m = false

module _ {F : Type 0} (k : Kernel) (fl : Floats F) where
  unfoldable pub prio_remap : ℕ → ℕ → ℕ → ℕ
  prio_remap max_prio_s min_prio_s prio =
      let slope =
        fl.div (fl.of_nat ((max_prio_s + 2 ^ 32 - min_prio_s + 1) % 2 ^ 32))
          (fl.of_nat (k.rr_max - k.rr_min + 1)) in
      fl.to_nat (
        fl.add (fl.of_nat min_prio_s)
          (fl.mul slope (fl.of_nat ((prio + 2 ^ 32 - k.rr_min) % 2 ^ 32))))

  unfoldable pub assign_remapped : Plugin F → Heap F → List ℕ → Heap F
  unfolding prio_remap
  assign_remapped this heap [] = heap
  assign_remapped this heap (a ∷ iterator) =
      assign_remapped this
        (update heap a (
          task_set_real_priority (heap a)
            (prio_remap this.prio_max this.prio_min (task_get_priority (heap a)))))
        iterator

  unfoldable pub assign_priorities : Plugin F → ℕ → Heap F → Option (Heap F)
  unfolding assign_remapped assign_levels
  assign_priorities this cpu heap = get_elem? this.tasks cpu >>= λ ts.
      get_elem? this.dist_prio cpu >>= λ dist.
      let iterator = taskset_iterator_init ts in
      some (
        if too_many this dist
        then assign_remapped this heap iterator
        else assign_levels task_get_priority (udec this.prio_min) (2 ^ 32 - 1) heap iterator)

  -- The priority of the task `a`, the `count`-th of its level, that was inserted before `next`.
  unfoldable pub place : Plugin F → ℕ → Heap F → ℕ → ℤ → List ℕ → Option (Plugin F × Heap F)
  unfolding assign_priorities copy_next
  place this cpu heap a count next =
      if is_int count 1
      then (modify_at this.dist_prio cpu uinc >>= λ dists.
          let counted = record this { dist_prio = dists } in
          assign_priorities counted cpu heap >>= λ heap'. some (counted, heap'))
      else (copy_next heap a next >>= λ heap'. some (this, heap'))

  unfoldable pub plg_task_schedule : Plugin F → World F → ℕ → Option (Plugin F × World F)
  unfolding place
  plg_task_schedule this w a =
      let prio = task_get_priority (w.heap a) in
      least_loaded_cpu this >>= λ cpu.
      let heap = update w.heap a (record (w.heap a) { cpu = cpu; pluginid = pos this.id }) in
      modify_level this.n_per_prio cpu prio inc >>= λ table. get_elem? this.tasks cpu >>= λ ts.
      taskset_add_sorted_prio heap ts a >>= λ (ts', next). level_count table cpu prio >>= λ count.
      place (record this { n_per_prio = table; tasks = set this.tasks cpu ts' }) cpu heap a count
        next
      >>= λ (placed, heap'). modify_at placed.task_count_percpu cpu inc >>= λ counts.
          some (record placed { task_count_percpu = counts }, record w { heap = heap' })

module _ {F : Type 0} (k : Kernel) where
  unfoldable pub plg_task_attach : World F → ℕ → Verdict × World F
  unfolding both
  plg_task_attach w a =
      let t = w.heap a in
      both k w (sched_setaffinity t.tid (t.cpu ∷ []))
        (sched_setscheduler t.tid sched_rr t.schedprio)

  abbrev pub plg_task_detach : World F → ℕ → Verdict × World F
  plg_task_detach = detach_thread k

  unfoldable pub plg_task_release : Plugin F → World F → ℕ → Option (Verdict × Plugin F × World F)
  unfolding detach_running
  plg_task_release this w a =
      let t = w.heap a in
      let prio = task_get_priority t in
      modify_at this.task_count_percpu t.cpu dec >>= λ counts.
      modify_level this.n_per_prio t.cpu prio dec >>= λ table.
      level_count table t.cpu prio >>= λ count.
      (if is_int count 0 then modify_at this.dist_prio t.cpu udec else some this.dist_prio)
      >>= λ dists. get_elem? this.tasks t.cpu >>= λ ts.
          taskset_remove_by_rsvid w.heap ts t.id >>= λ (removed, ts').
          let (res, w') =
            detach_running k sched_rr (write w a (record t { pluginid = negsuc 0 })) a in
          some (
            res,
            record this {
              task_count_percpu = counts;
              n_per_prio = table;
              dist_prio = dists;
              tasks = set this.tasks t.cpu ts';
            },
            w',
          )
