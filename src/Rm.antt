-- ===== src/Rm.antt =====
-- plugins/sched_RM.c: the plugin that runs tasks under SCHED_FIFO, by rate-monotonic priorities.
-- The choice of the processor and the utilisation tests are in `Plugin.Cpus`: sched_RM.c has its own
-- copies of them. The static array `dist_prio` has MAX_CPU = 32 entries.
pub mod Levels
pub mod Priorities
use retif.Common.{
  ℕ, ◌+◌, ◌-◌, ◌%◌, ◌^◌, Bool, true, false, ◌&&◌, not, Option, none, some, List, [], ◌∷◌, get_elem?,
  set, ltb, ◌==◌, if◌then◌else◌, ◌>>=◌,
}
use retif.Common.Int.{ℤ, pos, negsuc}
use retif.Floats.{Floats}
use retif.LinkedList.{LinkedList}
use retif.Task.{
  Task, task_get_util, task_get_ignore_admission, task_get_period, task_get_runtime,
  task_set_real_priority,
}
use retif.Taskset.{
  Heap, Taskset, taskset_add_sorted_pr, taskset_remove_by_rsvid, taskset_iterator_init,
}
use retif.Plugin.{
  Plugin, Verdict, ok, partial, refused, error, World, write, update, modify_at, inc, dec, uinc,
  udec, Kernel, both, Policy, sched_fifo, sched_setaffinity, sched_setscheduler, least_loaded_util,
  util_missing, utilization_test, has_another_preference, is_ok, is_id, detach_thread,
  detach_running, downgrade,
}

module _ {F : Type 0} (fl : Floats F) where
  abbrev pub least_loaded_cpu : Plugin F → Option ℕ
  least_loaded_cpu this = least_loaded_util fl this

  abbrev pub eval_util_missing : Plugin F → F → Option F
  eval_util_missing this task_util = util_missing fl this task_util

  -- The body of the loop of `hyperbolic_bound`.
  unfoldable pub hyperbolic_factor : Task F → F → F
  hyperbolic_factor t res =
      if t.params.period == 0
      then res
      else if t.params.runtime == 0
      then res
      else fl.mul res (
          fl.add (fl.div (fl.of_nat t.params.runtime) (fl.of_nat t.params.period))
            (fl.of_int (pos 1)))

  unfoldable pub hyperbolic_product : Heap F → List ℕ → F → F
  unfolding hyperbolic_factor
  hyperbolic_product heap [] res = res
  hyperbolic_product heap (a ∷ iterator) res =
      hyperbolic_product heap iterator (hyperbolic_factor (heap a) res)

  unfoldable pub hyperbolic_bound : Heap F → Taskset → Bool
  unfolding hyperbolic_product
  hyperbolic_bound heap ts = not (
      fl.ltb (fl.of_int (pos 2))
        (hyperbolic_product heap (taskset_iterator_init ts) (fl.of_int (pos 1))))

  -- The arguments and `dist_prio[cpu] - 1` are unsigned.
  unfoldable pub prio_remap : ℕ → ℕ → ℕ → ℕ → ℕ
  prio_remap max_prio_s min_prio_s prio dist =
      let slope =
        fl.div (fl.of_nat ((max_prio_s + 2 ^ 32 - min_prio_s + 1) % 2 ^ 32))
          (fl.of_nat (udec dist)) in
      fl.to_nat (fl.add (fl.of_nat min_prio_s) (fl.mul slope (fl.of_nat prio)))

  -- The first loop of `assign_priorities`; `prec_period` is an `unsigned int`, the period is 64 bits.
  unfoldable pub assign_remapped : Plugin F → ℕ → ℕ → ℕ → ℕ → Heap F → List ℕ → Heap F
  assign_remapped this dist curr_prio prec_period dist_prio_idx heap [] = heap
  assign_remapped this dist curr_prio prec_period dist_prio_idx heap (a ∷ iterator) =
      let same = prec_period == task_get_period (heap a) in
      let prio =
        if same then curr_prio else prio_remap this.prio_max this.prio_min dist_prio_idx dist in
      assign_remapped this dist prio
        (if same then prec_period else task_get_period (heap a) % 2 ^ 32)
        (if same then dist_prio_idx else uinc dist_prio_idx)
        (update heap a (task_set_real_priority (heap a) prio)) iterator

-- The second loop, which both SCHED_FIFO by rate and SCHED_RR by priority have: `key` is the field
-- that tells the levels apart.
module _ {F : Type 0} (key : Task F → ℕ) where
  unfoldable pub assign_levels : ℕ → ℕ → Heap F → List ℕ → Heap F
  assign_levels curr_prio prec_key heap [] = heap
  assign_levels curr_prio prec_key heap (a ∷ iterator) =
      let same = prec_key == key (heap a) in
      let prio = if same then curr_prio else uinc curr_prio in
      assign_levels prio (if same then prec_key else key (heap a) % 2 ^ 32)
        (update heap a (task_set_real_priority (heap a) prio)) iterator

-- `dist_prio[cpu] > (prio_max - prio_min) + 1`, in `unsigned int`.
abbrev pub too_many : {F : Type 0} → Plugin F → ℕ → Bool
too_many this dist = ltb ((this.prio_max + 2 ^ 32 - this.prio_min + 1) % 2 ^ 32) dist

module _ {F : Type 0} (fl : Floats F) where
  -- `curr_prio` starts at `prio_min - 1`, `prec_period` at UINT_MAX.
  unfoldable pub assign_priorities : Plugin F → ℕ → Heap F → Option (Heap F)
  unfolding assign_remapped assign_levels
  assign_priorities this cpu heap = get_elem? this.tasks cpu >>= λ ts.
      get_elem? this.dist_prio cpu >>= λ dist.
      let iterator = taskset_iterator_init ts in
      some (
        if too_many this dist
        then assign_remapped fl this dist (udec this.prio_min) (2 ^ 32 - 1) 0 heap iterator
        else assign_levels task_get_period (udec this.prio_min) (2 ^ 32 - 1) heap iterator)

  abbrev pub plg_task_init : Plugin F → Verdict
  plg_task_init this = ok

  unfoldable pub plg_task_accept : Plugin F → World F → ℕ → Option Verdict
  plg_task_accept this w a =
      let t = w.heap a in
      if task_get_period t == 0
      then some refused
      else if not (task_get_ignore_admission t == 0)
      then some (downgrade this t ok)
      else (utilization_test fl this (task_get_util fl t) >>= λ test_res.
          some (downgrade this t test_res))

  -- `t->pluginid == this->id && t->acceptedu != 0`
  unfoldable pub adjust_own : (F → F) → Plugin F → Task F → Option (Plugin F)
  adjust_own f this t =
      if is_id t.pluginid this.id && not (fl.eqb t.acceptedu (fl.of_int (pos 0)))
      then (modify_at this.util_free_percpu t.cpu f >>= λ utils.
          some (record this { util_free_percpu = utils }))
      else some this

  unfoldable pub plg_task_change : Plugin F → World F → ℕ → Option (Verdict × Plugin F)
  plg_task_change this w a =
      let t = w.heap a in
      adjust_own (λ u. fl.add u t.acceptedu) this t >>= λ raised.
      plg_task_accept raised w a >>= λ test_res.
      adjust_own (λ u. fl.sub u t.acceptedu) raised t >>= λ restored. some (test_res, restored)

  -- A new period: it counts one more, and all the priorities of the processor are assigned again.
  unfoldable pub new_period : Plugin F → ℕ → Heap F → Option (Plugin F × Heap F)
  unfolding assign_priorities
  new_period this cpu heap = modify_at this.dist_prio cpu uinc >>= λ dists.
      let counted = record this { dist_prio = dists } in
      assign_priorities counted cpu heap >>= λ heap'. some (counted, heap')

  -- The priority of the task `a` that was inserted before `next`.
  unfoldable pub place : Plugin F → ℕ → Heap F → ℕ → List ℕ → Option (Plugin F × Heap F)
  unfolding new_period
  place this cpu heap a [] = new_period this cpu heap
  place this cpu heap a (n ∷ next) =
      if task_get_period (heap n) == task_get_period (heap a)
      then some (this, update heap a (task_set_real_priority (heap a) (heap n).schedprio))
      else new_period this cpu heap

  unfoldable pub plg_task_schedule : Plugin F → World F → ℕ → Option (Plugin F × World F)
  unfolding place
  plg_task_schedule this w a =
      let task_util = task_get_util fl (w.heap a) in
      least_loaded_cpu fl this >>= λ cpu.
      let heap = update w.heap a (record (w.heap a) { cpu = cpu; pluginid = pos this.id }) in
      get_elem? this.tasks cpu >>= λ ts. taskset_add_sorted_pr heap ts a >>= λ (ts', next).
      place (record this { tasks = set this.tasks cpu ts' }) cpu heap a next >>= λ (placed, heap').
      let t = heap' a in
      let acceptedu =
        if fl.eqb task_util (fl.of_int (negsuc 0)) then fl.of_int (pos 0) else task_util in
      modify_at placed.util_free_percpu cpu (λ u. fl.sub u acceptedu) >>= λ utils.
      modify_at placed.task_count_percpu cpu inc >>= λ counts. some (
        record placed { util_free_percpu = utils; task_count_percpu = counts },
        record w {
          heap =
              update heap' a (record t { acceptedt = task_get_runtime t; acceptedu = acceptedu });
        },
      )

-- Another task of the list has the same period.
unfoldable pub shares_period : {F : Type 0} → Heap F → Task F → List ℕ → Bool
shares_period heap t [] = false
shares_period heap t (a ∷ iterator) =
    let rest = shares_period heap t iterator in
    if (task_get_period (heap a) == task_get_period t) && not ((heap a).id == t.id)
    then true
    else rest

module _ {F : Type 0} (k : Kernel) where
  unfoldable pub plg_task_attach : World F → ℕ → Verdict × World F
  unfolding both
  plg_task_attach w a =
      let t = w.heap a in
      both k w (sched_setaffinity t.tid (t.cpu ∷ []))
        (sched_setscheduler t.tid sched_fifo t.schedprio)

  abbrev pub plg_task_detach : World F → ℕ → Verdict × World F
  plg_task_detach = detach_thread k

  unfoldable pub plg_task_release :
      Floats F → Plugin F → World F → ℕ → Option (Verdict × Plugin F × World F)
  unfolding shares_period detach_running
  plg_task_release fl this w a =
      let t = w.heap a in
      get_elem? this.tasks t.cpu >>= λ ts.
      (if shares_period w.heap t (taskset_iterator_init ts)
        then modify_at this.dist_prio t.cpu udec
        else some this.dist_prio)
      >>= λ dists.
          (if fl.eqb t.acceptedu (fl.of_int (pos 0))
            then some this.util_free_percpu
            else modify_at this.util_free_percpu t.cpu (λ u. fl.add u t.acceptedu))
          >>= λ utils. taskset_remove_by_rsvid w.heap ts t.id >>= λ (removed, ts').
              modify_at this.task_count_percpu t.cpu dec >>= λ counts.
              let (res, w') =
                detach_running k sched_fifo (write w a (record t { pluginid = negsuc 0 })) a in
              some (
                res,
                record this {
                  dist_prio = dists;
                  util_free_percpu = utils;
                  tasks = set this.tasks t.cpu ts';
                  task_count_percpu = counts;
                },
                w',
              )
