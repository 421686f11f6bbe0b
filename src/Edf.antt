-- ===== src/Edf.antt =====
-- plugins/sched_EDF.c: the plugin that runs tasks under SCHED_DEADLINE.
-- `this` is the plugin, `w` the world, and `a` the address of the task. No function of a plugin reads
-- the daemon's task set `ts`. The choice of the processor and the utilisation tests are in `Plugin.Cpus`.
pub mod Accept
pub mod Books
pub mod Schedule
use retif.Common.{
  ℕ, ◌*◌, ◌%◌, ◌^◌, Bool, true, false, ◌&&◌, ◌||◌, not, Option, none, some, List, [], ◌∷◌,
  get_elem?, set, ◌==◌, if◌then◌else◌, ◌>>=◌,
}
use retif.Common.Int.{ℤ, pos, negsuc, ◌+ℤ◌, ◌-ℤ◌}
use retif.Floats.{Floats}
use retif.Task.{
  Task, task_get_util, task_get_des_util, task_get_ignore_admission, task_get_period,
  task_get_runtime, task_get_des_runtime, task_get_min_declared, task_get_accepted_runtime,
  task_get_deadline,
}
use retif.Plugin.{
  Plugin, Verdict, ok, partial, refused, error, World, write, modify_at, inc, dec, Kernel, both,
  issue, all_cpus, Policy, sched_other, sched_fifo, sched_rr, sched_deadline, sched_setaffinity,
  sched_setscheduler, sched_setattr, is_ok, is_id, is_policy, detach_thread, detach_running,
  downgrade, least_loaded_util, utilization_test, desired_utilization_test, has_another_preference,
}

abbrev micro_to_nano : ℕ → ℕ
micro_to_nano micro = micro * 1000 % 2 ^ 64

module _ {F : Type 0} where
  unfoldable pub plg_task_init : Plugin F → Verdict
  plg_task_init this = ok

  -- The plugin with `f u` for the free utilisation `u` of the task's processor, if the task is its own.
  unfoldable pub adjust_own : (F → F) → Plugin F → Task F → Option (Plugin F)
  adjust_own f this t =
      if is_id t.pluginid this.id
      then (modify_at this.util_free_percpu t.cpu f >>= λ utils.
          some (record this { util_free_percpu = utils }))
      else some this

module _ {F : Type 0} (fl : Floats F) where
  -- `x == -1`
  abbrev pub is_minus_one : F → Bool
  is_minus_one x = fl.eqb x (fl.of_int (negsuc 0))

  -- The test that the presence of a desired runtime selects.
  unfoldable pub admission_test : Plugin F → F → F → Option Verdict
  admission_test this task_util task_des_util =
      if is_minus_one task_des_util
      then utilization_test fl this task_util
      else desired_utilization_test fl this task_util task_des_util

  unfoldable pub plg_task_accept : Plugin F → World F → ℕ → Option Verdict
  plg_task_accept this w a =
      let t = w.heap a in
      let task_util = task_get_util fl t in
      let task_des_util = task_get_des_util fl t in
      if not (task_get_ignore_admission t == 0)
      then some refused
      else if task_get_period t == 0
      then some refused
      else if is_minus_one task_util
      then some refused
      else (admission_test this task_util task_des_util >>= λ test_res.
          some (downgrade this t test_res))

  unfoldable pub plg_task_change : Plugin F → World F → ℕ → Option (Verdict × Plugin F)
  plg_task_change this w a =
      let t = w.heap a in
      adjust_own (λ u. fl.add u t.acceptedu) this t >>= λ raised.
      plg_task_accept raised w a >>= λ test_res.
      adjust_own (λ u. fl.sub u t.acceptedu) raised t >>= λ restored. some (test_res, restored)

  -- The accepted runtime and utilisation of a task that goes to processor `cpu`.
  unfoldable pub granted : Plugin F → Task F → ℕ → Option (ℕ × F)
  granted this t cpu =
      let task_util = task_get_util fl t in
      let task_des_util = task_get_des_util fl t in
      if is_minus_one task_des_util
      then some (task_get_runtime t, task_util)
      else (desired_utilization_test fl this task_util task_des_util >>= λ test_res.
          get_elem? this.util_free_percpu cpu >>= λ free.
          let min = fl.of_nat (task_get_min_declared t) in
          let acceptedt = fl.to_nat (fl.mul free min) in
          some (
            if is_ok test_res
            then (task_get_des_runtime t, task_util)
            else (acceptedt, fl.div (fl.of_nat acceptedt) min)))

  unfoldable pub plg_task_schedule : Plugin F → World F → ℕ → Option (Plugin F × World F)
  unfolding granted
  plg_task_schedule this w a =
      let t = w.heap a in
      least_loaded_util fl this >>= λ cpu. granted this t cpu >>= λ (acceptedt, acceptedu).
      modify_at this.util_free_percpu cpu (λ u. fl.sub u acceptedu) >>= λ utils.
      modify_at this.task_count_percpu cpu inc >>= λ counts. some (
        record this { util_free_percpu = utils; task_count_percpu = counts },
        write w a (record t {
          cpu = cpu;
          pluginid = pos this.id;
          acceptedt = acceptedt;
          acceptedu = acceptedu;
        }),
      )

module _ {F : Type 0} (k : Kernel) where
  unfoldable pub plg_task_attach : World F → ℕ → Verdict × World F
  unfolding both
  plg_task_attach w a =
      let t = w.heap a in
      let deadline =
        if not (task_get_deadline t == 0) then task_get_deadline t else task_get_period t in
      both k w (sched_setaffinity t.tid (t.cpu ∷ [])) (
        sched_setattr t.tid (micro_to_nano (task_get_accepted_runtime t)) (micro_to_nano deadline)
          (micro_to_nano (task_get_period t)))

  abbrev pub plg_task_detach : World F → ℕ → Verdict × World F
  plg_task_detach = detach_thread k

  unfoldable pub plg_task_release :
      Floats F → Plugin F → World F → ℕ → Option (Verdict × Plugin F × World F)
  unfolding detach_running
  plg_task_release fl this w a =
      let t = w.heap a in
      modify_at this.util_free_percpu t.cpu (λ u. fl.add u t.acceptedu) >>= λ utils.
      modify_at this.task_count_percpu t.cpu dec >>= λ counts.
      let (res, w') =
        detach_running k sched_deadline (write w a (record t { pluginid = negsuc 0 })) a in
      some (res, record this { util_free_percpu = utils; task_count_percpu = counts }, w')
