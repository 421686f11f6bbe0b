-- ===== src/Fp.antt =====
-- plugins/sched_FP.c: the plugin that runs tasks under SCHED_FIFO, each at its own fixed priority.
use retif.Common.{ℕ, ◌+◌, ◌-◌, ◌%◌, ◌^◌, ◌&&◌, Option, some, [], ◌∷◌, ◌==◌, if◌then◌else◌, ◌>>=◌}
use retif.Common.Int.{pos, negsuc}
use retif.Floats.{Floats}
use retif.Task.{task_get_ignore_admission, task_get_priority}
use retif.Plugin.{
  Plugin, Verdict, ok, partial, World, write, modify_at, inc, dec, Kernel, both, sched_fifo,
  sched_setaffinity, sched_setscheduler, least_loaded_count, has_another_preference, detach_thread,
  detach_running,
}

module _ {F : Type 0} where
  abbrev pub least_loaded_cpu : Plugin F → Option ℕ
  least_loaded_cpu this = least_loaded_count this

  abbrev pub plg_task_init : Plugin F → Verdict
  plg_task_init this = ok

  unfoldable pub plg_task_accept : Plugin F → World F → ℕ → Option Verdict
  plg_task_accept this w a =
      let t = w.heap a in
      if (task_get_ignore_admission t == 0) && (task_get_priority t == 0)
      then some partial
      else if has_another_preference this t
      then some partial
      else some ok

  unfoldable pub plg_task_change : Plugin F → World F → ℕ → Option (Verdict × Plugin F)
  unfolding plg_task_accept
  plg_task_change this w a = plg_task_accept this w a >>= λ test_res. some (test_res, this)

module _ {F : Type 0} (k : Kernel) (fl : Floats F) where
  unfoldable pub prio_remap : ℕ → ℕ → ℕ → ℕ
  prio_remap max_prio_s min_prio_s prio =
      let slope =
        fl.div (fl.of_nat ((max_prio_s + 2 ^ 32 - min_prio_s) % 2 ^ 32))
          (fl.of_nat (k.fifo_max - k.fifo_min)) in
      fl.to_nat (
        fl.add (fl.of_nat min_prio_s)
          (fl.mul slope (fl.of_nat ((prio + 2 ^ 32 - k.fifo_min) % 2 ^ 32))))

  unfoldable pub plg_task_schedule : Plugin F → World F → ℕ → Option (Plugin F × World F)
  unfolding prio_remap
  plg_task_schedule this w a =
      let t = w.heap a in
      let priority = task_get_priority t in
      least_loaded_cpu this >>= λ cpu. modify_at this.task_count_percpu cpu inc >>= λ counts. some (
        record this { task_count_percpu = counts },
        write w a (record t {
          cpu = cpu;
          pluginid = pos this.id;
          schedprio =
              if priority == 0
              then this.prio_min
              else prio_remap this.prio_max this.prio_min priority;
        }),
      )

module _ {F : Type 0} (k : Kernel) where
  unfoldable pub plg_task_attach : World F → ℕ → Verdict × World F
  unfolding both
  plg_task_attach w a =
      let t = w.heap a in
      both k w (sched_setaffinity t.tid (t.cpu ∷ []))
        (sched_setscheduler t.tid sched_fifo t.schedprio)

  abbrev pub plg_task_detach : World F → ℕ → Verdict × World F
  plg_task_detach = detach_thread k

  unfoldable pub plg_task_release : Plugin F → World F → ℕ → Option (Verdict × Plugin F × World F)
  unfolding detach_running
  plg_task_release this w a =
      let t = w.heap a in
      modify_at this.task_count_percpu t.cpu dec >>= λ counts.
      let (res, w') =
        detach_running k sched_fifo (write w a (record t { pluginid = negsuc 0 })) a in
      some (res, record this { task_count_percpu = counts }, w')
