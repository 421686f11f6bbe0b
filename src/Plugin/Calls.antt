-- ===== src/Plugin/Calls.antt =====
-- The kernel as the plugins see it, a parameter: what it answers depends on the calls made before.
-- Attaching and detaching a thread are the calls that the plugins make of it.
use retif.Common.{true, false, ℕ, zero, suc, Bool, List, [], ◌∷◌, ◌++◌, if◌then◌else◌}
use retif.Common.Int.{ℤ, pos, ltb_ℤ}
use retif.Plugin.Data.{
  Verdict, ok, error, World, Policy, sched_other, sched_fifo, sched_rr, sched_deadline, Syscall,
  sched_setaffinity, sched_setscheduler,
}

pub record Kernel : Type 0 where
  pub answer : List Syscall → Syscall → ℤ
  pub getscheduler : List Syscall → ℕ → Policy
  pub nprocs : ℕ
  pub fifo_max : ℕ
  pub fifo_min : ℕ
  pub rr_max : ℕ
  pub rr_min : ℕ

abbrev pub is_policy : Policy → Policy → Bool
is_policy sched_other sched_other = true
is_policy sched_fifo sched_fifo = true
is_policy sched_rr sched_rr = true
is_policy sched_deadline sched_deadline = true
is_policy _ _ = false

-- CPU_SET for each processor of the system.
unfoldable pub all_cpus : ℕ → List ℕ
all_cpus zero = []
all_cpus (suc n) = all_cpus n ++ n ∷ []

module _ {F : Type 0} (k : Kernel) where
  -- A call goes into the trace, and fails if its answer is below zero.
  abbrev pub issue : World F → Syscall → World F
  issue w s = record w { calls = s ∷ w.calls }

  abbrev pub fails : World F → Syscall → Bool
  fails w s = ltb_ℤ (k.answer w.calls s) (pos 0)

  -- Two calls in a row, the second only if the first did not fail.
  unfoldable pub both : World F → Syscall → Syscall → Verdict × World F
  both w s s' =
      if fails w s
      then (error, issue w s)
      else if fails (issue w s) s'
      then (error, issue (issue w s) s')
      else (ok, issue (issue w s) s')

  unfoldable pub detach_thread : World F → ℕ → Verdict × World F
  unfolding both all_cpus
  detach_thread w a =
      let t = w.heap a in
      both w (sched_setaffinity t.tid (all_cpus k.nprocs)) (sched_setscheduler t.tid sched_other 0)

  -- The end of `rtf_plg_task_release`: a thread that does not run under the plugin's policy is left.
  unfoldable pub detach_running : Policy → World F → ℕ → Verdict × World F
  unfolding detach_thread
  detach_running policy w a =
      if is_policy (k.getscheduler w.calls (w.heap a).tid) policy
      then detach_thread w a
      else (ok, w)
