-- ===== src/Scheduler/Initial.antt =====
-- daemon/retif_scheduler.c, `rtf_scheduler_init`: the scheduler as the daemon starts with it.
use retif.Common.{
  ℕ, zero, suc, ◌+◌, Bool, true, false, not, ◌&&◌, Option, some, List, get_elem?, if◌then◌else◌,
  ◌>>=◌, >>=-eq-some, ◌≡◌, refl, ap, ◌∙◌, subst, arith, Bool-cases, inl, inr,
}
use mathlib.Core.Option.{some-injective}
use retif.Common.Int.{ℤ, pos, negsuc}
use retif.Floats.{Floats}
use retif.Taskset.{Taskset, taskset_init}
use retif.Plugin.{World, Kernel}
use retif.Scheduler.{Scheduler, Loaded, OperationsLaws}
use retif.Scheduler.Placed.{IsPlaced, Distinct}
use retif.Scheduler.Loading.{Loader, plugins_init, Trusted}
use retif.Scheduler.Started.{Started, no_more, started, plugins_init-Started}
use retif.Config.{Configuration}
use retif.Config.Kernel.{Proc, Contents, rt_runtime_file, rt_period_file, file_read_long}

-- The `|` of two results of `file_read_long`, which are 0, 1 and -1.
abbrev or_results : ℤ → ℤ → ℤ
or_results (pos zero) res' = res'
or_results (pos (suc n)) (pos m) = pos (suc n)
or_results (pos (suc n)) (negsuc m) = negsuc m
or_results (negsuc n) res' = negsuc n

abbrev is_zero : ℤ → Bool
is_zero (pos zero) = true
is_zero (pos (suc n)) = false
is_zero (negsuc n) = false

abbrev is_minus_one : ℤ → Bool
is_minus_one (pos n) = false
is_minus_one (negsuc zero) = true
is_minus_one (negsuc (suc n)) = false

not_zero : (r : ℤ) → is_zero r ≡ false → r ≡ pos 0 → ⊥
not_zero r f e = cc

module _ {F : Type 0} (fl : Floats F) (l : Loader F) (proc : Proc) (k : Kernel) where
  -- The plugins, after the checks.
  abbrev start_plugins : Configuration F → Taskset → Option (ℤ × Scheduler F)
  start_plugins conf ts = plugins_init fl l 0 conf.plugins >>= λ (r, plugins).
      some (r, record { num_of_cpu = k.nprocs; last_task_id = 0; taskset = ts; plugin = plugins })

  -- With what reading the two files gave.
  unfoldable pub init_within :
      Configuration F → Scheduler F → Taskset → ℤ × ℤ → ℤ × ℤ → Option (ℤ × Scheduler F)
  unfolding plugins_init
  init_within conf s ts (res, rt_runtime) (res', rt_period) =
      if not (is_zero (or_results res res'))
      then some (or_results res res', s)
      else if not (is_minus_one rt_runtime)
          && fl.ltb (fl.div (fl.of_int rt_runtime) (fl.of_int rt_period)) conf.system.sched_max_util
      then some (negsuc 0, s)
      else start_plugins conf ts

  -- The result, and the scheduler, which an error before the plugins leaves as it was. The two numbers
  -- are read into variables without a value, and are not used if a file has none.
  unfoldable pub scheduler_init :
      Contents → Configuration F → Scheduler F → Taskset → Option (ℤ × Scheduler F)
  unfolding file_read_long init_within
  scheduler_init files conf s ts =
      init_within conf s ts (file_read_long proc files rt_runtime_file (pos 0))
        (file_read_long proc files rt_period_file (pos 0))

  -- The scheduler before any task: a plugin for each configured one.
  pub record IsInitial (conf : Configuration F) (s : Scheduler F) : Type 0 where
    pub cpus : s.num_of_cpu ≡ k.nprocs
    pub unused : s.last_task_id ≡ 0
    pub without_tasks : s.taskset ≡ taskset_init
    pub plugins : Started fl 0 conf.plugins s.plugin

  Started-IsLoaded :
      {i : ℕ} {confs : List retif.Config.ConfPlugin} {plugins : List (Loaded F)} (j : ℕ)
      (p : Loaded F)
      → Started fl i confs plugins
      → get_elem? plugins j ≡ some p
      → (p.plg.id ≡ i + j) × OperationsLaws p.calls
  Started-IsLoaded j p no_more e = absurd (cc)
  Started-IsLoaded {i} zero p (started is laws fresh rest) e =
      subst (λ q. (q.plg.id ≡ i + 0) × OperationsLaws q.calls) (some-injective _ _ e)
        (omega (arith, is), laws)
  Started-IsLoaded {i} (suc j) p (started is laws fresh rest) e =
      let (at, laws') = Started-IsLoaded j p rest e in (omega (arith, at), laws')

  pub IsInitial-IsPlaced :
      (conf : Configuration F) (s : Scheduler F) (w : World F) → IsInitial conf s → IsPlaced s w
  unfolding Distinct
  IsInitial-IsPlaced conf s w h = record {
    loaded =
        λ i p e. let (at, laws) = Started-IsLoaded i p h.plugins e in (omega (arith, at), laws);
    counted = rw h.without_tasks refl;
    allocated = rw h.without_tasks tt;
    distinct = rw h.without_tasks tt;
    placed = rw h.without_tasks tt;
  }

  start_plugins-IsInitial :
      (conf : Configuration F) (s' : Scheduler F)
      → Trusted l
      → start_plugins conf taskset_init ≡ some (pos 0, s')
      → IsInitial conf s'
  start_plugins-IsInitial conf s' h run =
      let ((res, plugins), opened, same) = >>=-eq-some (plugins_init fl l 0 conf.plugins) _ run in
      let both = some-injective _ _ same in
      subst (λ (x : ℤ × Scheduler F). IsInitial conf x.1) both
        (record {
          cpus = refl;
          unused = refl;
          without_tasks = refl;
          plugins =
              plugins_init-Started fl l 0 conf.plugins plugins h
                (opened ∙ ap (λ r. some (r, plugins)) (ap (λ (x : ℤ × Scheduler F). x.0) both));
        })

  zero-result :
      (r : ℤ) (s s' : Scheduler F)
      → is_zero r ≡ false
      → ◌≡◌ {A = Option (ℤ × Scheduler F)} (some (r, s)) (some (pos 0, s'))
      → ⊥
  zero-result r s s' f e = not_zero r f (ap (λ (x : ℤ × Scheduler F). x.0) (some-injective _ _ e))

  init_within-IsInitial :
      (conf : Configuration F) (s s' : Scheduler F) (res rt_runtime res' rt_period : ℤ)
      → Trusted l
      → init_within conf s taskset_init (res, rt_runtime) (res', rt_period) ≡ some (pos 0, s')
      → IsInitial conf s'
  unfolding init_within
  init_within-IsInitial conf s s' res rt_runtime res' rt_period h run =
      elim (Bool-cases (is_zero (or_results res res'))) [
        | inr fails ↦ absurd (zero-result (or_results res res') s s' fails (rw fails at run))
        | inl reads ↦
            elim (Bool-cases (
              not (is_minus_one rt_runtime)
              && fl.ltb (fl.div (fl.of_int rt_runtime) (fl.of_int rt_period))
                  conf.system.sched_max_util)) [
                    | inl above ↦
                        absurd (zero-result (negsuc 0) s s' refl (rw (reads, above) at run))
                    | inr fine ↦ start_plugins-IsInitial conf s' h (rw (reads, fine) at run)
                  ]
      ]

  -- If the shared objects that can be opened keep what the scheduler relies on, and `rtf_scheduler_init`
  -- returns 0 on an empty task set, the scheduler has no task and one plugin for each configured one,
  -- in their order, with its position as identifier: each has the configured name, processors and
  -- priorities, which are not below zero, and in each of its arrays, as many entries as there are
  -- processors: free utilisations of 1, task counts of 0, and empty task sets.
  pub scheduler_init-IsInitial :
      (files : Contents) (conf : Configuration F) (s s' : Scheduler F)
      → Trusted l
      → scheduler_init files conf s taskset_init ≡ some (pos 0, s')
      → IsInitial conf s'
  unfolding scheduler_init
  scheduler_init-IsInitial files conf s s' h run =
      let (res, rt_runtime) = file_read_long proc files rt_runtime_file (pos 0) in
      let (res', rt_period) = file_read_long proc files rt_period_file (pos 0) in
      init_within-IsInitial conf s s' res rt_runtime res' rt_period h run
