-- ===== src/Scheduler.antt =====
-- daemon/retif_scheduler.c: the tasks of the daemon and the plugins that they run under.
-- A plugin is a shared object that the daemon loads: its six entry points are `Operations`, and what
-- the scheduler relies on is `OperationsLaws`.
mod Interface
pub mod Assign
pub mod Attach
pub mod Change
pub mod Choice
pub mod Created
pub mod Delete
pub mod Destroy
pub mod Ends
pub mod Initial
pub mod Loading
pub mod Modify
pub mod Placed
pub mod Reseated
pub mod Started
pub mod Threads
unfoldable pub use Interface.*
use retif.Common.{
  ℕ, zero, suc, ◌+◌, ◌%◌, ◌^◌, Option, none, some, List, [], ◌∷◌, get_elem?, set, length,
  if◌then◌else◌, ◌==◌, ◌>>=◌,
}
use retif.Common.Int.{ℤ, pos, negsuc}
use retif.Floats.{Floats}
use retif.Task.{Task, Params}
use retif.Taskset.{
  Taskset, taskset_add_top, taskset_search, taskset_remove_by_ppid, taskset_remove_by_rsvid,
}
use retif.Plugin.{Plugin, Verdict, ok, partial, refused, error, World, write, is_ok}

-- `struct rtf_scheduler`: `num_of_plugins` is the length of the array of plugins.
pub record Scheduler (F : Type 0) : Type 0 where
  pub num_of_cpu : ℕ
  pub last_task_id : ℕ
  pub taskset : Taskset
  pub plugin : List (Loaded F)

-- Both loops over `results`: the plugin at which the first loop stops at RTF_OK, or the first one
-- that answered RTF_PARTIAL.
pub data Chosen : Type 0 where
  full best_effort : (i : ℕ) → Chosen
  nobody : Chosen

-- What the plugins from `i` on answer, before the second loop looks at it.
pub or_partial : Verdict → ℕ → Chosen → Chosen
or_partial ok i later = full i
or_partial partial i (full j) = full j
or_partial partial i (best_effort j) = best_effort i
or_partial partial i nobody = best_effort i
or_partial refused i later = later

module _ {F : Type 0} where
  -- `s->plugin[pluginid]`, which faults below zero and past the end.
  abbrev pub plugin_at : List (Loaded F) → ℤ → Option (ℕ × Loaded F)
  plugin_at plugins (pos i) = get_elem? plugins i >>= λ p. some (i, p)
  plugin_at plugins (negsuc n) = none

  abbrev pub put : Scheduler F → ℕ → Loaded F → Plugin F → Scheduler F
  put s i p plg = record s { plugin = set s.plugin i (record p { plg = plg }) }

  -- The loop asks a plugin only if no plugin before it answered RTF_OK.
  pub ask_accept : World F → ℕ → ℕ → List (Loaded F) → Option Chosen
  unfolding or_partial
  ask_accept w a i [] = some nobody
  ask_accept w a i (p ∷ plugins) = p.calls.accept p.plg w a >>= λ result.
      let rest = ask_accept w a (suc i) plugins in
      if is_ok result then some (full i) else (rest >>= λ later. some (or_partial result i later))

  -- The same for `change`, which leaves its traces in the plugins.
  pub ask_change : World F → ℕ → ℕ → List (Loaded F) → Option (Chosen × List (Loaded F))
  unfolding or_partial
  ask_change w a i [] = some (nobody, [])
  ask_change w a i (p ∷ plugins) = p.calls.change p.plg w a >>= λ (result, plg).
      let p' : Loaded F = record p { plg = plg } in
      let rest = ask_change w a (suc i) plugins in
      if is_ok result
      then some (full i, p' ∷ plugins)
      else (rest >>= λ (later, plugins'). some (or_partial result i later, p' ∷ plugins'))

  -- The `i`-th plugin schedules the task `a`.
  unfoldable pub schedule_on : Scheduler F → World F → ℕ → ℕ → Option (Scheduler F × World F)
  schedule_on s w a i = get_elem? s.plugin i >>= λ p.
      p.calls.schedule p.plg w a >>= λ (plg, w'). some (put s i p plg, w')

  unfoldable pub assign_to : Scheduler F → World F → ℕ → ℕ → Option (Scheduler F × World F)
  unfolding schedule_on taskset_add_top
  assign_to s w a i = schedule_on (record s { taskset = taskset_add_top s.taskset a }) w a i

  pub assign_chosen : Scheduler F → World F → ℕ → Chosen → Option (Verdict × Scheduler F × World F)
  unfolding assign_to
  assign_chosen s w a (full i) = assign_to s w a i >>= λ (s', w'). some (ok, s', w')
  assign_chosen s w a (best_effort i) = assign_to s w a i >>= λ (s', w'). some (partial, s', w')
  assign_chosen s w a nobody = some (refused, s, w)

  unfoldable pub test_and_assign :
      Scheduler F → World F → ℕ → Option (Verdict × Scheduler F × World F)
  unfolding ask_accept assign_chosen
  test_and_assign s w a = ask_accept w a 0 s.plugin >>= λ chosen. assign_chosen s w a chosen

  -- The `i`-th plugin releases the task `a` and returns what its own function does.
  unfoldable pub release_on : Scheduler F → World F → ℕ → ℕ → Option (Scheduler F × World F)
  release_on s w a i = get_elem? s.plugin i >>= λ p.
      p.calls.release p.plg w a >>= λ (res, plg, w'). some (put s i p plg, w')

  unfoldable pub move_to : Scheduler F → World F → ℕ → ℕ → Option (Scheduler F × World F)
  unfolding schedule_on release_on
  move_to s w a i = release_on s w a i >>= λ (s', w'). schedule_on s' w' a i

  pub move_chosen : Scheduler F → World F → ℕ → Chosen → Option (Verdict × Scheduler F × World F)
  unfolding move_to
  move_chosen s w a (full i) = move_to s w a i >>= λ (s', w'). some (ok, s', w')
  move_chosen s w a (best_effort i) = move_to s w a i >>= λ (s', w'). some (partial, s', w')
  move_chosen s w a nobody = some (refused, s, w)

  unfoldable pub test_and_modify :
      Scheduler F → World F → ℕ → Option (Verdict × Scheduler F × World F)
  unfolding ask_change move_chosen
  test_and_modify s w a = ask_change w a 0 s.plugin >>= λ (chosen, plugins).
      move_chosen (record s { plugin = plugins }) w a chosen

  -- `rtf_task_release`
  abbrev pub task_release : World F → ℕ → World F
  task_release w a = record w { freed = a ∷ w.freed }

  -- The plugin of the task `a` releases it, and the task is freed.
  unfoldable pub dismiss : Scheduler F → World F → ℕ → Option (Scheduler F × World F)
  unfolding release_on
  dismiss s w a = plugin_at s.plugin (w.heap a).pluginid >>= λ (i, p).
      release_on s w a i >>= λ (s', w'). some (s', task_release w' a)

  -- `while (1)` on fuel; `none` is a fault or the end of the fuel.
  pub delete_rounds : ℕ → Scheduler F → World F → ℕ → Option (Scheduler F × World F)
  unfolding dismiss
  delete_rounds zero s w ppid = none
  delete_rounds (suc fuel) s w ppid = taskset_remove_by_ppid w.heap s.taskset ppid >>= λ (t, ts).
      elim t [
        | none ↦ some (record s { taskset = ts }, w)
        | some a ↦
            dismiss (record s { taskset = ts }) w a >>= λ (s', w'). delete_rounds fuel s' w' ppid
      ]

  -- One round for each task and one more to see that none is left.
  unfoldable pub scheduler_delete : Scheduler F → World F → ℕ → Option (Scheduler F × World F)
  unfolding delete_rounds
  scheduler_delete s w ppid = delete_rounds (suc s.taskset.tasks.n) s w ppid

  -- A task at the next address: `calloc` and `rtf_task_init`, and the fields that
  -- `rtf_scheduler_task_create` sets. `clk` is CLOCK_MONOTONIC, 1 on Linux.
  unfoldable pub new_task : Floats F → ℕ → Params → ℕ → Task F
  new_task fl id tp ppid = record {
    id = id;
    ptid = ppid;
    tid = 0;
    euid = 0;
    egid = 0;
    clk = 1;
    cpu = 0;
    schedprio = 0;
    pluginid = negsuc 0;
    acceptedt = 0;
    acceptedu = fl.of_int (pos 0);
    params = tp;
  }

  -- The memory is taken not to run out.
  abbrev pub alloc : World F → Task F → World F
  alloc w t = let w' = write w w.next t in record w' { next = w.next + 1 }

  unfoldable pub scheduler_task_create :
      Floats F → Scheduler F → World F → Params → ℕ → Option (Verdict × Scheduler F × World F)
  unfolding new_task test_and_assign
  scheduler_task_create fl s w tp ppid =
      let id = s.last_task_id + 1 in
      test_and_assign (record s { last_task_id = id }) (alloc w (new_task fl (id % 2 ^ 32) tp ppid))
        w.next

  -- What a handler does with the task of the identifier `rtf_id`, RTF_ERROR if there is none.
  abbrev with_task :
      Scheduler F
      → World F
      → ℕ
      → (ℕ → Option (Verdict × Scheduler F × World F))
      → Option (Verdict × Scheduler F × World F)
  with_task s w rtf_id f = elim (taskset_search w.heap s.taskset rtf_id) [
    | none ↦ some (error, s, w)
    | some a ↦ f a
  ]

  -- The new parameters `tp` are not used.
  unfoldable pub scheduler_task_change :
      Scheduler F → World F → Params → ℕ → Option (Verdict × Scheduler F × World F)
  unfolding test_and_modify
  scheduler_task_change s w tp rtf_id = with_task s w rtf_id (λ a. test_and_modify s w a)

  unfoldable pub scheduler_task_attach :
      Scheduler F → World F → ℕ → ℕ → Option (Verdict × Scheduler F × World F)
  scheduler_task_attach s w rtf_id pid = with_task s w rtf_id (λ a.
      let w' = write w a (record (w.heap a) { tid = pid }) in
      plugin_at s.plugin (w'.heap a).pluginid >>= λ (i, p).
      let (res, after) = p.calls.attach w' a in some (res, s, after))

  unfoldable pub scheduler_task_detach :
      Scheduler F → World F → ℕ → Option (Verdict × Scheduler F × World F)
  scheduler_task_detach s w rtf_id = with_task s w rtf_id (λ a.
      plugin_at s.plugin (w.heap a).pluginid >>= λ (i, p).
      let (res, after) = p.calls.detach w a in some (res, s, after))

  unfoldable pub scheduler_task_destroy :
      Scheduler F → World F → ℕ → Option (Verdict × Scheduler F × World F)
  unfolding dismiss
  scheduler_task_destroy s w rtf_id = taskset_remove_by_rsvid w.heap s.taskset rtf_id >>= λ (t, ts).
      elim t [
        | none ↦ some (error, record s { taskset = ts }, w)
        | some a ↦ dismiss (record s { taskset = ts }) w a >>= λ (s', w'). some (ok, s', w')
      ]
