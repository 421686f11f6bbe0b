-- ===== src/Scheduler/Created.antt =====
-- daemon/retif_scheduler.c, `rtf_scheduler_task_create`: the task that a request leaves behind.
use retif.Common.{
  ℕ, ◌+◌, ◌%◌, ◌^◌, some, ◌∷◌, >>=-eq-some, ◌>>=◌, ◌≡◌, ◌⊎◌, ◌∙◌, refl, ap, subst, arith, inl, inr,
  ◌<◌, length,
}
use mathlib.Core.Option.{some-injective}
use retif.Common.Int.{pos}
use retif.Floats.{Floats}
use retif.Task.{Task, Params}
use retif.Taskset.{taskset_add_top}
use retif.Plugin.{World, Verdict, ok, partial, refused}
use retif.Scheduler.{
  Scheduler, Chosen, full, best_effort, nobody, ask_accept, assign_to, assign_chosen,
  test_and_assign, new_task, alloc, scheduler_task_create,
}
use retif.Scheduler.Placed.{IsLoaded, schedule_on-ScheduledOn}

module _ {F : Type 0} where
  -- What a request for a new task of the process `ppid` left behind: no plugin took it and the task set
  -- is as before, or the task at the next address is the first of the task set, under a plugin that is
  -- there, with the next identifier and its process as its owner.
  pub data Created (s : Scheduler F) (w : World F) (ppid : ℕ)
      : Verdict → Scheduler F → World F → Type 0 where
    declined :
        (s' : Scheduler F) (w' : World F)
        → s'.taskset ≡ s.taskset
        → s'.last_task_id ≡ s.last_task_id + 1
        → Created s w ppid refused s' w'
    created :
        (res : Verdict) (s' : Scheduler F) (w' : World F) (i : ℕ)
        → (res ≡ ok) ⊎ (res ≡ partial)
        → s'.taskset.tasks.root ≡ w.next ∷ s.taskset.tasks.root
        → s'.last_task_id ≡ s.last_task_id + 1
        → (w'.heap w.next).id ≡ (s.last_task_id + 1) % 2 ^ 32
        → (w'.heap w.next).ptid ≡ ppid
        → (w'.heap w.next).pluginid ≡ pos i
        → i < length s.plugin
        → Created s w ppid res s' w'

  alloc-id : (w : World F) (t : Task F) → ((alloc w t).heap w.next).id ≡ t.id
  alloc-id w t = ground arith

  alloc-ptid : (w : World F) (t : Task F) → ((alloc w t).heap w.next).ptid ≡ t.ptid
  alloc-ptid w t = ground arith

  module _ (fl : Floats F) (s : Scheduler F) (w : World F) (tp : Params) (ppid : ℕ) where
    abbrev counted_up : Scheduler F
    counted_up = record s { last_task_id = s.last_task_id + 1 }

    abbrev allocated : World F
    allocated = alloc w (new_task fl ((s.last_task_id + 1) % 2 ^ 32) tp ppid)

    assign_to-Created :
        (s' : Scheduler F) (w' : World F) (i : ℕ) (res res' : Verdict)
        → IsLoaded s.plugin
        → (res ≡ ok) ⊎ (res ≡ partial)
        → ◌>>=◌ {B = Verdict × Scheduler F × World F}
            (assign_to counted_up allocated w.next i)
            (λ (s1, w1). some (res, s1, w1))
          ≡ some (res', s', w')
        → Created s w ppid res' s' w'
    unfolding assign_to taskset_add_top new_task
    assign_to-Created s' w' i res res' h fine run =
        let ((s1, w1), did, rest) = >>=-eq-some (assign_to counted_up allocated w.next i) _ run in
        let on =
          schedule_on-ScheduledOn (record counted_up { taskset = taskset_add_top s.taskset w.next })
            s1 allocated w1 w.next i h did in
        subst (λ (x : Verdict × Scheduler F × World F). Created s w ppid x.0 x.1 x.2)
          (some-injective _ _ rest)
          (created res s1 w1 i fine (ap (λ ts. ts.tasks.root) on.tasks) on.counter
            (on.same.ids w.next ∙ alloc-id w _) (on.same.owners w.next ∙ alloc-ptid w _) on.given
            on.there)

    assign_chosen-Created :
        (s' : Scheduler F) (w' : World F) (c : Chosen) (res : Verdict)
        → IsLoaded s.plugin
        → assign_chosen counted_up allocated w.next c ≡ some (res, s', w')
        → Created s w ppid res s' w'
    unfolding assign_chosen
    assign_chosen-Created s' w' (full i) res h run =
        assign_to-Created s' w' i ok res h (inl refl) run
    assign_chosen-Created s' w' (best_effort i) res h run =
        assign_to-Created s' w' i partial res h (inr refl) run
    assign_chosen-Created s' w' nobody res h run =
        subst (λ (x : Verdict × Scheduler F × World F). Created s w ppid x.0 x.1 x.2)
          (some-injective _ _ run) (declined counted_up allocated refl refl)

    -- If the plugins are loaded and none faults in `rtf_scheduler_task_create`, then either no plugin
    -- took the task, RTF_NO is returned and the task set is as before, or RTF_OK or RTF_PARTIAL is
    -- returned and the new task is the first of the task set, with a new identifier, the process as its
    -- owner, and the number of a plugin that is there. The counter of identifiers goes up in both cases.
    pub scheduler_task_create-Created :
        (s' : Scheduler F) (w' : World F) (res : Verdict)
        → IsLoaded s.plugin
        → scheduler_task_create fl s w tp ppid ≡ some (res, s', w')
        → Created s w ppid res s' w'
    unfolding scheduler_task_create test_and_assign
    scheduler_task_create-Created s' w' res h run =
        let (c, asked, rest) = >>=-eq-some (ask_accept allocated w.next 0 s.plugin) _ run in
        assign_chosen-Created s' w' c res h rest
