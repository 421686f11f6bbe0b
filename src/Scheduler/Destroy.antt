-- ===== src/Scheduler/Destroy.antt =====
-- daemon/retif_scheduler.c, `rtf_scheduler_task_destroy`: one task leaves.
use retif.Common.{
  ℕ, true, false, Option, some, List, ◌∷◌, ◌++◌, length, All, >>=-eq-some, ◌≡◌, ◌∙◌, refl, ap,
  subst,
}
use mathlib.Core.Option.{some-injective}
use retif.LinkedList.{LinkedList, list_remove}
use retif.LinkedList.Remove.{list_remove-Removed, RemovedFirst, absent, gone}
use retif.Taskset.{taskset_cmp_rsvid, taskset_remove_by_rsvid}
use retif.Plugin.{World, Verdict, ok, error}
use retif.Scheduler.{Scheduler, dismiss, scheduler_task_destroy}
use retif.Scheduler.Placed.{IsPlaced}
use retif.Scheduler.Delete.{dismiss-Dismissed, removed-Without}

module _ {F : Type 0} where
  -- What became of a request to destroy the task `rtf_id`: there is none and only RTF_ERROR is
  -- returned, or the first such task has left the task set and was freed last.
  pub data Destroyed (s : Scheduler F) (w : World F) (rtf_id : ℕ)
      : Verdict → Scheduler F → World F → Type 0 where
    no_task :
        (s' : Scheduler F)
        → All (λ a. taskset_cmp_rsvid w.heap rtf_id a ≡ false) s.taskset.tasks.root
        → s'.taskset.tasks.root ≡ s.taskset.tasks.root
        → Destroyed s w rtf_id error s' w
    destroyed :
        (before : List ℕ) (a : ℕ) (rest : List ℕ) (s' : Scheduler F) (w' : World F)
        (earlier : List ℕ)
        → s.taskset.tasks.root ≡ before ++ a ∷ rest
        → All (λ b. taskset_cmp_rsvid w.heap rtf_id b ≡ false) before
        → taskset_cmp_rsvid w.heap rtf_id a ≡ true
        → s'.taskset.tasks.root ≡ before ++ rest
        → w'.freed ≡ a ∷ earlier
        → Destroyed s w rtf_id ok s' w'

  removal-Destroyed :
      (s : Scheduler F) (w : World F) (rtf_id : ℕ) (elem : Option ℕ) (after : LinkedList ℕ)
      (root : List ℕ) (res : Verdict) (s' : Scheduler F) (w' : World F)
      → IsPlaced s w
      → after.n ≡ length after.root
      → after.root ≡ root
      → list_remove (taskset_cmp_rsvid w.heap rtf_id) s.taskset.tasks ≡ some (elem, after)
      → RemovedFirst (taskset_cmp_rsvid w.heap rtf_id) s.taskset.tasks.root elem root
      → scheduler_task_destroy s w rtf_id ≡ some (res, s', w')
      → IsPlaced s' w' × Destroyed s w rtf_id res s' w'
  unfolding scheduler_task_destroy taskset_remove_by_rsvid
  removal-Destroyed s w rtf_id elem after root res s' w' h counted is returned (absent misses) run =
      subst
        (λ (x : Verdict × Scheduler F × World F).
          IsPlaced x.1 x.2 × Destroyed s w rtf_id x.0 x.1 x.2)
        (some-injective _ _ (rw (returned, scheduler_task_destroy) at run))
        (
          record {
            loaded = h.loaded;
            counted = counted;
            allocated = rw is h.allocated;
            distinct = rw is h.distinct;
            placed = rw is h.placed;
          },
          no_task _ misses is,
        )
  removal-Destroyed s w rtf_id elem after root res s' w' h counted is returned
        (gone before a rest was passed hit) run =
      let out = removed-Without s w a after before rest h was is counted in
      let run' = rw (returned, scheduler_task_destroy) at run in
      let ((s1, w1), did, run1) =
        >>=-eq-some (dismiss (record s { taskset = record { tasks = after } }) w a) _ run' in
      let d = dismiss-Dismissed _ s1 w w1 a out.rest out.new did in
      subst
        (λ (x : Verdict × Scheduler F × World F).
          IsPlaced x.1 x.2 × Destroyed s w rtf_id x.0 x.1 x.2)
        (some-injective _ _ run1)
        (
          d.placed,
          destroyed before a rest s1 w1 d.freed.0 was passed hit
              (ap (λ ts. ts.tasks.root) d.tasks ∙ is) d.freed.1,
        )

  -- If the invariant holds and no plugin faults in `rtf_scheduler_task_destroy`, the invariant holds
  -- again. Either no task has the identifier, RTF_ERROR is returned and the world is as before, or the
  -- first task that has it is out of the task set and freed, and the others are in it as before.
  pub scheduler_task_destroy-Destroyed :
      (s s' : Scheduler F) (w w' : World F) (rtf_id : ℕ) (res : Verdict)
      → IsPlaced s w
      → scheduler_task_destroy s w rtf_id ≡ some (res, s', w')
      → IsPlaced s' w' × Destroyed s w rtf_id res s' w'
  scheduler_task_destroy-Destroyed s s' w w' rtf_id res h run =
      let r = list_remove-Removed (taskset_cmp_rsvid w.heap rtf_id) s.taskset.tasks h.counted in
      removal-Destroyed s w rtf_id r.elem r.after r.after.root res s' w' h r.counted refl r.returned
        r.first run
