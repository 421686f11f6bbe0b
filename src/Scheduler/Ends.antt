-- ===== src/Scheduler/Ends.antt =====
-- daemon/retif_scheduler.c, `rtf_scheduler_delete`: the loop ends.
use retif.Common.{
  ℕ, zero, suc, ◌<◌, Option, none, some, get_elem?, get_elem?_total, length, ◌≡◌, ◌⊎◌, Option-cases,
  refl, ap, arith, inl, inr,
}
use retif.Common.Int.{pos}
use retif.LinkedList.{LinkedList, list_remove}
use retif.LinkedList.Remove.{list_remove-Removed}
use retif.Taskset.{Taskset, taskset_cmp_ppid, taskset_remove_by_ppid}
use retif.Taskset.Removal.{without}
use retif.Plugin.{Plugin, Verdict, World}
use retif.Scheduler.{
  Scheduler, Loaded, put, task_release, dismiss, delete_rounds, scheduler_delete, release_on,
}
use retif.Scheduler.Placed.{IsPlaced, HasPlugin}
use retif.Scheduler.Delete.{
  Taken, none_left, taken, removed-Taken, dismiss-Dismissed, scheduler_delete-without,
}

module _ {F : Type 0} where
  -- The plugin of the task `a` faults in its `release`.
  pub record ReleaseFaults (s : Scheduler F) (w : World F) (a : ℕ) : Type 0 where
    pub i : ℕ
    pub p : Loaded F
    pub own : (w.heap a).pluginid ≡ pos i
    pub there : get_elem? s.plugin i ≡ some p
    pub faults : p.calls.release p.plg w a ≡ none

  released :
      (s : Scheduler F) (w : World F) (a i : ℕ) (p : Loaded F) (res : Verdict) (plg : Plugin F)
      (w1 : World F)
      → get_elem? s.plugin i ≡ some p
      → p.calls.release p.plg w a ≡ some (res, plg, w1)
      → release_on s w a i ≡ some (put s i p plg, w1)
  unfolding release_on
  released s w a i p res plg w1 there did = rw (there, did) refl

  dismiss-cases :
      (s : Scheduler F) (w : World F) (a : ℕ)
      → HasPlugin w (length s.plugin) a
      → ReleaseFaults s w a
        ⊎ ((s1 : Scheduler F) × (w1 : World F) × (dismiss s w a ≡ some (s1, w1)))
  unfolding dismiss
  dismiss-cases s w a (i, own, lt) =
      let (p, there) = get_elem?_total s.plugin i lt in
      elim (Option-cases (p.calls.release p.plg w a)) [
        | inl faults ↦ inl (record { i = i; p = p; own = own; there = there; faults = faults })
        | inr ((res, plg, w1), did) ↦ inr (
          put s i p plg,
          task_release w1 a,
          rw (own, there, released s w a i p res plg w1 there did) refl,
        )
      ]

  -- The loop comes to a task of the process whose plugin faults: the next one that is taken out of the task
  -- set, or one after that was dismissed.
  pub data Stops (ppid : ℕ) : Scheduler F → World F → Type 0 where
    at_once :
        (s : Scheduler F) (w : World F) (a : ℕ) (ts : Taskset)
        → taskset_remove_by_ppid w.heap s.taskset ppid ≡ some (some a, ts)
        → ReleaseFaults s w a
        → Stops ppid s w
    later :
        (s s1 : Scheduler F) (w w1 : World F) (a : ℕ) (ts : Taskset)
        → taskset_remove_by_ppid w.heap s.taskset ppid ≡ some (some a, ts)
        → dismiss (record s { taskset = ts }) w a ≡ some (s1, w1)
        → Stops ppid s1 w1
        → Stops ppid s w

  -- The loop returns, or a plugin stops it.
  abbrev Finishes : ℕ → Option (Scheduler F × World F) → Scheduler F → World F → Type 0
  Finishes ppid run s w =
      ((s' : Scheduler F) × (w' : World F) × (run ≡ some (s', w'))) ⊎ Stops ppid s w

  ends_after :
      (fuel : ℕ) (s : Scheduler F) (w : World F) (ppid : ℕ) (elem : Option ℕ) (after : LinkedList ℕ)
      → ((s1 : Scheduler F) (w1 : World F)
          → IsPlaced s1 w1
          → length s1.taskset.tasks.root < fuel
          → Finishes ppid (delete_rounds fuel s1 w1 ppid) s1 w1)
      → length s.taskset.tasks.root < suc fuel
      → Taken s w (taskset_cmp_ppid w.heap ppid) elem after
      → list_remove (taskset_cmp_ppid w.heap ppid) s.taskset.tasks ≡ some (elem, after)
      → Finishes ppid (delete_rounds (suc fuel) s w ppid) s w
  unfolding delete_rounds taskset_remove_by_ppid
  ends_after fuel s w ppid elem _ more lt (none_left after placed kept) returned =
      inl (record s { taskset = record { tasks = after } }, w, rw (returned, delete_rounds) refl)
  ends_after fuel s w ppid elem _ more lt (taken a after rest kept shorter) returned =
      let ts : Taskset = record { tasks = after } in
      let removed : taskset_remove_by_ppid w.heap s.taskset ppid ≡ some (some a, ts) =
        rw returned refl in
      elim (dismiss-cases (record s { taskset = ts }) w a rest.own) [
        | inl faults ↦ inr (
            at_once s w a ts removed (record {
              i = faults.i;
              p = faults.p;
              own = faults.own;
              there = faults.there;
              faults = faults.faults;
            }))
        | inr (s1, w1, did) ↦
            let d = dismiss-Dismissed _ s1 w w1 a rest.rest rest.new did in
            let shrinks : length s1.taskset.tasks.root < fuel =
              omega (arith, lt, shorter, ap (λ ts. length ts.tasks.root) d.tasks) in
            elim (more s1 w1 d.placed shrinks) [
              | inl (s', w', run) ↦ inl (s', w', rw (returned, did, delete_rounds) run)
              | inr stops ↦ inr (later s s1 w w1 a ts removed did stops)
            ]
      ]

  delete_rounds-Finishes :
      (fuel : ℕ) (s : Scheduler F) (w : World F) (ppid : ℕ)
      → IsPlaced s w
      → length s.taskset.tasks.root < fuel
      → Finishes ppid (delete_rounds fuel s w ppid) s w
  delete_rounds-Finishes zero s w ppid h lt = absurd (omega arith)
  delete_rounds-Finishes (suc fuel) s w ppid h lt =
      let r = list_remove-Removed (taskset_cmp_ppid w.heap ppid) s.taskset.tasks h.counted in
      ends_after fuel s w ppid r.elem r.after (λ s1 w1. delete_rounds-Finishes fuel s1 w1 ppid) lt
        (removed-Taken s w _ r.elem r.after r.after.root h r.counted refl r.first) r.returned

  -- If the invariant holds, `rtf_scheduler_delete` comes to an end: either it returns, the invariant
  -- holds and exactly the tasks of the process `ppid` are gone from the task set; or, possibly after
  -- some of them were dismissed, it comes to one whose plugin faults in its `release`. One round of the
  -- loop for each task and one more are always enough.
  pub scheduler_delete-Stops :
      (s : Scheduler F) (w : World F) (ppid : ℕ)
      → IsPlaced s w
      → ((s' : Scheduler F) × (w' : World F) × (scheduler_delete s w ppid ≡ some (s', w'))
          × IsPlaced s' w'
          × (s'.taskset.tasks.root ≡ without (taskset_cmp_ppid w.heap ppid) s.taskset.tasks.root))
        ⊎ Stops ppid s w
  unfolding scheduler_delete
  scheduler_delete-Stops s w ppid h =
      elim (delete_rounds-Finishes (suc s.taskset.tasks.n) s w ppid h (omega (arith, h.counted))) [
        | inl (s', w', run) ↦
            let (placed, is) = scheduler_delete-without s s' w w' ppid h run in
            inl (s', w', run, placed, is)
        | inr stops ↦ inr stops
      ]
