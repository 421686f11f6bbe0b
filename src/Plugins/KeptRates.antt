-- ===== src/Plugins/KeptRates.antt =====
-- plugins/sched_RM.c: the plugin keeps what daemon/retif_scheduler.c relies on.
use retif.Common.{
  ℕ, Bool, true, false, ◌&&◌, not, ◌-◌, ◌^◌, some, List, [], ◌∷◌, get_elem?, set, ◌==◌,
  if◌then◌else◌, >>=-eq-some, ◌≡◌, ◌∙◌, refl, sym, ap, subst, arith, Bool-cases, inl, inr,
}
use mathlib.Core.Option.{some-injective}
use retif.Common.Int.{pos, negsuc}
use retif.Floats.{Floats}
use retif.Task.{Task, task_get_period, task_get_util, task_get_runtime}
use retif.Taskset.{Heap, taskset_iterator_init, taskset_add_sorted_pr, taskset_remove_by_rsvid}
use retif.Plugin.{Plugin, Verdict, World, Kernel, update, modify_at, inc, dec, uinc, udec, is_id}
use retif.Scheduler.{OperationsLaws, SameButPlugin}
use retif.Rm.{
  assign_remapped, assign_priorities, too_many, new_period, place, least_loaded_cpu, adjust_own,
  shares_period, plg_task_schedule, plg_task_release, plg_task_change, plg_task_accept,
}
use retif.Plugins.Stores.{detach_thread-store, rm-attach-store}
use retif.Plugins.{rm_operations}
use retif.Plugins.Fulfilled.{detached-SameButPlugin}
use retif.Plugins.Kept.{
  KeepsIdentity, kept, kept-again, priority_kept, assign_levels-KeepsIdentity, given-SameButPlugin,
}

module _ {F : Type 0} (fl : Floats F) where
  assign_remapped-KeepsIdentity :
      (this : Plugin F) (dist : ℕ) (list : List ℕ) (curr prec idx : ℕ) (heap : Heap F)
      → KeepsIdentity heap (assign_remapped fl this dist curr prec idx heap list)
  unfolding assign_remapped
  assign_remapped-KeepsIdentity this dist [] curr prec idx heap = kept
  assign_remapped-KeepsIdentity this dist (a ∷ list) curr prec idx heap =
      kept-again (priority_kept heap a _) (assign_remapped-KeepsIdentity this dist list _ _ _ _)

  either :
      {heap h1 h2 : Heap F} (b : Bool)
      → KeepsIdentity heap h1
      → KeepsIdentity heap h2
      → KeepsIdentity heap (if b then h1 else h2)
  either true p q = p
  either false p q = q

  assign_priorities-KeepsIdentity :
      (this : Plugin F) (cpu : ℕ) (heap heap' : Heap F)
      → assign_priorities fl this cpu heap ≡ some heap'
      → KeepsIdentity heap heap'
  unfolding assign_priorities
  assign_priorities-KeepsIdentity this cpu heap heap' run =
      let (ts, got, run1) = >>=-eq-some (get_elem? this.tasks cpu) _ run in
      let (dist, got', run2) = >>=-eq-some (get_elem? this.dist_prio cpu) _ run1 in
      let root = taskset_iterator_init ts in
      subst (KeepsIdentity heap) (some-injective _ _ run2) (
        either (too_many this dist)
          (assign_remapped-KeepsIdentity this dist root (udec this.prio_min) (2 ^ 32 - 1) 0 heap)
          (assign_levels-KeepsIdentity task_get_period root (udec this.prio_min) (2 ^ 32 - 1) heap))

  new_period-KeepsIdentity :
      (this this' : Plugin F) (cpu : ℕ) (heap heap' : Heap F)
      → new_period fl this cpu heap ≡ some (this', heap')
      → (this'.id ≡ this.id) × KeepsIdentity heap heap'
  unfolding new_period
  new_period-KeepsIdentity this this' cpu heap heap' run =
      let (dists, counted, run1) = >>=-eq-some (modify_at this.dist_prio cpu uinc) _ run in
      let this1 = record this { dist_prio = dists } in
      let (h, assigned, run2) = >>=-eq-some (assign_priorities fl this1 cpu heap) _ run1 in
      subst (λ (x : Plugin F × Heap F). (x.0.id ≡ this.id) × KeepsIdentity heap x.1)
        (some-injective _ _ run2) (refl, assign_priorities-KeepsIdentity this1 cpu heap h assigned)

  place-KeepsIdentity :
      (this this' : Plugin F) (cpu : ℕ) (heap heap' : Heap F) (a : ℕ) (next : List ℕ)
      → place fl this cpu heap a next ≡ some (this', heap')
      → (this'.id ≡ this.id) × KeepsIdentity heap heap'
  unfolding place
  place-KeepsIdentity this this' cpu heap heap' a [] run =
      new_period-KeepsIdentity this this' cpu heap heap' run
  place-KeepsIdentity this this' cpu heap heap' a (n ∷ next) run =
      elim (Bool-cases (task_get_period (heap n) == task_get_period (heap a))) [
        | inl same ↦
            subst (λ (x : Plugin F × Heap F). (x.0.id ≡ this.id) × KeepsIdentity heap x.1)
              (some-injective _ _ (rw (same, place) at run)) (refl, priority_kept heap a _)
        | inr other ↦ new_period-KeepsIdentity this this' cpu heap heap' (rw (other, place) at run)
      ]

  rm-schedule-own :
      (p p' : Plugin F) (w w' : World F) (a : ℕ)
      → plg_task_schedule fl p w a ≡ some (p', w')
      → (p'.id ≡ p.id) × ((w'.heap a).pluginid ≡ pos p.id) × SameButPlugin w w' a
  unfolding plg_task_schedule
  rm-schedule-own p p' w w' a run =
      let (cpu, chosen, run1) = >>=-eq-some (least_loaded_cpu fl p) _ run in
      let t = record (w.heap a) { cpu = cpu; pluginid = pos p.id } in
      let heap = update w.heap a t in
      let (ts, got, run2) = >>=-eq-some (get_elem? p.tasks cpu) _ run1 in
      let ((ts', next), added, run3) = >>=-eq-some (taskset_add_sorted_pr heap ts a) _ run2 in
      let this1 = record p { tasks = set p.tasks cpu ts' } in
      let ((placed, heap'), placing, run4) = >>=-eq-some (place fl this1 cpu heap a next) _ run3 in
      let acceptedu =
        if fl.eqb (task_get_util fl (w.heap a)) (fl.of_int (negsuc 0))
        then fl.of_int (pos 0)
        else task_get_util fl (w.heap a) in
      let (utils, charged, run5) =
        >>=-eq-some (modify_at placed.util_free_percpu cpu (λ u. fl.sub u acceptedu)) _ run4 in
      let (counts, tasks, run6) = >>=-eq-some (modify_at placed.task_count_percpu cpu inc) _ run5 in
      let (same_plugin, keeps) = place-KeepsIdentity this1 placed cpu heap heap' a next placing in
      let booked : Task F = record (heap' a) {
        acceptedt = task_get_runtime (heap' a);
        acceptedu = acceptedu;
      } in
      let (own, others) =
        given-SameButPlugin w a t (update heap' a booked) refl refl
          (kept-again keeps (booking_kept heap' a booked refl refl refl)) in
      subst
        (λ (x : Plugin F × World F).
          (x.0.id ≡ p.id) × ((x.1.heap a).pluginid ≡ pos p.id) × SameButPlugin w x.1 a)
        (some-injective _ _ run6) (same_plugin, own, others)
    where
      booking_kept :
          (heap : Heap F) (a : ℕ) (t : Task F)
          → t.id ≡ (heap a).id
          → t.ptid ≡ (heap a).ptid
          → t.pluginid ≡ (heap a).pluginid
          → KeepsIdentity heap (update heap a t)
      booking_kept heap a t e e' e'' = record {
        ids = λ b. ground (arith, e);
        owners = λ b. ground (arith, e');
        plugins = λ b. elim (Bool-cases (a == b)) [
          | inl is ↦
              let same : a ≡ b = ground arith in rw is (e'' ∙ ap (λ c. (heap c).pluginid) same)
          | inr is ↦ rw is
        ];
      }

  adjust_own-id :
      (f : F → F) (p p' : Plugin F) (t : Task F) → adjust_own fl f p t ≡ some p' → p'.id ≡ p.id
  unfolding adjust_own
  adjust_own-id f p p' t run =
      elim (Bool-cases (is_id t.pluginid p.id && not (fl.eqb t.acceptedu (fl.of_int (pos 0))))) [
        | inl own ↦
            let (utils, set_utils, run1) =
              >>=-eq-some (modify_at p.util_free_percpu t.cpu f) _ (rw (own, adjust_own) at run) in
            ap (λ q. q.id) (sym (some-injective _ _ run1))
        | inr other ↦ ap (λ q. q.id) (sym (some-injective _ _ (rw (other, adjust_own) at run)))
      ]

  rm-change-id :
      (res : Verdict) (p p' : Plugin F) (w : World F) (a : ℕ)
      → plg_task_change fl p w a ≡ some (res, p')
      → p'.id ≡ p.id
  unfolding plg_task_change
  rm-change-id res p p' w a run =
      let t = w.heap a in
      let (raised, up, run1) = >>=-eq-some (adjust_own fl (λ u. fl.add u t.acceptedu) p t) _ run in
      let (verdict, tested, run2) = >>=-eq-some (plg_task_accept fl raised w a) _ run1 in
      let (restored, down, run3) =
        >>=-eq-some (adjust_own fl (λ u. fl.sub u t.acceptedu) raised t) _ run2 in
      ap (λ (x : Verdict × Plugin F). x.1.id) (sym (some-injective _ _ run3))
      ∙ adjust_own-id _ raised restored t down
      ∙ adjust_own-id _ p raised t up

  rm-release-others :
      (k : Kernel) (res : Verdict) (p p' : Plugin F) (w w' : World F) (a : ℕ)
      → plg_task_release k fl p w a ≡ some (res, p', w')
      → (p'.id ≡ p.id) × SameButPlugin w w' a
  unfolding plg_task_release
  rm-release-others k res p p' w w' a run =
      let t = w.heap a in
      let (ts, got, run1) = >>=-eq-some (get_elem? p.tasks t.cpu) _ run in
      let (dists, distinct, run2) =
        >>=-eq-some
          (if shares_period w.heap t (taskset_iterator_init ts)
            then modify_at p.dist_prio t.cpu udec
            else some p.dist_prio)
          _ run1 in
      let (utils, freed, run3) =
        >>=-eq-some
          (if fl.eqb t.acceptedu (fl.of_int (pos 0))
            then some p.util_free_percpu
            else modify_at p.util_free_percpu t.cpu (λ u. fl.add u t.acceptedu))
          _ run2 in
      let ((removed, ts'), gone, run4) =
        >>=-eq-some (taskset_remove_by_rsvid w.heap ts t.id) _ run3 in
      let (counts, counted, run5) = >>=-eq-some (modify_at p.task_count_percpu t.cpu dec) _ run4 in
      subst (λ (x : Verdict × Plugin F × World F). (x.1.id ≡ p.id) × SameButPlugin w x.2 a)
        (some-injective _ _ run5) (refl, detached-SameButPlugin k _ w a)

  -- The RM plugin keeps what the scheduler relies on, although scheduling a task of a new period
  -- assigns the priorities of all the tasks of its processor again: it writes the plugin's identifier
  -- into the one task, and changes no other task's plugin and no task's identifier or owner. Attaching
  -- and detaching leave the tasks as they are.
  pub rm_operations-OperationsLaws : (k : Kernel) → OperationsLaws (rm_operations fl k)
  unfolding rm_operations
  rm_operations-OperationsLaws k = record {
    schedule-own = rm-schedule-own;
    release-others = rm-release-others k;
    change-id = rm-change-id;
    attach-store = rm-attach-store k;
    detach-store = detach_thread-store k;
  }
