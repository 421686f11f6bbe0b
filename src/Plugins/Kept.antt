-- ===== src/Plugins/Kept.antt =====
-- plugins/sched_RR.c and plugins/sched_RM.c: the plugins that assign priorities to whole task sets keep
-- what daemon/retif_scheduler.c relies on.
use retif.Common.{
  ℕ, Bool, true, false, some, List, [], ◌∷◌, get_elem?, set, ◌==◌, if◌then◌else◌, >>=-eq-some, ◌≡◌,
  ◌∙◌, refl, sym, ap, subst, arith, Bool-cases, inl, inr,
}
use mathlib.Core.Option.{some-injective}
use retif.Common.Int.{ℤ, pos}
use retif.Floats.{Floats}
use retif.Task.{Task, task_get_priority, task_set_real_priority}
use retif.Taskset.{Heap, taskset_iterator_init, taskset_add_sorted_prio, taskset_remove_by_rsvid}
use retif.Plugin.{Plugin, Verdict, World, Kernel, update, modify_at, inc, dec, uinc, udec}
use retif.Scheduler.{OperationsLaws, SameButPlugin}
use retif.Edf.Schedule.{update_self}
use retif.Rm.{assign_levels, too_many}
use retif.Rr.{
  assign_remapped, assign_priorities, copy_next, place, plg_task_schedule, plg_task_release,
  plg_task_change, plg_task_accept, least_loaded_cpu, modify_level, level_count, is_int,
}
use retif.Plugins.Stores.{detach_thread-store, rr-attach-store}
use retif.Plugins.{rr_operations}
use retif.Plugins.Fulfilled.{write-SameButPlugin, detached-SameButPlugin}

module _ {F : Type 0} where
  -- Only priorities differ, as far as the scheduler can tell.
  pub record KeepsIdentity (heap heap' : Heap F) : Type 0 where
    pub ids : (b : ℕ) → (heap' b).id ≡ (heap b).id
    pub owners : (b : ℕ) → (heap' b).ptid ≡ (heap b).ptid
    pub plugins : (b : ℕ) → (heap' b).pluginid ≡ (heap b).pluginid

  pub kept : {heap : Heap F} → KeepsIdentity heap heap
  kept = record { ids = λ b. refl; owners = λ b. refl; plugins = λ b. refl }

  pub kept-again :
      {h1 h2 h3 : Heap F} → KeepsIdentity h1 h2 → KeepsIdentity h2 h3 → KeepsIdentity h1 h3
  kept-again k k' = record {
    ids = λ b. k'.ids b ∙ k.ids b;
    owners = λ b. k'.owners b ∙ k.owners b;
    plugins = λ b. k'.plugins b ∙ k.plugins b;
  }

  pub priority_kept :
      (heap : Heap F) (a p : ℕ)
      → KeepsIdentity heap (update heap a (task_set_real_priority (heap a) p))
  priority_kept heap a p = record {
    ids = λ b. ground arith;
    owners = λ b. ground arith;
    plugins = λ b. field_kept heap a b p;
  }
    where
      field_kept :
          (heap : Heap F) (a b p : ℕ)
          → (update heap a (task_set_real_priority (heap a) p) b).pluginid ≡ (heap b).pluginid
      field_kept heap a b p = elim (Bool-cases (a == b)) [
        | inl e ↦ let same : a ≡ b = ground arith in rw e (ap (λ c. (heap c).pluginid) same)
        | inr e ↦ rw e
      ]

  pub assign_levels-KeepsIdentity :
      (key : Task F → ℕ) (list : List ℕ) (curr prec : ℕ) (heap : Heap F)
      → KeepsIdentity heap (assign_levels key curr prec heap list)
  unfolding assign_levels
  assign_levels-KeepsIdentity key [] curr prec heap = kept
  assign_levels-KeepsIdentity key (a ∷ list) curr prec heap =
      kept-again (priority_kept heap a _) (assign_levels-KeepsIdentity key list _ _ _)

  -- A task that was given to the plugin, and priorities that changed after that.
  pub given-SameButPlugin :
      (w : World F) (a : ℕ) (t : Task F) (heap' : Heap F)
      → t.id ≡ (w.heap a).id
      → t.ptid ≡ (w.heap a).ptid
      → KeepsIdentity (update w.heap a t) heap'
      → ((heap' a).pluginid ≡ t.pluginid) × SameButPlugin w (record w { heap = heap' }) a
  given-SameButPlugin w a t heap' same_id same_owner keeps =
      let s = write-SameButPlugin w a t same_id same_owner in
      (
        keeps.plugins a ∙ ap (λ u. u.pluginid) (update_self w.heap a t),
        record {
          ids = λ b. keeps.ids b ∙ s.ids b;
          owners = λ b. keeps.owners b ∙ s.owners b;
          plugins = λ b ne. keeps.plugins b ∙ s.plugins b ne;
          next = refl;
        },
      )

module _ {F : Type 0} (k : Kernel) (fl : Floats F) where
  assign_remapped-KeepsIdentity :
      (this : Plugin F) (list : List ℕ) (heap : Heap F)
      → KeepsIdentity heap (assign_remapped k fl this heap list)
  unfolding assign_remapped
  assign_remapped-KeepsIdentity this [] heap = kept
  assign_remapped-KeepsIdentity this (a ∷ list) heap =
      kept-again (priority_kept heap a _) (assign_remapped-KeepsIdentity this list _)

  assign_priorities-KeepsIdentity :
      (this : Plugin F) (cpu : ℕ) (heap heap' : Heap F)
      → assign_priorities k fl this cpu heap ≡ some heap'
      → KeepsIdentity heap heap'
  unfolding assign_priorities
  assign_priorities-KeepsIdentity this cpu heap heap' run =
      let (ts, got, run1) = >>=-eq-some (get_elem? this.tasks cpu) _ run in
      let (dist, got', run2) = >>=-eq-some (get_elem? this.dist_prio cpu) _ run1 in
      subst (KeepsIdentity heap) (some-injective _ _ run2) (
        either (too_many this dist)
          (assign_remapped-KeepsIdentity this (taskset_iterator_init ts) heap)
          (assign_levels-KeepsIdentity task_get_priority (taskset_iterator_init ts) _ _ heap))
    where
      either :
          {heap h1 h2 : Heap F} (b : Bool)
          → KeepsIdentity heap h1
          → KeepsIdentity heap h2
          → KeepsIdentity heap (if b then h1 else h2)
      either true p q = p
      either false p q = q

  copy_next-KeepsIdentity :
      (heap heap' : Heap F) (a : ℕ) (next : List ℕ)
      → copy_next heap a next ≡ some heap'
      → KeepsIdentity heap heap'
  unfolding copy_next
  copy_next-KeepsIdentity heap heap' a [] run = absurd (cc)
  copy_next-KeepsIdentity heap heap' a (n ∷ next) run =
      subst (KeepsIdentity heap) (some-injective _ _ run) (priority_kept heap a _)

  place-KeepsIdentity :
      (this this' : Plugin F) (cpu : ℕ) (heap heap' : Heap F) (a : ℕ) (count : ℤ) (next : List ℕ)
      → place k fl this cpu heap a count next ≡ some (this', heap')
      → (this'.id ≡ this.id) × KeepsIdentity heap heap'
  unfolding place
  place-KeepsIdentity this this' cpu heap heap' a count next run =
      elim (Bool-cases (is_int count 1)) [
        | inl first ↦
            let (dists, counted, run1) =
              >>=-eq-some (modify_at this.dist_prio cpu uinc) _ (rw (first, place) at run) in
            let (h, assigned, run2) =
              >>=-eq-some (assign_priorities k fl (record this { dist_prio = dists }) cpu heap) _
                run1 in
            subst (λ (x : Plugin F × Heap F). (x.0.id ≡ this.id) × KeepsIdentity heap x.1)
              (some-injective _ _ run2)
              (
                refl,
                assign_priorities-KeepsIdentity (record this { dist_prio = dists }) cpu heap h
                    assigned,
              )
        | inr more ↦
            let (h, copied, run1) =
              >>=-eq-some (copy_next heap a next) _ (rw (more, place) at run) in
            subst (λ (x : Plugin F × Heap F). (x.0.id ≡ this.id) × KeepsIdentity heap x.1)
              (some-injective _ _ run1) (refl, copy_next-KeepsIdentity heap h a next copied)
      ]

  rr-schedule-own :
      (p p' : Plugin F) (w w' : World F) (a : ℕ)
      → plg_task_schedule k fl p w a ≡ some (p', w')
      → (p'.id ≡ p.id) × ((w'.heap a).pluginid ≡ pos p.id) × SameButPlugin w w' a
  unfolding plg_task_schedule
  rr-schedule-own p p' w w' a run =
      let prio = task_get_priority (w.heap a) in
      let (cpu, chosen, run1) = >>=-eq-some (least_loaded_cpu p) _ run in
      let t = record (w.heap a) { cpu = cpu; pluginid = pos p.id } in
      let heap = update w.heap a t in
      let (table, counted, run2) = >>=-eq-some (modify_level p.n_per_prio cpu prio inc) _ run1 in
      let (ts, got, run3) = >>=-eq-some (get_elem? p.tasks cpu) _ run2 in
      let ((ts', next), added, run4) = >>=-eq-some (taskset_add_sorted_prio heap ts a) _ run3 in
      let (count, level, run5) = >>=-eq-some (level_count table cpu prio) _ run4 in
      let this1 = record p { n_per_prio = table; tasks = set p.tasks cpu ts' } in
      let ((placed, heap'), placing, run6) =
        >>=-eq-some (place k fl this1 cpu heap a count next) _ run5 in
      let (counts, tasks, run7) = >>=-eq-some (modify_at placed.task_count_percpu cpu inc) _ run6 in
      let (same_plugin, keeps) =
        place-KeepsIdentity this1 placed cpu heap heap' a count next placing in
      let (own, others) = given-SameButPlugin w a t heap' refl refl keeps in
      subst
        (λ (x : Plugin F × World F).
          (x.0.id ≡ p.id) × ((x.1.heap a).pluginid ≡ pos p.id) × SameButPlugin w x.1 a)
        (some-injective _ _ run7) (same_plugin, own, others)

  rr-release-others :
      (res : Verdict) (p p' : Plugin F) (w w' : World F) (a : ℕ)
      → plg_task_release k p w a ≡ some (res, p', w')
      → (p'.id ≡ p.id) × SameButPlugin w w' a
  unfolding plg_task_release
  rr-release-others res p p' w w' a run =
      let t = w.heap a in
      let prio = task_get_priority t in
      let (counts, counted, run1) = >>=-eq-some (modify_at p.task_count_percpu t.cpu dec) _ run in
      let (table, lowered, run2) = >>=-eq-some (modify_level p.n_per_prio t.cpu prio dec) _ run1 in
      let (count, level, run3) = >>=-eq-some (level_count table t.cpu prio) _ run2 in
      let (dists, distinct, run4) =
        >>=-eq-some (if is_int count 0 then modify_at p.dist_prio t.cpu udec else some p.dist_prio)
          _ run3 in
      let (ts, got, run5) = >>=-eq-some (get_elem? p.tasks t.cpu) _ run4 in
      let ((removed, ts'), gone, run6) =
        >>=-eq-some (taskset_remove_by_rsvid w.heap ts t.id) _ run5 in
      subst (λ (x : Verdict × Plugin F × World F). (x.1.id ≡ p.id) × SameButPlugin w x.2 a)
        (some-injective _ _ run6) (refl, detached-SameButPlugin k _ w a)

  rr-change-id :
      (res : Verdict) (p p' : Plugin F) (w : World F) (a : ℕ)
      → plg_task_change p w a ≡ some (res, p')
      → p'.id ≡ p.id
  unfolding plg_task_change
  rr-change-id res p p' w a run =
      let (verdict, tested, run1) = >>=-eq-some (plg_task_accept p w a) _ run in
      ap (λ (x : Verdict × Plugin F). x.1.id) (sym (some-injective _ _ run1))

  -- The RR plugin keeps what the scheduler relies on, although scheduling one task assigns the
  -- priorities of all the tasks of its processor again: it writes the plugin's identifier into the one
  -- task, and changes no other task's plugin and no task's identifier or owner. Attaching and detaching
  -- leave the tasks as they are.
  pub rr_operations-OperationsLaws : OperationsLaws (rr_operations fl k)
  unfolding rr_operations
  rr_operations-OperationsLaws = record {
    schedule-own = rr-schedule-own;
    release-others = rr-release-others;
    change-id = rr-change-id;
    attach-store = rr-attach-store k;
    detach-store = detach_thread-store k;
  }
