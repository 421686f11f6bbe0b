-- ===== src/Plugins/Fulfilled.antt =====
-- plugins/sched_FP.c and plugins/sched_EDF.c: the plugins keep what daemon/retif_scheduler.c relies on.
use retif.Common.{ℕ, some, >>=-eq-some, ◌≡◌, ◌∙◌, refl, sym, ap, subst, arith, Bool-cases, inl, inr}
use mathlib.Core.Option.{some-injective}
use retif.Common.Int.{pos, negsuc}
use retif.Floats.{Floats}
use retif.Task.{Task}
use retif.Plugin.{
  Plugin, Verdict, World, Kernel, Policy, detach_running, write, modify_at, inc, dec,
  least_loaded_count, is_id,
}
use retif.Scheduler.{OperationsLaws, SameButPlugin}
use retif.Edf.Schedule.{detach_running-heap, update_self, plg_task_schedule-Scheduled}
use retif.Plugins.Stores.{detach_thread-store, edf-attach-store, fp-attach-store}
use retif.Plugins.{edf_operations, fp_operations}
use retif.Fp
use retif.Edf

module _ {F : Type 0} where
  pub write-SameButPlugin :
      (w : World F) (a : ℕ) (t : Task F)
      → t.id ≡ (w.heap a).id
      → t.ptid ≡ (w.heap a).ptid
      → SameButPlugin w (write w a t) a
  write-SameButPlugin w a t same_id same_owner = record {
    ids = λ b. ground (arith, same_id);
    owners = λ b. ground arith;
    plugins = λ b ne. ground arith;
    next = refl;
  }

  pub heap-SameButPlugin :
      {w w1 w' : World F} {a : ℕ}
      → SameButPlugin w w1 a
      → w'.heap ≡ w1.heap
      → w'.next ≡ w1.next
      → SameButPlugin w w' a
  heap-SameButPlugin same e e' = record {
    ids = λ b. ap (λ h. (h b).id) e ∙ same.ids b;
    owners = λ b. ap (λ h. (h b).ptid) e ∙ same.owners b;
    plugins = λ b ne. ap (λ h. (h b).pluginid) e ∙ same.plugins b ne;
    next = e' ∙ same.next;
  }

  detach_running-next :
      (k : Kernel) (policy : Policy) (w : World F) (a : ℕ)
      → (detach_running k policy w a).1.next ≡ w.next
  unfolding detach_running
  detach_running-next k policy w a = ground arith

  -- A task that is taken from its plugin and detached.
  pub detached-SameButPlugin :
      (k : Kernel) (policy : Policy) (w : World F) (a : ℕ)
      → SameButPlugin w
          (detach_running k policy (write w a (record (w.heap a) { pluginid = negsuc 0 })) a).1
          a
  detached-SameButPlugin k policy w a =
      heap-SameButPlugin (write-SameButPlugin w a _ refl refl) (detach_running-heap k policy _ a)
        (detach_running-next k policy _ a)

module _ {F : Type 0} (k : Kernel) (fl : Floats F) where
  fp-schedule-own :
      (p p' : Plugin F) (w w' : World F) (a : ℕ)
      → retif.Fp.plg_task_schedule k fl p w a ≡ some (p', w')
      → (p'.id ≡ p.id) × ((w'.heap a).pluginid ≡ pos p.id) × SameButPlugin w w' a
  unfolding retif.Fp.plg_task_schedule
  fp-schedule-own p p' w w' a run =
      let (cpu, chosen, run1) = >>=-eq-some (least_loaded_count p) _ run in
      let (counts, counted, run2) = >>=-eq-some (modify_at p.task_count_percpu cpu inc) _ run1 in
      subst
        (λ (x : Plugin F × World F).
          (x.0.id ≡ p.id) × ((x.1.heap a).pluginid ≡ pos p.id) × SameButPlugin w x.1 a)
        (some-injective _ _ run2)
        (refl, ap (λ t. t.pluginid) (update_self w.heap a _), write-SameButPlugin w a _ refl refl)

  fp-release-others :
      (res : Verdict) (p p' : Plugin F) (w w' : World F) (a : ℕ)
      → retif.Fp.plg_task_release k p w a ≡ some (res, p', w')
      → (p'.id ≡ p.id) × SameButPlugin w w' a
  unfolding retif.Fp.plg_task_release
  fp-release-others res p p' w w' a run =
      let (counts, counted, run1) =
        >>=-eq-some (modify_at p.task_count_percpu (w.heap a).cpu dec) _ run in
      subst (λ (x : Verdict × Plugin F × World F). (x.1.id ≡ p.id) × SameButPlugin w x.2 a)
        (some-injective _ _ run1) (refl, detached-SameButPlugin k _ w a)

  fp-change-id :
      (res : Verdict) (p p' : Plugin F) (w : World F) (a : ℕ)
      → retif.Fp.plg_task_change p w a ≡ some (res, p')
      → p'.id ≡ p.id
  unfolding retif.Fp.plg_task_change
  fp-change-id res p p' w a run =
      let (verdict, tested, run1) = >>=-eq-some (retif.Fp.plg_task_accept p w a) _ run in
      ap (λ (x : Verdict × Plugin F). x.1.id) (sym (some-injective _ _ run1))

  -- The FP plugin keeps what the scheduler relies on: scheduling a task writes the plugin's identifier
  -- into it, scheduling and releasing change no other task's plugin and no task's identifier or owner,
  -- no function changes the plugin's identifier, and attaching and detaching leave the tasks as they are.
  pub fp_operations-OperationsLaws : OperationsLaws (fp_operations fl k)
  unfolding fp_operations
  fp_operations-OperationsLaws = record {
    schedule-own = fp-schedule-own;
    release-others = fp-release-others;
    change-id = fp-change-id;
    attach-store = fp-attach-store k;
    detach-store = detach_thread-store k;
  }

  edf-schedule-own :
      (p p' : Plugin F) (w w' : World F) (a : ℕ)
      → retif.Edf.plg_task_schedule fl p w a ≡ some (p', w')
      → (p'.id ≡ p.id) × ((w'.heap a).pluginid ≡ pos p.id) × SameButPlugin w w' a
  edf-schedule-own p p' w w' a run =
      let did = plg_task_schedule-Scheduled fl p w a run in
      (
        ap (λ q. q.id) did.plugin,
        ap (λ v. (v.heap a).pluginid) did.world ∙ ap (λ t. t.pluginid) (update_self w.heap a _),
        subst (λ v. SameButPlugin w v a) (sym did.world) (write-SameButPlugin w a _ refl refl),
      )

  edf-release-others :
      (res : Verdict) (p p' : Plugin F) (w w' : World F) (a : ℕ)
      → retif.Edf.plg_task_release k fl p w a ≡ some (res, p', w')
      → (p'.id ≡ p.id) × SameButPlugin w w' a
  unfolding retif.Edf.plg_task_release
  edf-release-others res p p' w w' a run =
      let (utils, raised, run1) =
        >>=-eq-some
          (modify_at p.util_free_percpu (w.heap a).cpu (λ u. fl.add u (w.heap a).acceptedu)) _
          run in
      let (counts, counted, run2) =
        >>=-eq-some (modify_at p.task_count_percpu (w.heap a).cpu dec) _ run1 in
      subst (λ (x : Verdict × Plugin F × World F). (x.1.id ≡ p.id) × SameButPlugin w x.2 a)
        (some-injective _ _ run2) (refl, detached-SameButPlugin k _ w a)

  adjust_own-id :
      (f : F → F) (p p' : Plugin F) (t : Task F)
      → retif.Edf.adjust_own f p t ≡ some p'
      → p'.id ≡ p.id
  unfolding retif.Edf.adjust_own
  adjust_own-id f p p' t run = elim (Bool-cases (is_id t.pluginid p.id)) [
    | inl own ↦
        let (utils, set_utils, run1) =
          >>=-eq-some (modify_at p.util_free_percpu t.cpu f) _
            (rw (own, retif.Edf.adjust_own) at run) in
        ap (λ q. q.id) (sym (some-injective _ _ run1))
    | inr other ↦
        ap (λ q. q.id) (sym (some-injective _ _ (rw (other, retif.Edf.adjust_own) at run)))
  ]

  edf-change-id :
      (res : Verdict) (p p' : Plugin F) (w : World F) (a : ℕ)
      → retif.Edf.plg_task_change fl p w a ≡ some (res, p')
      → p'.id ≡ p.id
  unfolding retif.Edf.plg_task_change
  edf-change-id res p p' w a run =
      let (raised, up, run1) =
        >>=-eq-some (retif.Edf.adjust_own (λ u. fl.add u (w.heap a).acceptedu) p (w.heap a)) _
          run in
      let (verdict, tested, run2) = >>=-eq-some (retif.Edf.plg_task_accept fl raised w a) _ run1 in
      let (restored, down, run3) =
        >>=-eq-some (retif.Edf.adjust_own (λ u. fl.sub u (w.heap a).acceptedu) raised (w.heap a)) _
          run2 in
      ap (λ (x : Verdict × Plugin F). x.1.id) (sym (some-injective _ _ run3))
      ∙ adjust_own-id _ raised restored _ down
      ∙ adjust_own-id _ p raised _ up

  -- The EDF plugin keeps what the scheduler relies on: scheduling a task writes the plugin's identifier
  -- into it, scheduling and releasing change no other task's plugin and no task's identifier or owner,
  -- no function changes the plugin's identifier, and attaching and detaching leave the tasks as they are.
  pub edf_operations-OperationsLaws : OperationsLaws (edf_operations fl k)
  unfolding edf_operations
  edf_operations-OperationsLaws = record {
    schedule-own = edf-schedule-own;
    release-others = edf-release-others;
    change-id = edf-change-id;
    attach-store = edf-attach-store k;
    detach-store = detach_thread-store k;
  }
