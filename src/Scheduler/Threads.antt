-- ===== src/Scheduler/Threads.antt =====
-- daemon/retif_scheduler.c, `rtf_scheduler_task_attach` and `rtf_scheduler_task_detach`: the thread of a
-- task comes and goes, the task stays where it is.
use retif.Common.{ℕ, some, get_elem?, >>=-eq-some, ◌≡◌, ◌∙◌, ap, subst, arith, inl, inr}
use mathlib.Core.Option.{some-injective}
use retif.Common.Int.{pos, negsuc}
use retif.Taskset.{taskset_search}
use retif.Plugin.{World, Verdict, error, write}
use retif.Scheduler.{Scheduler, Loaded, plugin_at, scheduler_task_attach, scheduler_task_detach}
use retif.Scheduler.Placed.{IsPlaced, All-map}
use retif.Scheduler.Change.{search-cases}

module _ {F : Type 0} where
  plugin_at-loaded :
      (s : Scheduler F) (w : World F) (a i : ℕ) (p : Loaded F)
      → plugin_at s.plugin (w.heap a).pluginid ≡ some (i, p)
      → (j : ℕ) × (get_elem? s.plugin j ≡ some p)
  plugin_at-loaded s w a i p found = go (w.heap a).pluginid found
    where
      go : (n : _) → plugin_at s.plugin n ≡ some (i, p) → (j : ℕ) × (get_elem? s.plugin j ≡ some p)
      go (pos n) found =
          let (q, got, is) = >>=-eq-some (get_elem? s.plugin n) _ found in
          (n, got ∙ ap (λ (x : ℕ × Loaded F). some x.1) (some-injective _ _ is))
      go (negsuc n) found = absurd (cc)

  -- The invariant only reads the plugins of the tasks and the next free address.
  stored-IsPlaced :
      (s : Scheduler F) (w w' : World F)
      → IsPlaced s w
      → ((b : ℕ) → (w'.heap b).pluginid ≡ (w.heap b).pluginid)
      → w'.next ≡ w.next
      → IsPlaced s w'
  stored-IsPlaced s w w' h same next = record {
    loaded = h.loaded;
    counted = h.counted;
    allocated = All-map s.taskset.tasks.root (λ b lt. omega (arith, lt, next)) h.allocated;
    distinct = h.distinct;
    placed = All-map s.taskset.tasks.root (λ b (i, own, lt). (i, same b ∙ own, lt)) h.placed;
  }

  thread-plugin :
      (w : World F) (a pid b : ℕ)
      → ((write w a (record (w.heap a) { tid = pid })).heap b).pluginid ≡ (w.heap b).pluginid
  thread-plugin w a pid b = ground arith

  -- The invariant holds after `rtf_scheduler_task_attach`, whatever it returns.
  pub scheduler_task_attach-IsPlaced :
      (s s' : Scheduler F) (w w' : World F) (rtf_id pid : ℕ) (res : Verdict)
      → IsPlaced s w
      → scheduler_task_attach s w rtf_id pid ≡ some (res, s', w')
      → IsPlaced s' w'
  unfolding scheduler_task_attach
  scheduler_task_attach-IsPlaced s s' w w' rtf_id pid res h run =
      elim (search-cases (taskset_search w.heap s.taskset rtf_id) (some (error, s, w)) _ run) [
        | inl (nothing, answered) ↦
            subst (λ (x : Verdict × Scheduler F × World F). IsPlaced x.1 x.2)
              (some-injective _ _ answered) h
        | inr (a, found, run1) ↦
            let w1 = write w a (record (w.heap a) { tid = pid }) in
            let ((i, p), at, did) = >>=-eq-some (plugin_at s.plugin (w1.heap a).pluginid) _ run1 in
            let (j, got) = plugin_at-loaded s w1 a i p at in
            let (heap_same, next_same) = (h.loaded j p got).1.attach-store w1 a in
            subst (λ (x : Verdict × Scheduler F × World F). IsPlaced x.1 x.2)
              (some-injective _ _ did)
              (stored-IsPlaced s w _ h
                (λ b. ap (λ heap. (heap b).pluginid) heap_same ∙ thread-plugin w a pid b) next_same)
      ]

  -- The invariant holds after `rtf_scheduler_task_detach`, whatever it returns.
  pub scheduler_task_detach-IsPlaced :
      (s s' : Scheduler F) (w w' : World F) (rtf_id : ℕ) (res : Verdict)
      → IsPlaced s w
      → scheduler_task_detach s w rtf_id ≡ some (res, s', w')
      → IsPlaced s' w'
  unfolding scheduler_task_detach
  scheduler_task_detach-IsPlaced s s' w w' rtf_id res h run =
      elim (search-cases (taskset_search w.heap s.taskset rtf_id) (some (error, s, w)) _ run) [
        | inl (nothing, answered) ↦
            subst (λ (x : Verdict × Scheduler F × World F). IsPlaced x.1 x.2)
              (some-injective _ _ answered) h
        | inr (a, found, run1) ↦
            let ((i, p), at, did) = >>=-eq-some (plugin_at s.plugin (w.heap a).pluginid) _ run1 in
            let (j, got) = plugin_at-loaded s w a i p at in
            let (heap_same, next_same) = (h.loaded j p got).1.detach-store w a in
            subst (λ (x : Verdict × Scheduler F × World F). IsPlaced x.1 x.2)
              (some-injective _ _ did)
              (stored-IsPlaced s w _ h (λ b. ap (λ heap. (heap b).pluginid) heap_same) next_same)
      ]
