-- ===== src/Scheduler/Placed.antt =====
-- daemon/retif_scheduler.c: every task of the task set stands under a plugin that is there.
use retif.Common.{
  ℕ, ◌+◌, ◌%◌, ◌^◌, ◌<◌, some, List, [], ◌∷◌, get_elem?, get_elem?-lt, get_elem?-set_self,
  get_elem?-set_ne, length-set, set, length, All, ◌==◌, >>=-eq-some, ◌≡◌, ◌≢◌, ◌⊎◌, Bool-cases,
  refl, sym, ap, ◌∙◌, arith, inl, inr, subst,
}
use mathlib.Core.Option.{some-injective}
use retif.Common.Int.{pos}
use retif.Floats.{Floats}
use retif.LinkedList.{IsCounted}
use retif.Task.{Params, Task}
use retif.Taskset.{Heap, taskset_add_top}
use retif.Plugin.{update, Plugin, World, Verdict}
use retif.Scheduler.{
  Scheduler, Loaded, OperationsLaws, SameButPlugin, Chosen, full, best_effort, nobody, ask_accept,
  assign_chosen, assign_to, schedule_on, test_and_assign, put, scheduler_task_create, new_task,
  alloc,
}

-- No entry twice.
unfoldable pub Distinct : List ℕ → Type 0
Distinct [] = Unit
Distinct (x ∷ xs) = All (λ y. x ≢ y) xs × Distinct xs

pub All-map {ℓ κ} :
    {A : Type ℓ} {P Q : A → Type κ} (xs : List A) → ((x : A) → P x → Q x) → All P xs → All Q xs
All-map [] f h = tt
All-map (x ∷ xs) f h = (f x h.0, All-map xs f h.1)

pub All-zip {ℓ κ} :
    {A : Type ℓ} (P Q : A → Type κ) (xs : List A) → All P xs → All Q xs → All (λ x. P x × Q x) xs
All-zip P Q [] p q = tt
All-zip P Q (x ∷ xs) p q = ((p.0, q.0), All-zip P Q xs p.1 q.1)

pub same-or-not : (i j : ℕ) → (i ≡ j) ⊎ (i ≢ j)
same-or-not i j = elim (Bool-cases (i == j)) [
  | inl e ↦ inl (ground arith)
  | inr ne ↦ inr (λ e. absurd (ground arith))
]

module _ {F : Type 0} where
  -- The plugins stand at their identifiers and keep what is relied on.
  abbrev pub IsLoaded : List (Loaded F) → Type 0
  IsLoaded plugins =
      (i : ℕ) (p : Loaded F)
      → get_elem? plugins i ≡ some p
      → (p.plg.id ≡ i) × OperationsLaws p.calls

  abbrev pub HasPlugin : World F → ℕ → ℕ → Type 0
  HasPlugin w plugins a = (i : ℕ) × ((w.heap a).pluginid ≡ pos i) × (i < plugins)

  -- The invariant of the scheduler: the plugins are loaded, the counter of the task set is right, its
  -- tasks are allocated, all different, and each has a plugin.
  pub record IsPlaced (s : Scheduler F) (w : World F) : Type 0 where
    pub loaded : IsLoaded s.plugin
    pub counted : IsCounted s.taskset.tasks
    pub allocated : All (λ a. a < w.next) s.taskset.tasks.root
    pub distinct : Distinct s.taskset.tasks.root
    pub placed : All (HasPlugin w (length s.plugin)) s.taskset.tasks.root

  pub put-IsLoaded :
      (plugins : List (Loaded F)) (i : ℕ) (p : Loaded F) (plg : Plugin F)
      → IsLoaded plugins
      → get_elem? plugins i ≡ some p
      → plg.id ≡ p.plg.id
      → IsLoaded (set plugins i (record p { plg = plg }))
  put-IsLoaded plugins i p plg h at same j q got = elim (same-or-not i j) [
    | inl e ↦
        let is : record p { plg = plg } ≡ q = some-injective _ _ (
          sym (get_elem?-set_self plugins i _ (get_elem?-lt plugins i at))
          ∙ ap (get_elem? (set plugins i (record p { plg = plg }))) e
          ∙ got) in
        (
          ap (λ r. r.plg.id) (sym is) ∙ same ∙ (h i p at).0 ∙ e,
          subst (λ r. OperationsLaws r.calls) is (h i p at).1,
        )
    | inr ne ↦ h j q (sym (get_elem?-set_ne plugins _ ne) ∙ got)
  ]

  -- What a plugin's `schedule` does to the scheduler.
  pub record ScheduledOn (s s' : Scheduler F) (w w' : World F) (a i : ℕ) : Type 0 where
    pub loaded : IsLoaded s'.plugin
    pub as_many : length s'.plugin ≡ length s.plugin
    pub there : i < length s.plugin
    pub tasks : s'.taskset ≡ s.taskset
    pub counter : s'.last_task_id ≡ s.last_task_id
    pub given : (w'.heap a).pluginid ≡ pos i
    pub same : SameButPlugin w w' a

  pub schedule_on-ScheduledOn :
      (s s' : Scheduler F) (w w' : World F) (a i : ℕ)
      → IsLoaded s.plugin
      → schedule_on s w a i ≡ some (s', w')
      → ScheduledOn s s' w w' a i
  unfolding schedule_on
  schedule_on-ScheduledOn s s' w w' a i h run =
      let (p, got, run1) = >>=-eq-some (get_elem? s.plugin i) _ run in
      let ((plg, w1), did, run2) = >>=-eq-some (p.calls.schedule p.plg w a) _ run1 in
      let (own, given, same) = (h i p got).1.schedule-own p.plg plg w w1 a did in
      let there = get_elem?-lt s.plugin i got in
      let done : ScheduledOn s (put s i p plg) w w1 a i = record {
        loaded = put-IsLoaded s.plugin i p plg h got own;
        as_many = length-set s.plugin i (record p { plg = plg });
        there = there;
        tasks = refl;
        counter = refl;
        given = given ∙ ap pos (h i p got).0;
        same = same;
      } in
      subst (λ (x : Scheduler F × World F). ScheduledOn s x.0 w x.1 a i) (some-injective _ _ run2)
        done

  pub HasPlugin-kept :
      {w w' : World F} {n m a b : ℕ}
      → SameButPlugin w w' a
      → m ≡ n
      → a ≢ b
      → HasPlugin w n b
      → HasPlugin w' m b
  HasPlugin-kept same e ne (i, own, lt) =
      (i, same.plugins _ (λ e'. ne (sym e')) ∙ own, omega (arith, e, lt))

  assign_to-IsPlaced :
      (s s' : Scheduler F) (w w' : World F) (a i : ℕ)
      → IsPlaced s w
      → a < w.next
      → All (λ b. a ≢ b) s.taskset.tasks.root
      → assign_to s w a i ≡ some (s', w')
      → IsPlaced s' w'
  unfolding assign_to taskset_add_top Distinct
  assign_to-IsPlaced s s' w w' a i h lt new run =
      let on =
        schedule_on-ScheduledOn (record s { taskset = taskset_add_top s.taskset a }) s' w w' a i
          h.loaded run in
      record {
        loaded = on.loaded;
        counted = rw on.tasks (omega (arith, h.counted));
        allocated = rw on.tasks (
          omega (arith, lt, on.same.next),
          All-map s.taskset.tasks.root (λ b below. omega (arith, below, on.same.next)) h.allocated,
        );
        distinct = rw on.tasks (new, h.distinct);
        placed = rw on.tasks (
          (i, on.given, omega (arith, on.as_many, on.there)),
          All-map s.taskset.tasks.root (λ b (ne, own). HasPlugin-kept on.same on.as_many ne own)
              (All-zip (λ b. a ≢ b) (HasPlugin w (length s.plugin)) s.taskset.tasks.root new
                h.placed),
        );
      }

  assign_chosen-IsPlaced :
      (s s' : Scheduler F) (w w' : World F) (a : ℕ) (c : Chosen) (res : Verdict)
      → IsPlaced s w
      → a < w.next
      → All (λ b. a ≢ b) s.taskset.tasks.root
      → assign_chosen s w a c ≡ some (res, s', w')
      → IsPlaced s' w'
  unfolding assign_chosen
  assign_chosen-IsPlaced s s' w w' a (full i) res h lt new run =
      let ((s1, w1), did, rest) = >>=-eq-some (assign_to s w a i) _ run in
      subst (λ (x : Verdict × Scheduler F × World F). IsPlaced x.1 x.2) (some-injective _ _ rest)
        (assign_to-IsPlaced s s1 w w1 a i h lt new did)
  assign_chosen-IsPlaced s s' w w' a (best_effort i) res h lt new run =
      let ((s1, w1), did, rest) = >>=-eq-some (assign_to s w a i) _ run in
      subst (λ (x : Verdict × Scheduler F × World F). IsPlaced x.1 x.2) (some-injective _ _ rest)
        (assign_to-IsPlaced s s1 w w1 a i h lt new did)
  assign_chosen-IsPlaced s s' w w' a nobody res h lt new run =
      subst (λ (x : Verdict × Scheduler F × World F). IsPlaced x.1 x.2) (some-injective _ _ run) h

  untouched :
      (heap : Heap F) (a b : ℕ) (t : Task F)
      → b < a
      → (update heap a t b).pluginid ≡ (heap b).pluginid
  untouched heap a b t lt = ground arith

  alloc-IsPlaced :
      (s : Scheduler F) (w : World F) (t : Task F) (id : ℕ)
      → IsPlaced s w
      → IsPlaced (record s { last_task_id = id }) (alloc w t)
  alloc-IsPlaced s w t id h = record {
    loaded = h.loaded;
    counted = h.counted;
    allocated = All-map s.taskset.tasks.root (λ b lt. omega (arith, lt)) h.allocated;
    distinct = h.distinct;
    placed =
        All-map s.taskset.tasks.root
          (λ b (lt, has). (has.0, untouched w.heap w.next b t lt ∙ has.1, has.2))
          (All-zip (λ a. a < w.next) (HasPlugin w (length s.plugin)) s.taskset.tasks.root
            h.allocated h.placed);
  }

  -- If the invariant holds and no plugin faults in `rtf_scheduler_task_create`, the invariant holds
  -- after it, whatever the verdict: above all, the new task of a request that was accepted has the
  -- number of a plugin that is there.
  pub scheduler_task_create-IsPlaced :
      (fl : Floats F) (s s' : Scheduler F) (w w' : World F) (tp : Params) (ppid : ℕ) (res : Verdict)
      → IsPlaced s w
      → scheduler_task_create fl s w tp ppid ≡ some (res, s', w')
      → IsPlaced s' w'
  unfolding scheduler_task_create test_and_assign
  scheduler_task_create-IsPlaced fl s s' w w' tp ppid res h run =
      let id = s.last_task_id + 1 in
      let w1 = alloc w (new_task fl (id % 2 ^ 32) tp ppid) in
      let (c, asked, rest) = >>=-eq-some (ask_accept w1 w.next 0 s.plugin) _ run in
      assign_chosen-IsPlaced (record s { last_task_id = id }) s' w1 w' w.next c res
        (alloc-IsPlaced s w _ id h) (omega arith)
        (All-map s.taskset.tasks.root (λ b lt e. omega (arith, lt, e)) h.allocated) rest
