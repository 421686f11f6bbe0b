-- ===== src/Scheduler/Change.antt =====
-- daemon/retif_scheduler.c, `rtf_scheduler_task_change`: a task moves to the plugin that takes its change.
use retif.Common.{
  ℕ, ◌<◌, none, some, List, get_elem?, length, All, length-set, >>=-eq-some, ◌≡◌, ◌≢◌, ◌⊎◌, ◌∙◌,
  refl, sym, ap, subst, arith, inl, inr, Option, ◌>>=◌,
}
use mathlib.Core.Option.{some-injective}
use retif.Common.Int.{pos}
use retif.Task.{Params}
use retif.Taskset.{taskset_search}
use retif.Plugin.{World, Verdict, ok, partial, refused, error}
use retif.Scheduler.{
  Scheduler, Loaded, SameButPlugin, Chosen, full, best_effort, nobody, put, ask_change, release_on,
  move_to, move_chosen, test_and_modify, scheduler_task_change,
}
use retif.Scheduler.Choice.{Choice, all_refuse, Gives, gives_ok, gives_partial}
use retif.Scheduler.Reseated.{Reseated, Reseated-length, ask_change-Reseated, Reseated-IsPlaced}
use retif.Scheduler.Modify.{SaysToChange, ask_change-Choice}
use retif.Scheduler.Placed.{
  IsPlaced, IsLoaded, HasPlugin, HasPlugin-kept, All-map, put-IsLoaded, same-or-not,
  schedule_on-ScheduledOn,
}

-- A task was searched for: there is none, or the rest of the handler ran with it.
pub search-cases {ℓ κ} :
    {A : Type ℓ} {R : Type κ} (t : Option A) (nothing : Option R) (f : A → Option R) {r : R}
    → elim t [ none ↦ nothing | some a ↦ f a ] ≡ some r
    → ((t ≡ none) × (nothing ≡ some r)) ⊎ ((a : A) × (t ≡ some a) × (f a ≡ some r))
search-cases none nothing f run = inl (refl, run)
search-cases (some a) nothing f run = inr (a, refl, run)

module _ {F : Type 0} where
  -- What a plugin's `release` does to the scheduler.
  record ReleasedOn (s s' : Scheduler F) (w w' : World F) (a : ℕ) : Type 0 where
    loaded : IsLoaded s'.plugin
    as_many : length s'.plugin ≡ length s.plugin
    tasks : s'.taskset ≡ s.taskset
    same : SameButPlugin w w' a

  release_on-ReleasedOn :
      (s s' : Scheduler F) (w w' : World F) (a i : ℕ)
      → IsLoaded s.plugin
      → release_on s w a i ≡ some (s', w')
      → ReleasedOn s s' w w' a
  unfolding release_on
  release_on-ReleasedOn s s' w w' a i h run =
      let (p, got, run1) = >>=-eq-some (get_elem? s.plugin i) _ run in
      let ((res, plg, w1), did, run2) = >>=-eq-some (p.calls.release p.plg w a) _ run1 in
      let (own, same) = (h i p got).1.release-others res p.plg plg w w1 a did in
      let done : ReleasedOn s (put s i p plg) w w1 a = record {
        loaded = put-IsLoaded s.plugin i p plg h got own;
        as_many = length-set s.plugin i (record p { plg = plg });
        tasks = refl;
        same = same;
      } in
      subst (λ (x : Scheduler F × World F). ReleasedOn s x.0 w x.1 a) (some-injective _ _ run2) done

  -- The task `a` moved to the plugin `i`.
  record MovedTo (s s' : Scheduler F) (w w' : World F) (a i : ℕ) : Type 0 where
    placed : IsPlaced s' w'
    tasks : s'.taskset ≡ s.taskset
    own : (w'.heap a).pluginid ≡ pos i
    there : i < length s.plugin
    same : SameButPlugin w w' a

  moved-HasPlugin :
      {w w' : World F} {n m a i : ℕ}
      → SameButPlugin w w' a
      → m ≡ n
      → (w'.heap a).pluginid ≡ pos i
      → i < n
      → (b : ℕ) → HasPlugin w n b
      → (a ≡ b) ⊎ (a ≢ b)
      → HasPlugin w' m b
  moved-HasPlugin {w' = w'} {i = i} same e given lt b has (inl is) =
      (i, ap (λ c. (w'.heap c).pluginid) (sym is) ∙ given, omega (arith, lt, e))
  moved-HasPlugin same e given lt b has (inr ne) = HasPlugin-kept same e ne has

  move_to-MovedTo :
      (s s' : Scheduler F) (w w' : World F) (a i : ℕ)
      → IsPlaced s w
      → move_to s w a i ≡ some (s', w')
      → MovedTo s s' w w' a i
  unfolding move_to
  move_to-MovedTo s s' w w' a i h run =
      let ((s1, w1), let_go, taken) = >>=-eq-some (release_on s w a i) _ run in
      let off = release_on-ReleasedOn s s1 w w1 a i h.loaded let_go in
      let on = schedule_on-ScheduledOn s1 s' w1 w' a i off.loaded taken in
      let same : SameButPlugin w w' a = record {
        ids = λ b. on.same.ids b ∙ off.same.ids b;
        owners = λ b. on.same.owners b ∙ off.same.owners b;
        plugins = λ b ne. on.same.plugins b ne ∙ off.same.plugins b ne;
        next = on.same.next ∙ off.same.next;
      } in
      let as_many = on.as_many ∙ off.as_many in
      let tasks = on.tasks ∙ off.tasks in
      let there : i < length s.plugin = omega (arith, on.there, off.as_many) in
      record {
        placed = record {
          loaded = on.loaded;
          counted = rw tasks h.counted;
          allocated =
              rw tasks
                (All-map s.taskset.tasks.root (λ b lt. omega (arith, lt, same.next)) h.allocated);
          distinct = rw tasks h.distinct;
          placed = rw tasks (
              All-map s.taskset.tasks.root
                (λ b has. moved-HasPlugin same as_many on.given there b has (same-or-not a b))
                h.placed);
        };
        tasks = tasks;
        own = on.given;
        there = there;
        same = same;
      }

  -- What became of a request to change the task `rtf_id`: no task has that identifier; every plugin
  -- refused the change of the task, and the task set and the world are as before; or the task has moved
  -- to the plugin that the answers of the plugins choose, which also says the result.
  pub data Changed (s : Scheduler F) (w : World F) (rtf_id : ℕ)
      : Verdict → Scheduler F → World F → Type 0 where
    no_task : taskset_search w.heap s.taskset rtf_id ≡ none → Changed s w rtf_id error s w
    declined :
        (a : ℕ) (s' : Scheduler F)
        → taskset_search w.heap s.taskset rtf_id ≡ some a
        → All (SaysToChange w a refused) s.plugin
        → s'.taskset ≡ s.taskset
        → Changed s w rtf_id refused s' w
    moved :
        (a i : ℕ) (c : Chosen) (res : Verdict) (s' : Scheduler F) (w' : World F)
        → taskset_search w.heap s.taskset rtf_id ≡ some a
        → Choice (SaysToChange w a) s.plugin c
        → Gives c i res
        → s'.taskset ≡ s.taskset
        → (w'.heap a).pluginid ≡ pos i
        → i < length s.plugin
        → SameButPlugin w w' a
        → Changed s w rtf_id res s' w'

  -- The result of the two branches in which a plugin has the task, `res` being what is returned.
  move_to-Changed :
      (s s' : Scheduler F) (plugins : List (Loaded F)) (w w' : World F) (rtf_id a i : ℕ)
      (c : Chosen) (res res' : Verdict)
      → IsPlaced s w
      → Reseated s.plugin plugins
      → taskset_search w.heap s.taskset rtf_id ≡ some a
      → Choice (SaysToChange w a) s.plugin c
      → Gives c i res
      → ◌>>=◌ {B = Verdict × Scheduler F × World F}
          (move_to (record s { plugin = plugins }) w a i)
          (λ (s1, w1). some (res, s1, w1))
        ≡ some (res', s', w')
      → IsPlaced s' w' × Changed s w rtf_id res' s' w'
  move_to-Changed s s' plugins w w' rtf_id a i c res res' h seats found choice fine run =
      let ((s1, w1), did, rest) =
        >>=-eq-some (move_to (record s { plugin = plugins }) w a i) _ run in
      let m =
        move_to-MovedTo (record s { plugin = plugins }) s1 w w1 a i
          (Reseated-IsPlaced s w plugins h seats) did in
      let there : i < length s.plugin = omega (arith, m.there, Reseated-length seats) in
      subst
        (λ (x : Verdict × Scheduler F × World F). IsPlaced x.1 x.2 × Changed s w rtf_id x.0 x.1 x.2)
        (some-injective _ _ rest)
        (m.placed, moved a i c res s1 w1 found choice fine m.tasks m.own there m.same)

  move_chosen-Changed :
      (s s' : Scheduler F) (plugins : List (Loaded F)) (w w' : World F) (rtf_id a : ℕ) (c : Chosen)
      (res : Verdict)
      → IsPlaced s w
      → Reseated s.plugin plugins
      → taskset_search w.heap s.taskset rtf_id ≡ some a
      → Choice (SaysToChange w a) s.plugin c
      → move_chosen (record s { plugin = plugins }) w a c ≡ some (res, s', w')
      → IsPlaced s' w' × Changed s w rtf_id res s' w'
  unfolding move_chosen
  move_chosen-Changed s s' plugins w w' rtf_id a (full i) res h seats found choice run =
      move_to-Changed s s' plugins w w' rtf_id a i (full i) ok res h seats found choice (gives_ok i)
        run
  move_chosen-Changed s s' plugins w w' rtf_id a (best_effort i) res h seats found choice run =
      move_to-Changed s s' plugins w w' rtf_id a i (best_effort i) partial res h seats found choice
        (gives_partial i) run
  move_chosen-Changed s s' plugins w w' rtf_id a nobody res h seats found (all_refuse every) run =
      subst
        (λ (x : Verdict × Scheduler F × World F). IsPlaced x.1 x.2 × Changed s w rtf_id x.0 x.1 x.2)
        (some-injective _ _ run)
        (Reseated-IsPlaced s w plugins h seats, declined a _ found every refl)

  -- If the invariant holds and no plugin faults in `rtf_scheduler_task_change`, the invariant holds
  -- after it, and the task set is the same. If no task has the identifier, RTF_ERROR is returned. If
  -- every plugin refuses the change of the task, RTF_NO is returned and the world is as before. Otherwise
  -- the task moves to the first plugin that says OK, with the result RTF_OK, or, if none says OK, to the
  -- first that says PARTIAL, with the result RTF_PARTIAL; it has the number of this plugin, which is
  -- there, and no other task's plugin has changed.
  pub scheduler_task_change-Changed :
      (s s' : Scheduler F) (w w' : World F) (tp : Params) (rtf_id : ℕ) (res : Verdict)
      → IsPlaced s w
      → scheduler_task_change s w tp rtf_id ≡ some (res, s', w')
      → IsPlaced s' w' × Changed s w rtf_id res s' w'
  unfolding scheduler_task_change test_and_modify
  scheduler_task_change-Changed s s' w w' tp rtf_id res h run =
      elim (search-cases (taskset_search w.heap s.taskset rtf_id) (some (error, s, w))
        (test_and_modify s w) run) [
          | inl (nothing, answered) ↦
              subst
                (λ (x : Verdict × Scheduler F × World F).
                  IsPlaced x.1 x.2 × Changed s w rtf_id x.0 x.1 x.2)
                (some-injective _ _ answered) (h, no_task nothing)
          | inr (a, found, run1) ↦
              let ((c, plugins), asked, run2) = >>=-eq-some (ask_change w a 0 s.plugin) _ run1 in
              move_chosen-Changed s s' plugins w w' rtf_id a c res h
                (ask_change-Reseated w a 0 s.plugin plugins c (λ j p at. (h.loaded j p at).1) asked)
                found (ask_change-Choice w a s.plugin plugins c asked) run2
        ]
