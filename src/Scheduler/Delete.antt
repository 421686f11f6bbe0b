-- ===== src/Scheduler/Delete.antt =====
-- daemon/retif_scheduler.c, the ends of a task: `rtf_scheduler_delete` for the tasks of a process that
-- is gone, `rtf_scheduler_task_destroy` for one task.
use retif.Common.{
  ℕ, zero, suc, ◌<◌, Bool, Option, none, some, List, [], ◌∷◌, ◌++◌, get_elem?, length,
  length-append, length-set, All, >>=-eq-some, ◌≡◌, ◌≢◌, ◌⊎◌, refl, sym, ap, ◌∙◌, arith, inl, inr,
  subst,
}
use mathlib.Core.Option.{some-injective}
use retif.LinkedList.{LinkedList, list_remove}
use retif.LinkedList.Remove.{list_remove-Removed, RemovedFirst, absent, gone}
use retif.Taskset.{taskset_cmp_ppid, taskset_remove_by_ppid}
use retif.Taskset.Removal.{without, without_none, without-remove}
use retif.Plugin.{World}
use retif.Scheduler.{
  Scheduler, SameButPlugin, put, plugin_at, release_on, dismiss, delete_rounds, scheduler_delete,
  task_release,
}
use retif.Scheduler.Placed.{
  IsPlaced, HasPlugin, HasPlugin-kept, Distinct, All-map, All-zip, put-IsLoaded,
}

-- Taking an entry out of a list of different entries.
All-remove {ℓ κ} :
    {A : Type ℓ} (P : A → Type κ) (before : List A) (x : A) (rest : List A)
    → All P (before ++ x ∷ rest)
    → P x × All P (before ++ rest)
All-remove P [] x rest h = h
All-remove P (b ∷ before) x rest h =
    let (one, others) = All-remove P before x rest h.1 in (one, (h.0, others))

Distinct-remove :
    (before : List ℕ) (x : ℕ) (rest : List ℕ)
    → Distinct (before ++ x ∷ rest)
    → All (λ y. x ≢ y) (before ++ rest) × Distinct (before ++ rest)
unfolding Distinct
Distinct-remove [] x rest h = h
Distinct-remove (b ∷ before) x rest h =
    let (new, others) = Distinct-remove before x rest h.1 in
    let (ne, apart) = All-remove (λ y. b ≢ y) before x rest h.0 in
    (((λ e. ne (sym e)), new), (apart, others))

module _ {F : Type 0} where
  -- A scheduler whose task set has lost the task `a`.
  pub record Without (s : Scheduler F) (w : World F) (a : ℕ) (after : LinkedList ℕ) : Type 0 where
    pub own : HasPlugin w (length s.plugin) a
    pub rest : IsPlaced (record s { taskset = record { tasks = after } }) w
    pub new : All (λ b. a ≢ b) after.root

  pub removed-Without :
      (s : Scheduler F) (w : World F) (a : ℕ) (after : LinkedList ℕ) (before rest : List ℕ)
      → IsPlaced s w
      → s.taskset.tasks.root ≡ before ++ a ∷ rest
      → after.root ≡ before ++ rest
      → after.n ≡ length after.root
      → Without s w a after
  removed-Without s w a after before rest h was is counted =
      let (new, distinct) = Distinct-remove before a rest (subst Distinct was h.distinct) in
      let (lt, allocated) =
        All-remove (λ b. b < w.next) before a rest
          (subst (All (λ b. b < w.next)) was h.allocated) in
      let (own, placed) =
        All-remove (HasPlugin w (length s.plugin)) before a rest
          (subst (All (HasPlugin w (length s.plugin))) was h.placed) in
      record {
        own = own;
        rest = record {
          loaded = h.loaded;
          counted = counted;
          allocated = rw is allocated;
          distinct = rw is distinct;
          placed = rw is placed;
        };
        new = rw is new;
      }

  -- What is left of the scheduler and the world when the task `a` was dismissed.
  pub record Dismissed (s s' : Scheduler F) (w w' : World F) (a : ℕ) : Type 0 where
    pub placed : IsPlaced s' w'
    pub tasks : s'.taskset ≡ s.taskset
    pub same : SameButPlugin w w' a
    pub freed : (earlier : List ℕ) × (w'.freed ≡ a ∷ earlier)

  pub dismiss-Dismissed :
      (s s' : Scheduler F) (w w' : World F) (a : ℕ)
      → IsPlaced s w
      → All (λ b. a ≢ b) s.taskset.tasks.root
      → dismiss s w a ≡ some (s', w')
      → Dismissed s s' w w' a
  unfolding dismiss release_on
  dismiss-Dismissed s s' w w' a h new run =
      let ((i, p0), found, run1) = >>=-eq-some (plugin_at s.plugin (w.heap a).pluginid) _ run in
      let ((s1, w1), did, run2) = >>=-eq-some (release_on s w a i) _ run1 in
      let (p, got, run3) = >>=-eq-some (get_elem? s.plugin i) _ did in
      let ((res, plg, w2), released, run4) = >>=-eq-some (p.calls.release p.plg w a) _ run3 in
      let (own, same) = (h.loaded i p got).1.release-others res p.plg plg w w2 a released in
      let same' : SameButPlugin w (task_release w2 a) a = record {
        ids = same.ids;
        owners = same.owners;
        plugins = same.plugins;
        next = same.next;
      } in
      let as_many = length-set s.plugin i (record p { plg = plg }) in
      let done : Dismissed s (put s i p plg) w (task_release w2 a) a = record {
        placed = record {
          loaded = put-IsLoaded s.plugin i p plg h.loaded got own;
          counted = h.counted;
          allocated =
              All-map s.taskset.tasks.root (λ b below. omega (arith, below, same.next)) h.allocated;
          distinct = h.distinct;
          placed =
              All-map s.taskset.tasks.root (λ b (ne, has). HasPlugin-kept same' as_many ne has)
                (All-zip (λ b. a ≢ b) (HasPlugin w (length s.plugin)) s.taskset.tasks.root new
                  h.placed);
        };
        tasks = refl;
        same = same';
        freed = (w2.freed, refl);
      } in
      subst (λ (x : Scheduler F × World F). Dismissed s x.0 w x.1 a)
        (ap (λ (x : Scheduler F × World F). (x.0, task_release x.1 a)) (some-injective _ _ run4)
          ∙ some-injective _ _ run2)
        done

  without-owners :
      (w w' : World F) (ppid : ℕ) (xs : List ℕ)
      → ((b : ℕ) → (w'.heap b).ptid ≡ (w.heap b).ptid)
      → without (taskset_cmp_ppid w'.heap ppid) xs ≡ without (taskset_cmp_ppid w.heap ppid) xs
  unfolding without
  without-owners w w' ppid [] h = refl
  without-owners w w' ppid (x ∷ xs) h = rw (h x, without-owners w w' ppid xs h, without) refl

  -- The outcome of a removal from the task set of a scheduler.
  pub data Taken (s : Scheduler F) (w : World F) (test : ℕ → Bool)
      : Option ℕ → LinkedList ℕ → Type 0 where
    none_left :
        (after : LinkedList ℕ)
        → IsPlaced (record s { taskset = record { tasks = after } }) w
        → after.root ≡ without test s.taskset.tasks.root
        → Taken s w test none after
    taken :
        (a : ℕ) (after : LinkedList ℕ)
        → Without s w a after
        → without test after.root ≡ without test s.taskset.tasks.root
        → length after.root < length s.taskset.tasks.root
        → Taken s w test (some a) after

  pub removed-Taken :
      (s : Scheduler F) (w : World F) (test : ℕ → Bool) (elem : Option ℕ) (after : LinkedList ℕ)
      (root : List ℕ)
      → IsPlaced s w
      → after.n ≡ length after.root
      → after.root ≡ root
      → RemovedFirst test s.taskset.tasks.root elem root
      → Taken s w test elem after
  removed-Taken s w test elem after root h counted is (absent misses) =
      none_left after
        (record {
          loaded = h.loaded;
          counted = counted;
          allocated = rw is h.allocated;
          distinct = rw is h.distinct;
          placed = rw is h.placed;
        })
        (is ∙ sym (without_none test root misses))
  removed-Taken s w test elem after root h counted is (gone before a rest was passed hit) =
      taken a after (removed-Without s w a after before rest h was is counted)
        (ap (without test) is ∙ sym (ap (without test) was ∙ without-remove test before rest a hit))
        (omega (
          arith,
          ap length was,
          ap length is,
          length-append before (a ∷ rest),
          length-append before rest,
        ))

  -- The round that follows a removal.
  next_round :
      (fuel : ℕ) (s s' : Scheduler F) (w w' : World F) (ppid : ℕ) (elem : Option ℕ)
      (after : LinkedList ℕ)
      → Taken s w (taskset_cmp_ppid w.heap ppid) elem after
      → list_remove (taskset_cmp_ppid w.heap ppid) s.taskset.tasks ≡ some (elem, after)
      → delete_rounds (suc fuel) s w ppid ≡ some (s', w')
      → (IsPlaced s' w'
          × (s'.taskset.tasks.root ≡ without (taskset_cmp_ppid w.heap ppid) s.taskset.tasks.root))
        ⊎ ((s1 : Scheduler F) × (w1 : World F) × (delete_rounds fuel s1 w1 ppid ≡ some (s', w'))
            × IsPlaced s1 w1
            × (without (taskset_cmp_ppid w1.heap ppid) s1.taskset.tasks.root
                ≡ without (taskset_cmp_ppid w.heap ppid) s.taskset.tasks.root))
  unfolding delete_rounds taskset_remove_by_ppid
  next_round fuel s s' w w' ppid elem _ (none_left after placed kept) returned run = inl (
      subst
        (λ (x : Scheduler F × World F).
          IsPlaced x.0 x.1
          × (x.0.taskset.tasks.root ≡ without (taskset_cmp_ppid w.heap ppid) s.taskset.tasks.root))
        (some-injective _ _ (rw (returned, delete_rounds) at run)) (placed, kept))
  next_round fuel s s' w w' ppid elem _ (taken a after rest kept shorter) returned run =
      let run' = rw (returned, delete_rounds) at run in
      let ((s1, w1), did, run1) =
        >>=-eq-some (dismiss (record s { taskset = record { tasks = after } }) w a) _ run' in
      let d = dismiss-Dismissed _ s1 w w1 a rest.rest rest.new did in
      inr (
        s1,
        w1,
        run1,
        d.placed,
        without-owners w w1 ppid s1.taskset.tasks.root d.same.owners
            ∙ ap (λ ts. without (taskset_cmp_ppid w.heap ppid) ts.tasks.root) d.tasks
            ∙ kept,
      )

  pub delete_rounds-without :
      (fuel : ℕ) (s s' : Scheduler F) (w w' : World F) (ppid : ℕ)
      → IsPlaced s w
      → delete_rounds fuel s w ppid ≡ some (s', w')
      → IsPlaced s' w'
        × (s'.taskset.tasks.root ≡ without (taskset_cmp_ppid w.heap ppid) s.taskset.tasks.root)
  unfolding delete_rounds
  delete_rounds-without zero s s' w w' ppid h run = absurd (cc)
  delete_rounds-without (suc fuel) s s' w w' ppid h run =
      let r = list_remove-Removed (taskset_cmp_ppid w.heap ppid) s.taskset.tasks h.counted in
      elim (next_round fuel s s' w w' ppid r.elem r.after
        (removed-Taken s w _ r.elem r.after r.after.root h r.counted refl r.first) r.returned run) [
          | inl done ↦ done
          | inr (s1, w1, run1, placed, kept) ↦
              let (placed', is) = delete_rounds-without fuel s1 s' w1 w' ppid placed run1 in
              (placed', is ∙ kept)
        ]

  -- If the invariant holds and `rtf_scheduler_delete` ends without a fault of a plugin, the invariant
  -- holds again, and of the task set exactly the tasks of the process `ppid` are gone.
  pub scheduler_delete-without :
      (s s' : Scheduler F) (w w' : World F) (ppid : ℕ)
      → IsPlaced s w
      → scheduler_delete s w ppid ≡ some (s', w')
      → IsPlaced s' w'
        × (s'.taskset.tasks.root ≡ without (taskset_cmp_ppid w.heap ppid) s.taskset.tasks.root)
  unfolding scheduler_delete
  scheduler_delete-without s s' w w' ppid h run =
      delete_rounds-without (suc s.taskset.tasks.n) s s' w w' ppid h run
