-- ===== src/Edf/Books.antt =====
-- plugins/sched_EDF.c, `rtf_plg_task_schedule`: what a task is granted and what the plugin books for it.
use retif.Common.{
  ℕ, ◌<◌, true, false, some, List, ◌∷◌, length, get_elem?, get_elem?_total, set, ◌==◌, ◌≡◌, ◌≢◌,
  refl, subst, arith, Bool-cases, inl, inr,
}
use retif.Common.Int.{ℤ, pos}
use retif.Floats.{Floats, FloatLaws}
use retif.Task.{
  Task, task_get_util, task_get_des_util, task_get_runtime, task_get_des_runtime,
  task_get_min_declared,
}
use retif.Plugin.{Plugin, World, inc, update, write, least_loaded_util, least_loaded_util_of}
use retif.Plugin.Choice.{InRange, LastPassing, least_loaded_util-LastPassing}
use retif.Plugin.Admission.{IsSound, Fits, NoneFits, LastPassing-All, desired_utilization_test-Fits}
use retif.Edf.{plg_task_schedule, granted, is_minus_one}
use retif.Edf.Schedule.{update_self}

module _ {F : Type 0} (fl : Floats F) where
  -- The runtime and the utilisation that a task is granted where `free` is the free utilisation of its
  -- processor: without a desired runtime the required ones; with one whose utilisation fits some
  -- processor, the desired runtime and the required utilisation; and otherwise what is free.
  pub data Grants (this : Plugin F) (t : Task F) (free : F) : ℕ → F → Type 0 where
    required :
        is_minus_one fl (task_get_des_util fl t) ≡ true
        → Grants this t free (task_get_runtime t) (task_get_util fl t)
    desired :
        is_minus_one fl (task_get_des_util fl t) ≡ false
        → Fits fl this (task_get_des_util fl t)
        → Grants this t free (task_get_des_runtime t) (task_get_util fl t)
    what_is_free :
        (runtime : ℕ)
        → is_minus_one fl (task_get_des_util fl t) ≡ false
        → NoneFits fl this (task_get_des_util fl t)
        → runtime ≡ fl.to_nat (fl.mul free (fl.of_nat (task_get_min_declared t)))
        → Grants this t free runtime
            (fl.div (fl.of_nat runtime) (fl.of_nat (task_get_min_declared t)))

  -- What `rtf_plg_task_schedule` left.
  pub record Booked (this : Plugin F) (w : World F) (a first : ℕ) (others : List ℕ) : Type 0 where
    pub this' : Plugin F
    pub w' : World F
    pub returned : plg_task_schedule fl this w a ≡ some (this', w')
    pub first_free : F
    pub at_first : get_elem? this.util_free_percpu first ≡ some first_free
    pub free : F
    pub count : ℤ
    pub chosen : LastPassing this.util_free_percpu (fl.ltb first_free) first others (w'.heap a).cpu
    pub had_free : get_elem? this.util_free_percpu (w'.heap a).cpu ≡ some free
    pub had_count : get_elem? this.task_count_percpu (w'.heap a).cpu ≡ some count
    pub grants : Grants this (w.heap a) free (w'.heap a).acceptedt (w'.heap a).acceptedu
    pub plugin : this' ≡ record this {
      util_free_percpu =
          set this.util_free_percpu (w'.heap a).cpu (fl.sub free (w'.heap a).acceptedu);
      task_count_percpu = set this.task_count_percpu (w'.heap a).cpu (inc count);
    }
    pub owner : (w'.heap a).pluginid ≡ pos this.id
    pub same : (b : ℕ) → b ≢ a → w'.heap b ≡ w.heap b

  module _ (laws : FloatLaws fl) (this : Plugin F) (sound : IsSound fl this) where
    granted-Grants :
        (t : Task F) (cpu : ℕ) (free : F)
        → fl.is_finite (task_get_util fl t) ≡ true
        → fl.is_finite (task_get_des_util fl t) ≡ true
        → get_elem? this.util_free_percpu cpu ≡ some free
        → (acceptedt : ℕ) × (acceptedu : F) × (granted fl this t cpu ≡ some (acceptedt, acceptedu))
          × Grants this t free acceptedt acceptedu
    unfolding granted
    granted-Grants t cpu free fin fin' at =
        let util = task_get_util fl t in
        let des = task_get_des_util fl t in
        let left = fl.to_nat (fl.mul free (fl.of_nat (task_get_min_declared t))) in
        let share = fl.div (fl.of_nat left) (fl.of_nat (task_get_min_declared t)) in
        elim (Bool-cases (is_minus_one fl des)) [
          | inl none_declared ↦
              (task_get_runtime t, util, rw none_declared refl, required none_declared)
          | inr declared ↦
              elim (desired_utilization_test-Fits fl laws this sound util des fin fin') [
                | inl (says, fits) ↦ (
                  task_get_des_runtime t,
                  util,
                  rw (declared, says, at) refl,
                  desired declared fits,
                )
                | inr (inl (says, no_des, fits)) ↦ (
                  left,
                  share,
                  rw (declared, says, at) refl,
                  what_is_free left declared no_des refl,
                )
                | inr (inr (says, no_des, no_util)) ↦ (
                  left,
                  share,
                  rw (declared, says, at) refl,
                  what_is_free left declared no_des refl,
                )
              ]
        ]

    least_loaded :
        (cpu : ℕ)
        → least_loaded_util_of fl this.util_free_percpu (sound.first ∷ sound.others) ≡ some cpu
        → least_loaded_util fl this ≡ some cpu
    unfolding least_loaded_util
    least_loaded cpu found = rw sound.some_cpu found

    schedules :
        (w : World F) (a cpu acceptedt : ℕ) (acceptedu free : F) (count : ℤ)
        → least_loaded_util fl this ≡ some cpu
        → granted fl this (w.heap a) cpu ≡ some (acceptedt, acceptedu)
        → get_elem? this.util_free_percpu cpu ≡ some free
        → get_elem? this.task_count_percpu cpu ≡ some count
        → plg_task_schedule fl this w a
          ≡ some (
            record this {
              util_free_percpu = set this.util_free_percpu cpu (fl.sub free acceptedu);
              task_count_percpu = set this.task_count_percpu cpu (inc count);
            },
            write w a (record (w.heap a) {
              cpu = cpu;
              pluginid = pos this.id;
              acceptedt = acceptedt;
              acceptedu = acceptedu;
            }),
          )
    unfolding plg_task_schedule
    schedules w a cpu acceptedt acceptedu free count found share at_free at_count =
        rw (found, share, at_free, at_count) refl

    other_tasks : (heap : ℕ → Task F) (a b : ℕ) (t : Task F) → b ≢ a → update heap a t b ≡ heap b
    other_tasks heap a b t ne = elim (Bool-cases (a == b)) [
      | inl e ↦ absurd (ground arith)
      | inr other ↦ rw other refl
    ]

    -- For a plugin that has a processor, whose processors index both of its arrays, with finite numbers
    -- in the array of the free utilisation, and a task of finite utilisations, under the laws of `float`:
    -- `rtf_plg_task_schedule` does not fault. The task goes to the last processor that has more free
    -- utilisation than the first one, or to the first if none has; it is granted the required runtime and
    -- utilisation if it declares no desired runtime, the desired runtime and the required utilisation if
    -- it declares one that fits some processor, and the free utilisation of its processor otherwise. The
    -- utilisation that the task keeps as granted is what its processor has less, its count is one higher,
    -- and no other entry and no other task changes.
    pub plg_task_schedule-Booked :
        (w : World F) (a : ℕ)
        → InRange (length this.task_count_percpu) this.cpulist
        → fl.is_finite (task_get_util fl (w.heap a)) ≡ true
        → fl.is_finite (task_get_des_util fl (w.heap a)) ≡ true
        → Booked this w a sound.first sound.others
    plg_task_schedule-Booked w a counted fin fin' =
        let t = w.heap a in
        let utils = this.util_free_percpu in
        let (first_free, cpu, at_first, found, last) =
          least_loaded_util-LastPassing fl utils sound.first sound.others sound.in_range in
        let (free, at_free) =
          get_elem?_total utils cpu
            (LastPassing-All utils (λ c. c < length utils) last sound.in_range) in
        let (count, at_count) = get_elem?_total this.task_count_percpu cpu (
          LastPassing-All utils (λ c. c < length this.task_count_percpu) last
            (subst (InRange (length this.task_count_percpu)) sound.some_cpu counted)) in
        let (acceptedt, acceptedu, share, grants) = granted-Grants t cpu free fin fin' at_free in
        let t' = record t {
          cpu = cpu;
          pluginid = pos this.id;
          acceptedt = acceptedt;
          acceptedu = acceptedu;
        } in
        let self = update_self w.heap a t' in
        record {
          this' = record this {
            util_free_percpu = set utils cpu (fl.sub free acceptedu);
            task_count_percpu = set this.task_count_percpu cpu (inc count);
          };
          w' = write w a t';
          returned =
              schedules w a cpu acceptedt acceptedu free count (least_loaded cpu found) share
                at_free at_count;
          first_free = first_free;
          at_first = at_first;
          free = free;
          count = count;
          chosen = rw self last;
          had_free = rw self at_free;
          had_count = rw self at_count;
          grants = rw self grants;
          plugin = rw self refl;
          owner = rw self refl;
          same = λ b ne. other_tasks w.heap a b t' ne;
        }
