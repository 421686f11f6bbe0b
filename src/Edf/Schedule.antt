-- ===== src/Edf/Schedule.antt =====
-- plugins/sched_EDF.c: what scheduling a task takes from the plugin, and that a release gives it back.
use mathlib.Core.Path.{ap₂}
use retif.Common.{
  ℕ, true, some, List, get_elem?, set, set-set, set_same, get_elem?-set_self, get_elem?-lt, ◌==◌,
  >>=-eq-some, some-pair, ◌≡◌, ◌∙◌, refl, ap, arith,
}
use retif.Common.Int.{ℤ, pos, negsuc, +ℤ_cancel}
use retif.Floats.{Floats}
use retif.Task.{Task}
use retif.Plugin.{
  Plugin, Verdict, World, Kernel, modify_at, inc, dec, Policy, sched_deadline, least_loaded_util,
  update, write,
}
use retif.Plugin.{detach_running}
use retif.Edf.{plg_task_schedule, plg_task_release, granted}

pub modify_at-eq-some :
    {V : Type 0} (xs : List V) (i : ℕ) (f : V → V) {ys : List V}
    → modify_at xs i f ≡ some ys
    → (v : V) × (get_elem? xs i ≡ some v) × (ys ≡ set xs i (f v))
modify_at-eq-some xs i f h =
    let (v, e, r) = >>=-eq-some (get_elem? xs i) (λ a. some (set xs i (f a))) h in
    (v, e, ground arith)

pub update_self : {F : Type 0} (heap : ℕ → Task F) (a : ℕ) (t : Task F) → update heap a t a ≡ t
update_self heap a t = let e : (a == a) ≡ true = ground arith in rw e

module _ {F : Type 0} (k : Kernel) where
  -- The calls of the kernel leave the tasks as they are.
  pub detach_running-heap :
      (policy : Policy) (w : World F) (a : ℕ) → (detach_running k policy w a).1.heap ≡ w.heap
  unfolding detach_running
  detach_running-heap policy w a = ground arith

module _ {F : Type 0} (fl : Floats F) where
  -- What `rtf_plg_task_schedule` did, when it did not fault.
  pub record Scheduled (this : Plugin F) (w : World F) (a : ℕ) (this' : Plugin F) (w' : World F)
      : Type 0 where
    pub cpu : ℕ
    pub acceptedt : ℕ
    pub acceptedu : F
    pub free : F
    pub count : ℤ
    pub chosen : least_loaded_util fl this ≡ some cpu
    pub share : granted fl this (w.heap a) cpu ≡ some (acceptedt, acceptedu)
    pub had_free : get_elem? this.util_free_percpu cpu ≡ some free
    pub had_count : get_elem? this.task_count_percpu cpu ≡ some count
    pub plugin : this' ≡ record this {
      util_free_percpu = set this.util_free_percpu cpu (fl.sub free acceptedu);
      task_count_percpu = set this.task_count_percpu cpu (inc count);
    }
    pub world :
        w'
        ≡ write w a (record (w.heap a) {
          cpu = cpu;
          pluginid = pos this.id;
          acceptedt = acceptedt;
          acceptedu = acceptedu;
        })

  pub plg_task_schedule-Scheduled :
      (this : Plugin F) (w : World F) (a : ℕ) {this' : Plugin F} {w' : World F}
      → plg_task_schedule fl this w a ≡ some (this', w')
      → Scheduled this w a this' w'
  unfolding plg_task_schedule
  plg_task_schedule-Scheduled this w a h =
      let (cpu, chosen, r1) = >>=-eq-some (least_loaded_util fl this) _ h in
      let (share, granted_e, r2) = >>=-eq-some (granted fl this (w.heap a) cpu) _ r1 in
      let (utils, utils_e, r3) =
        >>=-eq-some (modify_at this.util_free_percpu cpu (λ u. fl.sub u share.1)) _ r2 in
      let (counts, counts_e, r4) = >>=-eq-some (modify_at this.task_count_percpu cpu inc) _ r3 in
      let (free, free_e, utils_is) = modify_at-eq-some this.util_free_percpu cpu _ utils_e in
      let (count, count_e, counts_is) = modify_at-eq-some this.task_count_percpu cpu inc counts_e in
      record {
        cpu = cpu;
        acceptedt = share.0;
        acceptedu = share.1;
        free = free;
        count = count;
        chosen = chosen;
        share = granted_e;
        had_free = free_e;
        had_count = count_e;
        plugin =
            (some-pair r4).0
            ∙ ap₂ (λ us cs. record this { util_free_percpu = us; task_count_percpu = cs }) utils_is
                counts_is;
        world = (some-pair r4).1;
      }

  -- A release of a task on a processor that indexes the arrays.
  pub release_lem :
      (k : Kernel) (this : Plugin F) (w : World F) (a : ℕ) {u acceptedu : F} {n : ℤ} {cpu : ℕ}
      → (w.heap a).cpu ≡ cpu
      → (w.heap a).acceptedu ≡ acceptedu
      → get_elem? this.util_free_percpu cpu ≡ some u
      → get_elem? this.task_count_percpu cpu ≡ some n
      → let t = w.heap a in
        let after =
          detach_running k sched_deadline (write w a (record t { pluginid = negsuc 0 })) a in
        plg_task_release k fl this w a
        ≡ some (
          after.0,
          record this {
            util_free_percpu = set this.util_free_percpu cpu (fl.add u acceptedu);
            task_count_percpu = set this.task_count_percpu cpu (dec n);
          },
          after.1,
        )
  unfolding plg_task_release
  release_lem k this w a ec ea e e' = rw (ec, ea, e, e') refl

  -- A release straight after `rtf_plg_task_schedule` does not fault: the plugin's task counts are those
  -- from before, so is everything else but the free utilisation of the chosen processor, which goes from
  -- u to (u - accepted) + accepted, and the task belongs to no plugin.
  pub plg_task_release-schedule :
      (k : Kernel) (this : Plugin F) (w : World F) (a : ℕ) {this' : Plugin F} {w' : World F}
      → plg_task_schedule fl this w a ≡ some (this', w')
      → (cpu : ℕ) × (acceptedu free : F) × (res : Verdict) × (w'' : World F) × (least_loaded_util fl
            this
          ≡ some cpu)
        × (get_elem? this.util_free_percpu cpu ≡ some free)
        × (plg_task_release k fl this' w' a
            ≡ some (
              res,
              record this {
                util_free_percpu =
                    set this.util_free_percpu cpu (fl.add (fl.sub free acceptedu) acceptedu);
              },
              w'',
            ))
        × ((w''.heap a).pluginid ≡ negsuc 0)
  plg_task_release-schedule k this w a h =
      let s = plg_task_schedule-Scheduled this w a h in
      let t' = record (w.heap a) {
        cpu = s.cpu;
        pluginid = pos this.id;
        acceptedt = s.acceptedt;
        acceptedu = s.acceptedu;
      } in
      let utils = this.util_free_percpu in
      let counts = this.task_count_percpu in
      let w1 = write w a t' in
      let self = update_self w.heap a t' in
      let this1 : Plugin F = record this {
        util_free_percpu = set this.util_free_percpu s.cpu (fl.sub s.free s.acceptedu);
        task_count_percpu = set this.task_count_percpu s.cpu (inc s.count);
      } in
      let after =
        detach_running k sched_deadline (write w1 a (record (w1.heap a) { pluginid = negsuc 0 }))
          a in
      (
        s.cpu,
        s.acceptedu,
        s.free,
        after.0,
        after.1,
        s.chosen,
        s.had_free,
        ap₂ (λ p v. plg_task_release k fl p v a) s.plugin s.world
            ∙ release_lem k this1 w1 a {cpu = s.cpu} (ap (λ (x : Task F). x.cpu) self)
                (ap (λ (x : Task F). x.acceptedu) self)
                (get_elem?-set_self utils s.cpu _ (get_elem?-lt utils s.cpu s.had_free))
                (get_elem?-set_self counts s.cpu _ (get_elem?-lt counts s.cpu s.had_count))
            ∙ ap₂
                (λ us cs.
                  some (
                    after.0,
                    record this { util_free_percpu = us; task_count_percpu = cs },
                    after.1,
                  ))
                (set-set utils s.cpu _ _)
                (set-set counts s.cpu _ _
                  ∙ ap (set counts s.cpu) (+ℤ_cancel s.count (pos 1))
                  ∙ set_same counts s.cpu s.count s.had_count),
        ap (λ (heap : ℕ → Task F). (heap a).pluginid) (detach_running-heap k sched_deadline _ a)
            ∙ ap (λ (x : Task F). x.pluginid) (update_self w1.heap a _),
      )
