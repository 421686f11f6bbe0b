-- ===== src/Edf/Accept.antt =====
-- plugins/sched_EDF.c: which tasks the plugin admits, and what a change request leaves of the plugin.
use retif.Common.{
  ℕ, ◌<◌, true, false, some, length, get_elem?, get_elem?_total, set, set-set, get_elem?-set_self,
  ◌==◌, if◌then◌else◌, ◌>>=◌, ◌≡◌, ◌≢◌, refl, arith, Bool-cases, inl, inr,
}
use retif.Floats.{Floats, FloatLaws}
use retif.Task.{Task, task_get_util, task_get_des_util}
use retif.Plugin.{Plugin, Verdict, ok, partial, refused, World, has_another_preference}
use retif.Plugin.Admission.{
  IsSound, Fits, NoneFits, utilization_test-Fits, desired_utilization_test-Fits,
}
use retif.Plugin.{downgrade, is_id}
use retif.Edf.{plg_task_accept, plg_task_change, admission_test, adjust_own, is_minus_one}

module _ {F : Type 0} (fl : Floats F) where
  -- A task that asks for admission, with a period and a utilisation.
  pub record IsAdmissible (t : Task F) : Type 0 where
    pub asks : t.params.ignore_admission ≡ 0
    pub periodic : t.params.period ≢ 0
    pub declared : is_minus_one fl (task_get_util fl t) ≡ false

  -- The utilisation that the task would like: the desired one, if it declares one.
  abbrev pub wanted : Task F → F
  wanted t =
      if is_minus_one fl (task_get_des_util fl t)
      then task_get_util fl t
      else task_get_des_util fl t

  -- The admission policy: each way to a verdict.
  pub data Admits (this : Plugin F) (t : Task F) (v : Verdict) : Type 0 where
    not_admissible : ¬ IsAdmissible t → v ≡ refused → Admits this t v
    full :
        IsAdmissible t
        → Fits fl this (wanted t)
        → has_another_preference this t ≡ false
        → v ≡ ok
        → Admits this t v
    other_preferred :
        IsAdmissible t
        → Fits fl this (wanted t)
        → has_another_preference this t ≡ true
        → v ≡ partial
        → Admits this t v
    required_only :
        IsAdmissible t
        → is_minus_one fl (task_get_des_util fl t) ≡ false
        → NoneFits fl this (task_get_des_util fl t)
        → Fits fl this (task_get_util fl t)
        → v ≡ partial
        → Admits this t v
    none_fits :
        IsAdmissible t
        → NoneFits fl this (wanted t)
        → NoneFits fl this (task_get_util fl t)
        → v ≡ refused
        → Admits this t v

  module _ (laws : FloatLaws fl) (this : Plugin F) (sound : IsSound fl this) (w : World F)
      (a : ℕ) where
    downgrade-ok :
        IsAdmissible (w.heap a)
        → Fits fl this (wanted (w.heap a))
        → Admits this (w.heap a) (downgrade this (w.heap a) ok)
    unfolding downgrade
    downgrade-ok adm fits = elim (Bool-cases (has_another_preference this (w.heap a))) [
      | inl other ↦ other_preferred adm fits other (rw other)
      | inr mine ↦ full adm fits mine (rw mine)
    ]

    admissible-Admits :
        IsAdmissible (w.heap a)
        → fl.is_finite (task_get_util fl (w.heap a)) ≡ true
        → fl.is_finite (task_get_des_util fl (w.heap a)) ≡ true
        → (v : Verdict) × (admission_test fl this
              (task_get_util fl (w.heap a))
              (task_get_des_util fl (w.heap a))
            ≡ some v)
          × Admits this (w.heap a) (downgrade this (w.heap a) v)
    unfolding admission_test downgrade
    admissible-Admits adm fin fin' =
        elim (Bool-cases (is_minus_one fl (task_get_des_util fl (w.heap a)))) [
          | inl no_des ↦
              let same : wanted (w.heap a) ≡ task_get_util fl (w.heap a) = rw no_des in
              elim (utilization_test-Fits fl laws this sound (task_get_util fl (w.heap a)) fin) [
                | inl fits ↦ (ok, rw no_des fits.0, downgrade-ok adm (rw same fits.1))
                | inr no_fit ↦ (
                  refused,
                  rw no_des no_fit.0,
                  none_fits adm (rw same no_fit.1) no_fit.1 (ground arith),
                )
              ]
          | inr des ↦
              let same : wanted (w.heap a) ≡ task_get_des_util fl (w.heap a) = rw des in
              elim (desired_utilization_test-Fits fl laws this sound (task_get_util fl (w.heap a))
                (task_get_des_util fl (w.heap a)) fin fin') [
                  | inl fits ↦ (ok, rw des fits.0, downgrade-ok adm (rw same fits.1))
                  | inr (inl part) ↦
                      (partial, rw des part.0, required_only adm des part.1 part.2 (ground arith))
                  | inr (inr no_fit) ↦ (
                    refused,
                    rw des no_fit.0,
                    none_fits adm (rw same no_fit.1) no_fit.2 (ground arith),
                  )
                ]
        ]

    -- On a sound plugin and for finite utilisations, `rtf_plg_task_accept` of the EDF plugin does not
    -- fault and follows the admission policy `Admits`, which covers every verdict.
    pub plg_task_accept-Admits :
        fl.is_finite (task_get_util fl (w.heap a)) ≡ true
        → fl.is_finite (task_get_des_util fl (w.heap a)) ≡ true
        → (v : Verdict) × (plg_task_accept fl this w a ≡ some v) × Admits this (w.heap a) v
    unfolding plg_task_accept
    plg_task_accept-Admits fin fin' =
        let t = w.heap a in
        elim (Bool-cases (t.params.ignore_admission == 0)) [
          | inr ignores ↦
              (refused, rw ignores, not_admissible (λ adm. ground (arith, adm.asks)) refl)
          | inl asks ↦ elim (Bool-cases (t.params.period == 0)) [
            | inl aperiodic ↦ (
              refused,
              rw (asks, aperiodic),
              not_admissible (λ adm. adm.periodic (ground arith)) refl,
            )
            | inr periodic ↦ elim (Bool-cases (is_minus_one fl (task_get_util fl t))) [
              | inl undeclared ↦ (
                refused,
                rw (asks, periodic, undeclared),
                not_admissible (λ adm. cc (adm.declared)) refl,
              )
              | inr declared ↦
                  let (v, run, admits) =
                    admissible-Admits
                      (record { asks = ground arith; periodic = ground arith; declared = declared })
                      fin fin' in
                  (downgrade (this) t v, rw (asks, periodic, declared, run) refl, admits)
            ]
          ]
        ]

  adjust_own_other :
      (f : F → F) (this : Plugin F) (t : Task F)
      → is_id t.pluginid this.id ≡ false
      → adjust_own f this t ≡ some this
  unfolding adjust_own
  adjust_own_other f this t other = rw other

  adjust_own_own :
      (f : F → F) (this : Plugin F) (t : Task F) (u : F)
      → is_id t.pluginid this.id ≡ true
      → get_elem? this.util_free_percpu t.cpu ≡ some u
      → adjust_own f this t
        ≡ some (record this { util_free_percpu = set this.util_free_percpu t.cpu (f u) })
  unfolding adjust_own
  adjust_own_own f this t u own e = rw (own, e)

  -- For a task of another plugin, `rtf_plg_task_change` of the EDF plugin gives the verdict of
  -- `rtf_plg_task_accept` and leaves the plugin as it was.
  pub plg_task_change-other :
      (this : Plugin F) (w : World F) (a : ℕ)
      → is_id (w.heap a).pluginid this.id ≡ false
      → plg_task_change fl this w a ≡ (plg_task_accept fl this w a >>= λ v. some (v, this))
  unfolding plg_task_change
  plg_task_change-other this w a other =
      let t = w.heap a in
      simp (
        adjust_own_other (λ x. fl.add x t.acceptedu) this t other,
        adjust_own_other (λ x. fl.sub x t.acceptedu) this t other,
      )

  -- For its own task, on a processor that indexes the array of the free utilisation,
  -- `rtf_plg_task_change` of the EDF plugin gives the verdict that `rtf_plg_task_accept` has with the
  -- accepted utilisation given back. Of the plugin it leaves all as it was but the free utilisation of
  -- the task's processor, which goes from u to (u + accepted) - accepted.
  pub plg_task_change-own :
      (this : Plugin F) (w : World F) (a : ℕ)
      → (w.heap a).cpu < length this.util_free_percpu
      → is_id (w.heap a).pluginid this.id ≡ true
      → let t = w.heap a in
        let utils = this.util_free_percpu in
        (u : F) × (get_elem? utils t.cpu ≡ some u)
        × (plg_task_change fl this w a ≡ (
            plg_task_accept fl
              (record this { util_free_percpu = set utils t.cpu (fl.add u t.acceptedu) })
              w
              a
            >>= λ v. some (
              v,
              record this {
                util_free_percpu = set utils t.cpu (fl.sub (fl.add u t.acceptedu) t.acceptedu);
              },
            )))
  unfolding plg_task_change
  plg_task_change-own this w a h own =
      let t = w.heap a in
      let utils = this.util_free_percpu in
      let (u, e) = get_elem?_total utils t.cpu h in
      (
        u,
        e,
        simp (
          adjust_own_own (λ x. fl.add x t.acceptedu) this t u own e,
          adjust_own_own (λ x. fl.sub x t.acceptedu)
              (record this { util_free_percpu = set utils t.cpu (fl.add u t.acceptedu) }) t
              (fl.add u t.acceptedu) own (get_elem?-set_self utils t.cpu (fl.add u t.acceptedu) h),
          set-set utils t.cpu (fl.add u t.acceptedu) (fl.sub (fl.add u t.acceptedu) t.acceptedu),
        ),
      )
