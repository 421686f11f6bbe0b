-- ===== src/Client/Change.antt =====
-- lib/retif_lib.c and daemon/retif_daemon.c together: `rtf_task_change`. The library sends parameters only, and
-- the daemon takes the identifier of the task from the same bytes.
use retif.Common.{
  ℕ, ◌/◌, ◌%◌, ◌^◌, ◌<◌, true, false, Option, none, some, get_elem?, ltb, ◌≡◌, ◌∙◌, refl, sym, ap,
  arith,
}
use mathlib.Core.Option.{some-injective}
use retif.Common.Int.{pos}
use retif.Task.{Params}
use retif.Taskset.{taskset_search}
use retif.Plugin.{World, error}
use retif.Scheduler.{Scheduler, scheduler_task_change, test_and_modify}
use retif.Daemon.{
  Daemon, Reply, Request, task_modify, task_modify_err, unset, req_task_modify, modify_reply,
}
use retif.Client.{
  Access, Wire, ClientTask, rtf_fail, is_error, of_param, request_of, task_communicate, access_recv,
}
use retif.Client.Requests.{rtf_task_change}

-- The request that `rtf_task_change` sends.
abbrev pub modification : Params → Request
modification p = request_of task_modify (of_param p)

nothing_found {ℓ κ} :
    {A : Type ℓ} {R : Type κ} (found : Option A) (nothing : R) (f : A → R)
    → found ≡ none
    → elim found [ none ↦ nothing | some a ↦ f a ] ≡ nothing
nothing_found none nothing f h = refl
nothing_found (some a) nothing f h = absurd (cc)

module _ {F : Type 0} where
  -- The reply to a change of a task that is not there.
  abbrev no_such_task : Reply F
  no_such_task = record { rep_type = task_modify_err; payload = unset }

  unchanged :
      (s : Scheduler F) (w : World F) (tp : Params) (rtf_id : ℕ)
      → taskset_search w.heap s.taskset rtf_id ≡ none
      → scheduler_task_change s w tp rtf_id ≡ some (error, s, w)
  unfolding scheduler_task_change
  unchanged s w tp rtf_id nobody =
      nothing_found (taskset_search w.heap s.taskset rtf_id) (some (error, s, w))
        (test_and_modify s w) nobody

  -- The daemon's side: the task that it looks for is named by the high half of the runtime.
  missed :
      (d : Daemon F) (w : World F) (cli_id : ℕ) (p : Params)
      → get_elem? d.chann.last_req cli_id ≡ some (modification p)
      → taskset_search w.heap d.sched.taskset (p.runtime / 2 ^ 32 % 2 ^ 32) ≡ none
      → req_task_modify d w cli_id ≡ some (no_such_task, d, w)
  unfolding req_task_modify modify_reply request_of
  missed d w cli_id p asked nobody =
      rw (asked, unchanged d.sched w (modification p).param (p.runtime / 2 ^ 32 % 2 ^ 32) nobody)
        refl

  -- The client's side.
  told :
      (wire : Wire F) (c : Access F) (t : ClientTask) (p : Params) (n : ℕ)
      → is_error (wire.send (modification p)) ≡ false
      → wire.recv (modification p) ≡ (pos n, no_such_task)
      → 0 < n
      → (rtf_task_change wire c t p).0 ≡ rtf_fail
  unfolding rtf_task_change task_communicate access_recv
  told wire c t p n sent came some_bytes =
      let some_test : ltb 0 n ≡ true = ground arith in rw (sent, came, some_test) refl

  -- A change that a client asks for with a runtime below 2 ^ 32 microseconds, in a daemon that has no task
  -- of the identifier 0, changes nothing: whatever task the client means, the daemon answers that the
  -- change failed and its state is as before, and if that reply comes back, `rtf_task_change` returns
  -- RTF_FAIL.
  pub rtf_task_change-misses :
      (wire : Wire F) (d : Daemon F) (w : World F) (cli_id n : ℕ) (c : Access F) (t : ClientTask)
      (p : Params) (rep : Reply F) (d' : Daemon F) (w' : World F)
      → p.runtime < 2 ^ 32
      → taskset_search w.heap d.sched.taskset 0 ≡ none
      → get_elem? d.chann.last_req cli_id ≡ some (modification p)
      → req_task_modify d w cli_id ≡ some (rep, d', w')
      → is_error (wire.send (modification p)) ≡ false
      → wire.recv (modification p) ≡ (pos n, rep)
      → 0 < n
      → (d' ≡ d) × (w' ≡ w) × ((rtf_task_change wire c t p).0 ≡ rtf_fail)
  rtf_task_change-misses wire d w cli_id n c t p rep d' w' small nobody asked served sent came
        some_bytes =
      let zero_id : p.runtime / 2 ^ 32 % 2 ^ 32 ≡ 0 = omega arith in
      let answer =
        missed d w cli_id p asked (ap (taskset_search w.heap d.sched.taskset) zero_id ∙ nobody) in
      let e = some-injective _ _ (sym served ∙ answer) in
      (
        ap (λ (x : Reply F × Daemon F × World F). x.1) e,
        ap (λ (x : Reply F × Daemon F × World F). x.2) e,
        told wire c t p n sent (came ∙ ap (λ (x : Reply F × Daemon F × World F). (pos n, x.0)) e)
            some_bytes,
      )
