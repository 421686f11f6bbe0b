-- ===== src/Client/Creation.antt =====
-- lib/retif_lib.c and daemon/retif_daemon.c together: `rtf_task_create`, from the client to the task set and
-- back.
use retif.Common.{
  ℕ, ◌+◌, ◌%◌, ◌^◌, ◌<◌, true, false, some, ◌∷◌, get_elem?, ltb, ◌≡◌, ◌⊎◌, ◌∙◌, refl, sym, ap,
  arith, inl, inr,
}
use retif.Common.Int.{ℤ, pos}
use retif.Floats.{Floats}
use retif.Task.{Params, int_of_uint64}
use retif.Plugin.{World}
use retif.Scheduler.Placed.{IsPlaced}
use retif.Channel.{Client}
use retif.Daemon.{
  Daemon, Reply, Request, task_create, task_create_ok, task_create_part, response, req_task_create,
}
use retif.Daemon.Creates.{Replied, turned_down, fulfilled, req_task_create-Replied}
use retif.Client.{
  Access, Wire, ClientTask, rtf_ok, rtf_fail, is_error, of_param, request_of, task_communicate,
  access_recv,
}
use retif.Client.Requests.{rtf_task_create}
use retif.Client.Requests.Results.{as_float, is_task_create_err}

-- The request that `rtf_task_create` sends.
abbrev pub creation : Params → Request
creation p = request_of task_create (of_param p)

module _ {F : Type 0} (fl : Floats F) where
  -- What the caller of `rtf_task_create` knows of the daemon after it.
  pub data Told (d d' : Daemon F) (w' : World F) (pid : ℕ) : ℤ → ClientTask → Type 0 where
    refused_task :
        (t : ClientTask) → d'.sched.taskset ≡ d.sched.taskset → Told d d' w' pid rtf_fail t
    has_task :
        (t : ClientTask) (a : ℕ)
        → d'.sched.taskset.tasks.root ≡ a ∷ d.sched.taskset.tasks.root
        → (w'.heap a).id ≡ t.task_id
        → (w'.heap a).ptid ≡ pid
        → Told d d' w' pid rtf_ok t

  not_refused :
      (rep : Reply F)
      → (rep.rep_type ≡ task_create_ok) ⊎ (rep.rep_type ≡ task_create_part)
      → is_task_create_err rep.rep_type ≡ false
  not_refused rep (inl e) = rw e refl
  not_refused rep (inr e) = rw e refl

  small_int : (id : ℕ) → id < 2 ^ 24 → int_of_uint64 id ≡ pos id
  unfolding int_of_uint64
  small_int id lt =
      let low : id % 2 ^ 32 ≡ id = omega arith in
      let below : ltb id (2 ^ 31) ≡ true = ground arith in rw (low, below) refl

  module _ (wire : Wire F) where
    same_id :
        (rep : Reply F) (id : ℕ)
        → rep.payload ≡ response (fl.of_int (int_of_uint64 id))
        → id < 2 ^ 24
        → ((id : ℕ) → id < 2 ^ 24 → fl.to_nat (fl.of_int (pos id)) ≡ id)
        → fl.to_nat (as_float wire rep.payload) ≡ id
    unfolding as_float
    same_id rep id value lt exact =
        ap (λ x. fl.to_nat (as_float wire x)) value
        ∙ ap (λ z. fl.to_nat (fl.of_int z)) (small_int id lt)
        ∙ exact id lt

    reply-Told :
        (d d' : Daemon F) (w w' : World F) (pid n : ℕ) (c : Access F) (t : ClientTask) (p : Params)
        (rep : Reply F)
        → is_error (wire.send (creation p)) ≡ false
        → wire.recv (creation p) ≡ (pos n, rep)
        → 0 < n
        → d.sched.last_task_id + 1 < 2 ^ 24
        → ((id : ℕ) → id < 2 ^ 24 → fl.to_nat (fl.of_int (pos id)) ≡ id)
        → Replied fl d w pid rep d' w'
        → (let r = rtf_task_create wire fl c t p in Told d d' w' pid r.0 r.1)
    unfolding rtf_task_create task_communicate access_recv
    reply-Told d _ w _ pid n c t p _ sent came some_bytes few exact (turned_down d' w' same) =
        let some_test : ltb 0 n ≡ true = ground arith in
        rw (sent, came, some_test) (refused_task _ same)
    reply-Told d _ w _ pid n c t p _ sent came some_bytes few exact
          (fulfilled rep d' w' a id kind value count tasks is owner) =
        let some_test : ltb 0 n ≡ true = ground arith in
        let read = same_id rep id value (omega (arith, count, few)) exact in
        rw (sent, came, some_test, not_refused rep kind)
          (has_task _ a tasks (is ∙ sym (ap (λ m. m % 2 ^ 32) read)) owner)

    -- If the daemon serves a request of `rtf_task_create` without a fault, and its reply comes back, then
    -- RTF_FAIL tells the client that the task set is as
    -- before, and RTF_OK that the newest task of the set belongs to the client's process and has the
    -- identifier that is now in the client's structure. The hypotheses are the scheduler's invariant, that
    -- sending does not fail, that bytes are received, and that fewer than 2 ^ 24 identifiers were given
    -- out, up to which a `float` is exact.
    pub rtf_task_create-Told :
        (d d' : Daemon F) (w w' : World F) (cli_id n : ℕ) (client : Client) (c : Access F)
        (t : ClientTask) (p : Params) (rep : Reply F)
        → IsPlaced d.sched w
        → get_elem? d.chann.client cli_id ≡ some client
        → req_task_create fl d w cli_id ≡ some (rep, d', w')
        → is_error (wire.send (creation p)) ≡ false
        → wire.recv (creation p) ≡ (pos n, rep)
        → 0 < n
        → d.sched.last_task_id + 1 < 2 ^ 24
        → ((id : ℕ) → id < 2 ^ 24 → fl.to_nat (fl.of_int (pos id)) ≡ id)
        → (let r = rtf_task_create wire fl c t p in Told d d' w' client.pid r.0 r.1)
    rtf_task_create-Told d d' w w' cli_id n client c t p rep h at served sent came some_bytes few
          exact =
        reply-Told d d' w w' client.pid n c t p rep sent came some_bytes few exact
          (req_task_create-Replied fl d d' w w' cli_id client rep h at served)
