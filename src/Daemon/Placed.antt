-- ===== src/Daemon/Placed.antt =====
-- daemon/retif_daemon.c: what every request handler, and every round of the loop, keeps true.
use retif.Common.{
  ◌∙◌, refl, get_elem?, length, length-set, ℕ, Option, some, >>=-eq-some, ◌≡◌, sym, ap, subst,
  arith, ◌>>=◌,
}
use mathlib.Core.Option.{some-injective}
use retif.Floats.{Floats}
use retif.Plugin.{modify_at, World, Verdict}
use retif.Scheduler.{
  Scheduler, scheduler_task_create, scheduler_task_change, scheduler_task_attach,
  scheduler_task_detach, scheduler_task_destroy,
}
use retif.Scheduler.Placed.{IsPlaced, scheduler_task_create-IsPlaced}
use retif.Scheduler.Change.{scheduler_task_change-Changed}
use retif.Scheduler.Threads.{scheduler_task_attach-IsPlaced, scheduler_task_detach-IsPlaced}
use retif.Scheduler.Destroy.{scheduler_task_destroy-Destroyed}
use retif.Taskset.{taskset_search}
use retif.Channel.{Carrier, carrier_set_pid, carrier_get_req, carrier_get_pid}
use retif.Daemon.{
  Request, Daemon, Reply, ReqType, connection, connections_info, connection_info, plugins_info,
  plugin_info, plugin_cpu_info, tasks_info, task_info, task_create, task_modify, task_attach,
  task_detach, task_destroy, other, req_connection, req_connections_info, req_connection_info,
  req_plugins_info, req_plugin_info, req_plugin_cpu_info, req_tasks_info, req_task_info,
  req_task_create, req_task_modify, req_task_attach, req_task_detach, req_task_destroy, respond,
}

carrier_set_pid-kept :
    (c c' : Carrier Request) (cli_id pid : ℕ)
    → carrier_set_pid c cli_id pid ≡ some c'
    → (c'.last_n ≡ c.last_n) × (length c'.client ≡ length c.client)
carrier_set_pid-kept c c' cli_id pid run =
    let (clients, put_in, is) =
      >>=-eq-some (modify_at c.client cli_id (λ client. record client { pid = pid })) _ run in
    let (client, at, clients_is) = >>=-eq-some (get_elem? c.client cli_id) _ put_in in
    subst (λ (x : Carrier Request). (x.last_n ≡ c.last_n) × (length x.client ≡ length c.client))
      (some-injective _ _ is)
      (
        refl,
        ap length (sym (some-injective _ _ clients_is))
            ∙ length-set c.client cli_id (record client { pid = pid }),
      )

module _ {F : Type 0} where
  -- A handler keeps the invariant, leaves sending to its caller, and only writes into entries of the
  -- array of clients.
  pub record Handled (d d' : Daemon F) (w w' : World F) : Type 0 where
    pub placed : IsPlaced d.sched w → IsPlaced d'.sched w'
    pub sent : d'.sent ≡ d.sent
    pub last_n : d'.chann.last_n ≡ d.chann.last_n
    pub clients : length d'.chann.client ≡ length d.chann.client

  -- A handler that answers from what it reads.
  OnlyReads : Daemon F → World F → Option (Reply F × Daemon F × World F) → Type 0
  OnlyReads d w result =
      (x : Reply F × Daemon F × World F)
      → result ≡ some x
      → (x.1.sched ≡ d.sched)
        × (x.2 ≡ w)
        × (x.1.sent ≡ d.sent)
        × (x.1.chann.last_n ≡ d.chann.last_n)
        × (length x.1.chann.client ≡ length d.chann.client)

  req_connection-OnlyReads :
      (d : Daemon F) (w : World F) (cli_id : ℕ) → OnlyReads d w (req_connection d w cli_id)
  unfolding req_connection OnlyReads
  req_connection-OnlyReads d w cli_id x run =
      let (req, asked, run1) = >>=-eq-some (carrier_get_req d.chann cli_id) _ run in
      let (chann, owned, run2) = >>=-eq-some (carrier_set_pid d.chann cli_id req.ids_pid) _ run1 in
      let (last_n, many) = carrier_set_pid-kept d.chann chann cli_id req.ids_pid owned in
      let e = some-injective _ _ run2 in
      subst
        (λ (x : Reply F × Daemon F × World F).
          (x.1.sched ≡ d.sched)
          × (x.2 ≡ w)
          × (x.1.sent ≡ d.sent)
          × (x.1.chann.last_n ≡ d.chann.last_n)
          × (length x.1.chann.client ≡ length d.chann.client))
        e (refl, refl, refl, last_n, many)

  req_connections_info-OnlyReads :
      (d : Daemon F) (w : World F) (cli_id : ℕ) → OnlyReads d w (req_connections_info d w cli_id)
  unfolding req_connections_info OnlyReads
  req_connections_info-OnlyReads d w cli_id x run = ground arith

  req_connection_info-OnlyReads :
      (d : Daemon F) (w : World F) (cli_id : ℕ) → OnlyReads d w (req_connection_info d w cli_id)
  unfolding req_connection_info OnlyReads
  req_connection_info-OnlyReads d w cli_id x run = ground arith

  req_plugins_info-OnlyReads :
      (d : Daemon F) (w : World F) (cli_id : ℕ) → OnlyReads d w (req_plugins_info d w cli_id)
  unfolding req_plugins_info OnlyReads
  req_plugins_info-OnlyReads d w cli_id x run = ground arith

  req_plugin_info-OnlyReads :
      (d : Daemon F) (w : World F) (cli_id : ℕ) → OnlyReads d w (req_plugin_info d w cli_id)
  unfolding req_plugin_info OnlyReads
  req_plugin_info-OnlyReads d w cli_id x run = ground arith

  req_plugin_cpu_info-OnlyReads :
      (d : Daemon F) (w : World F) (cli_id : ℕ) → OnlyReads d w (req_plugin_cpu_info d w cli_id)
  unfolding req_plugin_cpu_info OnlyReads
  req_plugin_cpu_info-OnlyReads d w cli_id x run = ground arith

  req_tasks_info-OnlyReads :
      (d : Daemon F) (w : World F) (cli_id : ℕ) → OnlyReads d w (req_tasks_info d w cli_id)
  unfolding req_tasks_info OnlyReads
  req_tasks_info-OnlyReads d w cli_id x run = ground arith

  req_task_info-OnlyReads :
      (d : Daemon F) (w : World F) (cli_id : ℕ) → OnlyReads d w (req_task_info d w cli_id)
  unfolding req_task_info OnlyReads taskset_search
  req_task_info-OnlyReads d w cli_id x run = ground arith

  OnlyReads-Handled :
      (d d' : Daemon F) (w w' : World F) (rep : Reply F)
      (result : Option (Reply F × Daemon F × World F))
      → OnlyReads d w result
      → result ≡ some (rep, d', w')
      → Handled d d' w w'
  unfolding OnlyReads
  OnlyReads-Handled d d' w w' rep result only run =
      let (sched, world, sent, last_n, clients) = only (rep, d', w') run in
      record { placed = λ h. rw (sched, world) h; sent = sent; last_n = last_n; clients = clients }

  -- The end of the handlers that ask the scheduler for a verdict.
  asked-Handled :
      (d : Daemon F) (w : World F) (asked : Option (Verdict × Scheduler F × World F))
      (reply : Verdict → Scheduler F → Reply F) (rep : Reply F) (d' : Daemon F) (w' : World F)
      → ((res : Verdict) (s : Scheduler F) (v : World F)
          → IsPlaced d.sched w
          → asked ≡ some (res, s, v)
          → IsPlaced s v)
      → ◌>>=◌ {B = Reply F × Daemon F × World F} asked
          (λ (res, sched, v). some (reply res sched, record d { sched = sched }, v))
        ≡ some (rep, d', w')
      → Handled d d' w w'
  asked-Handled d w asked reply rep d' w' keeps run =
      let ((res, s, v), did, rest) = >>=-eq-some asked _ run in
      let e = some-injective _ _ rest in
      record {
        placed = λ h.
            subst (λ (x : Reply F × Daemon F × World F). IsPlaced x.1.sched x.2) e
              (keeps res s v h did);
        sent = ap (λ (x : Reply F × Daemon F × World F). x.1.sent) (sym e);
        last_n = ap (λ (x : Reply F × Daemon F × World F). x.1.chann.last_n) (sym e);
        clients = ap (λ (x : Reply F × Daemon F × World F). length x.1.chann.client) (sym e);
      }

  req_task_create-Handled :
      (fl : Floats F) (d d' : Daemon F) (w w' : World F) (cli_id : ℕ) (rep : Reply F)
      → req_task_create fl d w cli_id ≡ some (rep, d', w')
      → Handled d d' w w'
  unfolding req_task_create
  req_task_create-Handled fl d d' w w' cli_id rep run =
      let (req, asked, run1) = >>=-eq-some (carrier_get_req d.chann cli_id) _ run in
      let (pid, owner, run2) = >>=-eq-some (carrier_get_pid d.chann cli_id) _ run1 in
      asked-Handled d w (scheduler_task_create fl d.sched w req.param pid) _ rep d' w'
        (λ res s v h. scheduler_task_create-IsPlaced fl d.sched s w v req.param pid res h) run2

  req_task_modify-Handled :
      (d d' : Daemon F) (w w' : World F) (cli_id : ℕ) (rep : Reply F)
      → req_task_modify d w cli_id ≡ some (rep, d', w')
      → Handled d d' w w'
  unfolding req_task_modify
  req_task_modify-Handled d d' w w' cli_id rep run =
      let (req, asked, run1) = >>=-eq-some (carrier_get_req d.chann cli_id) _ run in
      asked-Handled d w (scheduler_task_change d.sched w req.param req.ids_rsvid) _ rep d' w'
        (λ res s v h did.
          (scheduler_task_change-Changed d.sched s w v req.param req.ids_rsvid res h did).0)
        run1

  req_task_attach-Handled :
      (d d' : Daemon F) (w w' : World F) (cli_id : ℕ) (rep : Reply F)
      → req_task_attach d w cli_id ≡ some (rep, d', w')
      → Handled d d' w w'
  unfolding req_task_attach
  req_task_attach-Handled d d' w w' cli_id rep run =
      let (req, asked, run1) = >>=-eq-some (carrier_get_req d.chann cli_id) _ run in
      asked-Handled d w (scheduler_task_attach d.sched w req.ids_rsvid req.ids_pid) _ rep d' w'
        (λ res s v h. scheduler_task_attach-IsPlaced d.sched s w v req.ids_rsvid req.ids_pid res h)
        run1

  req_task_detach-Handled :
      (d d' : Daemon F) (w w' : World F) (cli_id : ℕ) (rep : Reply F)
      → req_task_detach d w cli_id ≡ some (rep, d', w')
      → Handled d d' w w'
  unfolding req_task_detach
  req_task_detach-Handled d d' w w' cli_id rep run =
      let (req, asked, run1) = >>=-eq-some (carrier_get_req d.chann cli_id) _ run in
      asked-Handled d w (scheduler_task_detach d.sched w req.ids_rsvid) _ rep d' w'
        (λ res s v h. scheduler_task_detach-IsPlaced d.sched s w v req.ids_rsvid res h) run1

  req_task_destroy-Handled :
      (d d' : Daemon F) (w w' : World F) (cli_id : ℕ) (rep : Reply F)
      → req_task_destroy d w cli_id ≡ some (rep, d', w')
      → Handled d d' w w'
  unfolding req_task_destroy
  req_task_destroy-Handled d d' w w' cli_id rep run =
      let (req, asked, run1) = >>=-eq-some (carrier_get_req d.chann cli_id) _ run in
      asked-Handled d w (scheduler_task_destroy d.sched w req.ids_rsvid) _ rep d' w'
        (λ res s v h did.
          (scheduler_task_destroy-Destroyed d.sched s w v req.ids_rsvid res h did).0)
        run1

  -- Every request handler keeps the invariant and sends nothing itself.
  pub respond-Handled :
      (fl : Floats F) (req_type : ReqType) (d d' : Daemon F) (w w' : World F) (cli_id : ℕ)
      (rep : Reply F)
      → respond fl req_type d w cli_id ≡ some (rep, d', w')
      → Handled d d' w w'
  unfolding respond
  respond-Handled fl connection d d' w w' cli_id rep =
      OnlyReads-Handled d d' w w' rep _ (req_connection-OnlyReads d w cli_id)
  respond-Handled fl connections_info d d' w w' cli_id rep =
      OnlyReads-Handled d d' w w' rep _ (req_connections_info-OnlyReads d w cli_id)
  respond-Handled fl connection_info d d' w w' cli_id rep =
      OnlyReads-Handled d d' w w' rep _ (req_connection_info-OnlyReads d w cli_id)
  respond-Handled fl plugins_info d d' w w' cli_id rep =
      OnlyReads-Handled d d' w w' rep _ (req_plugins_info-OnlyReads d w cli_id)
  respond-Handled fl plugin_info d d' w w' cli_id rep =
      OnlyReads-Handled d d' w w' rep _ (req_plugin_info-OnlyReads d w cli_id)
  respond-Handled fl plugin_cpu_info d d' w w' cli_id rep =
      OnlyReads-Handled d d' w w' rep _ (req_plugin_cpu_info-OnlyReads d w cli_id)
  respond-Handled fl tasks_info d d' w w' cli_id rep =
      OnlyReads-Handled d d' w w' rep _ (req_tasks_info-OnlyReads d w cli_id)
  respond-Handled fl task_info d d' w w' cli_id rep =
      OnlyReads-Handled d d' w w' rep _ (req_task_info-OnlyReads d w cli_id)
  respond-Handled fl task_create d d' w w' cli_id rep =
      req_task_create-Handled fl d d' w w' cli_id rep
  respond-Handled fl task_modify d d' w w' cli_id rep = req_task_modify-Handled d d' w w' cli_id rep
  respond-Handled fl task_attach d d' w w' cli_id rep = req_task_attach-Handled d d' w w' cli_id rep
  respond-Handled fl task_detach d d' w w' cli_id rep = req_task_detach-Handled d d' w w' cli_id rep
  respond-Handled fl task_destroy d d' w w' cli_id rep =
      req_task_destroy-Handled d d' w w' cli_id rep
  respond-Handled fl other d d' w w' cli_id rep = λ run.
      let e = some-injective _ _ run in
      record {
        placed = λ h. subst (λ (x : Reply F × Daemon F × World F). IsPlaced x.1.sched x.2) e h;
        sent = ap (λ (x : Reply F × Daemon F × World F). x.1.sent) (sym e);
        last_n = ap (λ (x : Reply F × Daemon F × World F). x.1.chann.last_n) (sym e);
        clients = ap (λ (x : Reply F × Daemon F × World F). length x.1.chann.client) (sym e);
      }
