-- ===== src/Daemon.antt =====
-- daemon/retif_daemon.c: how the daemon answers the requests of its clients.
-- `d` is the daemon and `w` the world. The daemon's task set is the one that the scheduler points to.
mod Messages
pub mod Answers
pub mod Creates
pub mod Placed
pub mod Requests
pub mod Rounds
pub mod Started
pub mod Turns
unfoldable pub use Messages.*
use retif.Common.{
  ℕ, zero, suc, ◌+◌, ◌-◌, ◌*◌, ◌%◌, ◌^◌, Bool, true, false, ◌&&◌, ◌||◌, not, Option, none, some,
  List, [], ◌∷◌, length, take, get_elem?, ltb, ◌==◌, if◌then◌else◌, ◌>>=◌,
}
use retif.Common.Int.{ℤ, pos, negsuc, ltb_ℤ}
use retif.Floats.{Floats}
use retif.Task.{Task, int_of_uint64}
use retif.Taskset.{taskset_search, taskset_get_size}
use retif.Plugin.{World, Plugin, cputot, Verdict, ok, partial, refused}
use retif.Scheduler.{
  Scheduler, Loaded, scheduler_task_create, scheduler_task_change, scheduler_task_attach,
  scheduler_task_detach, scheduler_task_destroy, scheduler_delete,
}
use retif.Channel.{
  Carrier, Client, ClientState, empty, connected, disconnected, error, is_connected, Round,
  carrier_update, carrier_get_conn, carrier_get_req, carrier_is_updated, carrier_req_clear,
  carrier_get_state, carrier_set_state, carrier_get_pid, carrier_set_pid, carrier_close,
}

-- The replies that were handed to `send` are kept, the newest first.
pub record Daemon (F : Type 0) : Type 0 where
  pub chann : Carrier Request
  pub sched : Scheduler F
  pub sent : List (ℕ × Reply F)

abbrev pub channel_max_size : ℕ
channel_max_size = 1024

-- The number of a descriptor of a request that is not below zero.
abbrev pub natural : ℤ → Option ℕ
natural (pos n) = some n
natural (negsuc n) = none

-- The conversion of an `int` to `rtf_id_t`.
abbrev pub to_uint32 : ℤ → ℕ
to_uint32 (pos n) = n % 2 ^ 32
to_uint32 (negsuc n) = (2 ^ 32 * (n + 1) - (n + 1)) % 2 ^ 32

abbrev pub is_failed : ClientState → Bool
is_failed empty = false
is_failed connected = false
is_failed disconnected = true
is_failed error = true

unfoldable pub count_clients : List Client → ℕ
count_clients [] = 0
count_clients (c ∷ client) =
    let rest = count_clients client in if c.pid == 0 then rest else suc rest

unfoldable pub modify_reply : Verdict → RepType
modify_reply refused = task_modify_err
modify_reply partial = task_modify_part
modify_reply ok = task_modify_ok

-- The reply to a result that is an error below zero.
abbrev pub unless_error : Verdict → RepType → RepType → RepType
unless_error refused ok_type err_type = err_type
unless_error partial ok_type err_type = ok_type
unless_error ok ok_type err_type = ok_type

module _ {F : Type 0} where
  abbrev only : RepType → Reply F
  only rep_type = record { rep_type = rep_type; payload = unset }

  -- A reply that leaves the daemon alone.
  abbrev answer :
      Daemon F → World F → RepType → ReplyPayload F → Option (Reply F × Daemon F × World F)
  answer d w rep_type payload = some (record { rep_type = rep_type; payload = payload }, d, w)

  unfoldable pub req_connection : Daemon F → World F → ℕ → Option (Reply F × Daemon F × World F)
  req_connection d w cli_id = carrier_get_req d.chann cli_id >>= λ req.
      carrier_set_pid d.chann cli_id req.ids_pid >>= λ chann.
      some (only connection_ok, record d { chann = chann }, w)

  unfoldable pub req_connections_info :
      Daemon F → World F → ℕ → Option (Reply F × Daemon F × World F)
  unfolding count_clients
  req_connections_info d w cli_id = carrier_get_req d.chann cli_id >>= λ req.
      answer d w connections_info_ok (nconnected (count_clients d.chann.client))

  unfoldable pub req_plugins_info : Daemon F → World F → ℕ → Option (Reply F × Daemon F × World F)
  req_plugins_info d w cli_id = carrier_get_req d.chann cli_id >>= λ req.
      answer d w plugins_info_ok (nplugin (length d.sched.plugin))

  -- The type of the reply is that of `req_plugins_info`.
  unfoldable pub req_tasks_info : Daemon F → World F → ℕ → Option (Reply F × Daemon F × World F)
  req_tasks_info d w cli_id = carrier_get_req d.chann cli_id >>= λ req.
      answer d w plugins_info_ok (ntask d.sched.taskset.tasks.n)

  -- The test on `cdesc` lets CHANNEL_MAX_SIZE and numbers below zero through to the array.
  unfoldable pub req_connection_info :
      Daemon F → World F → ℕ → Option (Reply F × Daemon F × World F)
  req_connection_info d w cli_id = carrier_get_req d.chann cli_id >>= λ req.
      if ltb_ℤ (pos channel_max_size) req.q_desc
      then answer d w connection_info_err unset
      else (natural req.q_desc >>= λ cdesc. get_elem? d.chann.client cdesc >>= λ c.
          if c.pid == 0
          then answer d w connection_info_err unset
          else answer d w connection_info_ok (of_client c.pid c.state))

  unfoldable pub req_plugin_info : Daemon F → World F → ℕ → Option (Reply F × Daemon F × World F)
  req_plugin_info d w cli_id = carrier_get_req d.chann cli_id >>= λ req.
      if not (ltb_ℤ req.q_desc (pos (length d.sched.plugin)))
      then answer d w plugin_info_err unset
      else (natural req.q_desc >>= λ pdesc. get_elem? d.sched.plugin pdesc >>= λ p.
          answer d w plugin_info_ok (of_plugin (take 32 p.plg.name) (cputot p.plg)))

  unfoldable pub req_plugin_cpu_info :
      Daemon F → World F → ℕ → Option (Reply F × Daemon F × World F)
  req_plugin_cpu_info d w cli_id = carrier_get_req d.chann cli_id >>= λ req.
      if not (ltb_ℤ req.q_desc (pos (length d.sched.plugin)))
      then answer d w plugin_cpu_info_err unset
      else (natural req.q_desc >>= λ pdesc. get_elem? d.sched.plugin pdesc >>= λ p.
          if not (ltb_ℤ req.q_id (pos (cputot p.plg)))
          then answer d w plugin_cpu_info_err unset
          else (natural req.q_id >>= λ cpuid. get_elem? p.plg.cpulist cpuid >>= λ cpunum.
              get_elem? p.plg.task_count_percpu cpuid >>= λ count.
              get_elem? p.plg.util_free_percpu cpuid >>= λ free.
              answer d w plugin_cpu_info_ok (of_cpu cpunum free count)))

  unfoldable pub req_task_info : Daemon F → World F → ℕ → Option (Reply F × Daemon F × World F)
  unfolding taskset_search
  req_task_info d w cli_id = carrier_get_req d.chann cli_id >>= λ req.
      elim (taskset_search w.heap d.sched.taskset (to_uint32 req.q_desc)) [
        | none ↦ answer d w task_info_err unset
        | some a ↦
            let t = w.heap a in
            answer d w task_info_ok (
              of_task t.tid t.ptid (int_of_uint64 t.schedprio) (int_of_uint64 t.params.period)
                t.pluginid)
      ]

  module _ (fl : Floats F) where
    -- `rep.payload.response` of a new task: a `float` of its identifier as an `int`, or -1.
    unfoldable pub create_reply : Verdict → ℕ → Reply F
    create_reply refused rtf_id = record {
      rep_type = task_create_err;
      payload = response (fl.of_int (negsuc 0));
    }
    create_reply partial rtf_id = record {
      rep_type = task_create_part;
      payload = response (fl.of_int (int_of_uint64 rtf_id));
    }
    create_reply ok rtf_id = record {
      rep_type = task_create_ok;
      payload = response (fl.of_int (int_of_uint64 rtf_id));
    }

    unfoldable pub req_task_create : Daemon F → World F → ℕ → Option (Reply F × Daemon F × World F)
    unfolding create_reply
    req_task_create d w cli_id = carrier_get_req d.chann cli_id >>= λ req.
        carrier_get_pid d.chann cli_id >>= λ pid.
        scheduler_task_create fl d.sched w req.param pid >>= λ (res, sched, w').
        some (create_reply res sched.last_task_id, record d { sched = sched }, w')

  -- `param` and `ids` are views of one union.
  unfoldable pub req_task_modify : Daemon F → World F → ℕ → Option (Reply F × Daemon F × World F)
  unfolding modify_reply
  req_task_modify d w cli_id = carrier_get_req d.chann cli_id >>= λ req.
      scheduler_task_change d.sched w req.param req.ids_rsvid >>= λ (res, sched, w').
      some (only (modify_reply res), record d { sched = sched }, w')

  unfoldable pub req_task_attach : Daemon F → World F → ℕ → Option (Reply F × Daemon F × World F)
  req_task_attach d w cli_id = carrier_get_req d.chann cli_id >>= λ req.
      scheduler_task_attach d.sched w req.ids_rsvid req.ids_pid >>= λ (res, sched, w').
      some (only (unless_error res task_attach_ok task_attach_err), record d { sched = sched }, w')

  unfoldable pub req_task_detach : Daemon F → World F → ℕ → Option (Reply F × Daemon F × World F)
  req_task_detach d w cli_id = carrier_get_req d.chann cli_id >>= λ req.
      scheduler_task_detach d.sched w req.ids_rsvid >>= λ (res, sched, w').
      some (only (unless_error res task_detach_ok task_detach_err), record d { sched = sched }, w')

  unfoldable pub req_task_destroy : Daemon F → World F → ℕ → Option (Reply F × Daemon F × World F)
  req_task_destroy d w cli_id = carrier_get_req d.chann cli_id >>= λ req.
      scheduler_task_destroy d.sched w req.ids_rsvid >>= λ (res, sched, w').
      some
        (only (unless_error res task_destroy_ok task_destroy_err), record d { sched = sched }, w')

  -- The result tells whether the client is in a state of failure.
  unfoldable pub daemon_check_for_fail : Daemon F → World F → ℕ → Option (Bool × Daemon F × World F)
  unfolding scheduler_delete
  daemon_check_for_fail d w cli_id = carrier_get_state d.chann cli_id >>= λ st.
      if not (is_failed st)
      then some (false, d, w)
      else (carrier_set_state d.chann cli_id empty >>= λ chann.
          carrier_get_pid chann cli_id >>= λ pid. scheduler_delete d.sched w pid >>= λ (sched, w').
          carrier_set_pid chann cli_id 0 >>= λ chann'.
          some (true, record d { chann = carrier_close chann' cli_id; sched = sched }, w'))

  unfoldable pub daemon_check_for_update : Daemon F → ℕ → Option Bool
  daemon_check_for_update d cli_id = carrier_is_updated d.chann cli_id >>= λ updated.
      carrier_get_state d.chann cli_id >>= λ st. some (is_connected st && updated)

  module _ (fl : Floats F) where
    -- The `switch` of `rtf_daemon_process_req`.
    unfoldable pub respond :
        ReqType → Daemon F → World F → ℕ → Option (Reply F × Daemon F × World F)
    respond connection d w cli_id = req_connection d w cli_id
    respond connections_info d w cli_id = req_connections_info d w cli_id
    respond connection_info d w cli_id = req_connection_info d w cli_id
    respond plugins_info d w cli_id = req_plugins_info d w cli_id
    respond plugin_info d w cli_id = req_plugin_info d w cli_id
    respond plugin_cpu_info d w cli_id = req_plugin_cpu_info d w cli_id
    respond tasks_info d w cli_id = req_tasks_info d w cli_id
    respond task_info d w cli_id = req_task_info d w cli_id
    respond task_create d w cli_id = req_task_create fl d w cli_id
    respond task_modify d w cli_id = req_task_modify d w cli_id
    respond task_attach d w cli_id = req_task_attach d w cli_id
    respond task_detach d w cli_id = req_task_detach d w cli_id
    respond task_destroy d w cli_id = req_task_destroy d w cli_id
    respond other d w cli_id = some (only request_err, d, w)

    -- `send` is what the call of the kernel returns for a descriptor and a reply.
    module _ (send : ℕ → Reply F → ℤ) where
      unfoldable pub daemon_process_req : Daemon F → World F → ℕ → Option (ℤ × Daemon F × World F)
      daemon_process_req d w cli_id = carrier_get_req d.chann cli_id >>= λ req.
          respond req.req_type d w cli_id >>= λ (rep, d', w').
          some (send cli_id rep, record d' { sent = (cli_id, rep) ∷ d'.sent }, w')

      unfoldable pub daemon_handle_req : Daemon F → World F → ℕ → Option (Daemon F × World F)
      daemon_handle_req d w cli_id = daemon_check_for_fail d w cli_id >>= λ (failed, checked, w').
          if failed
          then some (checked, w')
          else (daemon_check_for_update checked cli_id >>= λ updated.
              if not updated
              then some (checked, w')
              else (daemon_process_req checked w' cli_id >>= λ (sent, served, after).
                  carrier_req_clear served.chann cli_id >>= λ chann.
                  (if ltb_ℤ (pos 0) sent then some chann else carrier_set_state chann cli_id error)
                  >>= λ chann'. some (record served { chann = chann' }, after)))

      -- The `for` of `rtf_daemon_loop`: `count` descriptors from `i` on.
      pub handle_from : ℕ → ℕ → Daemon F → World F → Option (Daemon F × World F)
      handle_from zero i d w = some (d, w)
      handle_from (suc count) i d w =
          daemon_handle_req d w i >>= λ (d', w'). handle_from count (suc i) d' w'

      -- One round of `rtf_daemon_loop`. No handler changes what `rtf_carrier_get_conn` returns.
      unfoldable pub daemon_round : Round Request → Daemon F → World F → Option (Daemon F × World F)
      unfolding handle_from
      daemon_round round d w = carrier_update round d.chann >>= λ chann.
          handle_from (suc (carrier_get_conn chann)) 0 (record d { chann = chann }) w
