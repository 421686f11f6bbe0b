-- ===== src/Tests/Daemons.antt =====
-- The daemon, with a client of process 10 on descriptor 1.
use retif.Common.{
  ℕ, suc, ◌<◌, ◌+◌, Bool, true, false, Option, some, none, List, [], ◌∷◌, length, get_elem?, ◌==◌,
  ◌≡◌, refl, arith, ◌⊎◌,
}
use retif.Common.Int.{ℤ, pos, negsuc}
use retif.Floats.Fixed.{fixed}
use retif.Task.{Params, int_of_uint64}
use retif.Plugin.{World, Verdict, error}
use retif.Scheduler.{Scheduler, scheduler_task_change}
use retif.Scheduler.Placed.{IsPlaced}
use retif.Scheduler.Change.{Changed, scheduler_task_change-Changed}
use retif.Channel.{Carrier, Client, Round, connected, empty, carrier_update, carrier_get_conn}
use retif.Daemon.{
  Daemon, Reply, Request, task_create, request_err, unset, respond, daemon_handle_req, daemon_round,
  req_task_create,
}
use retif.Daemon.Turns.{Turn, daemon_handle_req-Turn}
use retif.Daemon.Answers.{daemon_handle_req-answers}
use retif.Daemon.Rounds.{OneEach, daemon_round-OneEach}
use retif.Daemon.Creates.{Replied, req_task_create-Replied}
use retif.Client.Creation.{creation}
use retif.Tests.Data.{params, world, scheduler, got}
use retif.Tests.Schedulers.{scheduler-IsPlaced}
use retif.Edf
use retif.Plugins.{edf_operations}

abbrev pub client : Client
client = record { state = connected; pid = 10 }

abbrev asked : Request
asked = creation (params 1_000 10_000 3)

-- The client has sent `n` bytes.
abbrev pub daemon : ℤ → Daemon ℤ
daemon n = record {
  chann = record {
    sock = record { socket = 0; conn_set_max = 1; conn_set = λ i. i == 1 };
    last_n = pos 0 ∷ n ∷ [];
    last_req = asked ∷ asked ∷ [];
    client = record { state = empty; pid = 0 } ∷ client ∷ [];
  };
  sched = scheduler;
  sent = [];
}

abbrev pub send : ℕ → Reply ℤ → ℤ
send cli_id rep = pos 64

abbrev pub nothing : Reply ℤ
nothing = record { rep_type = request_err; payload = unset }

abbrev pub answered : Reply ℤ × Daemon ℤ × World ℤ
answered = got (req_task_create fixed (daemon (pos 64)) world 1) (nothing, daemon (pos 64), world)

pub answered-run :
    req_task_create fixed (daemon (pos 64)) world 1 ≡ some (answered.0, answered.1, answered.2)
unfolding req_task_create retif.Scheduler.scheduler_task_create edf_operations Edf.plg_task_accept
    retif.Client.request_of retif.Common.Int.◌*ℤ◌ retif.Task.task_get_util int_of_uint64
    retif.Task.task_get_min_declared Edf.admission_test retif.Task.task_get_des_util
    retif.Plugin.utilization_test retif.Plugin.downgrade retif.Plugin.has_another_preference
    Edf.plg_task_schedule
answered-run = refl

creates_example : Replied fixed (daemon (pos 64)) world 10 answered.0 answered.1 answered.2
creates_example =
    req_task_create-Replied fixed (daemon (pos 64)) answered.1 world answered.2 1 client answered.0
      scheduler-IsPlaced refl answered-run

respond-run :
    respond fixed asked.req_type (daemon (pos 64)) world 1
    ≡ some (answered.0, answered.1, answered.2)
unfolding respond retif.Client.request_of req_task_create
respond-run = answered-run

answers_example :
    (d' : Daemon ℤ) × (daemon_handle_req fixed send (daemon (pos 64)) world 1
      ≡ some (d', answered.2))
    × (d'.sent ≡ (1, answered.0) ∷ [])
    × (d'.sched ≡ answered.1.sched)
answers_example =
    daemon_handle_req-answers fixed send (daemon (pos 64)) answered.1 world answered.2 1 10 64 asked
      answered.0 refl refl (omega arith) refl respond-run

abbrev turned : Daemon ℤ × World ℤ
turned = got (daemon_handle_req fixed send (daemon (pos 64)) world 1) (daemon (pos 64), world)

turned-run : daemon_handle_req fixed send (daemon (pos 64)) world 1 ≡ some (turned.0, turned.1)
unfolding daemon_handle_req retif.Daemon.daemon_check_for_fail retif.Daemon.daemon_check_for_update
    retif.Daemon.daemon_process_req respond req_task_create retif.Scheduler.scheduler_task_create
    edf_operations Edf.plg_task_accept retif.Client.request_of retif.Common.Int.◌*ℤ◌
    retif.Task.task_get_util int_of_uint64 retif.Task.task_get_min_declared Edf.admission_test
    retif.Task.task_get_des_util retif.Plugin.utilization_test retif.Plugin.downgrade
    retif.Plugin.has_another_preference Edf.plg_task_schedule
turned-run = refl

turn_example : Turn fixed send (daemon (pos 64)) world 1 turned.0 turned.1
turn_example =
    daemon_handle_req-Turn fixed send (daemon (pos 64)) turned.0 world turned.1 1 turned-run

-- In this round the client asks for a task.
abbrev pub round : Round Request
round = record {
  select_fails = false;
  ready = λ i. i == 1;
  accept = negsuc 0;
  has_credentials = λ i. true;
  recv = λ i. pos 64;
  fill = λ i r. asked;
}

abbrev heard : Carrier Request
heard = got (carrier_update round (daemon (pos 0)).chann) (daemon (pos 0)).chann

heard-run : carrier_update round (daemon (pos 0)).chann ≡ some heard
unfolding carrier_update
heard-run = refl

abbrev rounded : Daemon ℤ × World ℤ
rounded = got (daemon_round fixed send round (daemon (pos 0)) world) (daemon (pos 0), world)

rounded-run : daemon_round fixed send round (daemon (pos 0)) world ≡ some (rounded.0, rounded.1)
unfolding daemon_round carrier_update daemon_handle_req retif.Daemon.daemon_check_for_fail
    retif.Daemon.daemon_check_for_update retif.Daemon.daemon_process_req respond req_task_create
    retif.Scheduler.scheduler_task_create edf_operations Edf.plg_task_accept retif.Client.request_of
    retif.Common.Int.◌*ℤ◌ retif.Task.task_get_util int_of_uint64 retif.Task.task_get_min_declared
    Edf.admission_test retif.Task.task_get_des_util retif.Plugin.utilization_test
    retif.Plugin.downgrade retif.Plugin.has_another_preference Edf.plg_task_schedule
rounded-run = refl

round_example : OneEach 0 (suc (carrier_get_conn heard)) [] rounded.0.sent
round_example =
    daemon_round-OneEach fixed send round (daemon (pos 0)) rounded.0 world rounded.1 heard heard-run
      rounded-run

abbrev changed : Verdict × Scheduler ℤ × World ℤ
changed =
    got (scheduler_task_change scheduler world (params 500 10_000 5) 1) (error, scheduler, world)

changed-run :
    scheduler_task_change scheduler world (params 500 10_000 5) 1
    ≡ some (changed.0, changed.1, changed.2)
unfolding scheduler_task_change retif.Taskset.taskset_search edf_operations Edf.plg_task_change
    Edf.adjust_own Edf.plg_task_accept retif.Common.Int.◌*ℤ◌ retif.Task.task_get_util int_of_uint64
    retif.Task.task_get_min_declared Edf.admission_test retif.Task.task_get_des_util
    retif.Plugin.utilization_test retif.Common.Int.◌+ℤ◌ retif.Plugin.downgrade
    retif.Plugin.has_another_preference Edf.plg_task_release Edf.plg_task_schedule
    retif.Common.Int.◌-ℤ◌
changed-run = refl

change_example :
    IsPlaced changed.1 changed.2 × Changed scheduler world 1 changed.0 changed.1 changed.2
change_example =
    scheduler_task_change-Changed scheduler changed.1 world changed.2 (params 500 10_000 5) 1
      changed.0 scheduler-IsPlaced changed-run
