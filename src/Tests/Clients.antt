-- ===== src/Tests/Clients.antt =====
-- A client of process 10, and the wire to the daemon of the other runs.
use retif.Common.{
  ℕ, zero, suc, ◌+◌, ◌-◌, ◌*◌, ◌/◌, ltb, ◌%◌, ◌^◌, ◌<◌, Option, some, none, List, [], ◌∷◌,
  get_elem?, ◌≡◌, refl, arith,
}
use retif.Common.Int.{ℤ, pos, negsuc}
use retif.Floats.Fixed.{fixed}
use retif.Task.{Params}
use retif.Taskset.{taskset_search}
use retif.Time.Arithmetic.{nanoseconds}
use retif.Daemon.{Daemon, Reply, unset, task_modify_err, req_task_modify}
use retif.Client.{Access, Wire, ClientTask, Payload, rtf_fail, of_param}
use retif.Client.Periods.{waits, rtf_task_start, rtf_task_wait_period-start}
use retif.Client.Doubles.{Doubles, DoubleLaws}
use retif.Client.Creation.{Told, rtf_task_create-Told}
use retif.Client.Change.{modification, rtf_task_change-misses}
use retif.Client.Requests.{rtf_task_create, rtf_task_change}
use retif.Tests.Data.{params, world, scheduler, heap}
use retif.Tests.Schedulers.{scheduler-IsPlaced}
use retif.Tests.Daemons.{daemon, answered, answered-run, nothing, client}

abbrev wanted : Params
wanted = params 1_000 10_000 3

abbrev handle : ClientTask
handle = record {
  task_id = 1;
  dmiss = 0;
  acc_runtime = 0;
  p = wanted;
  at = record { tv_sec = 0; tv_nsec = 0 };
  dl = record { tv_sec = 0; tv_nsec = 0 };
}

abbrev access : Access ℤ
access = record { payload = of_param wanted; rep = nothing }

-- A wire on which the daemon's reply `rep` comes back.
abbrev wire : Reply ℤ → Wire ℤ
wire rep = record {
  send = λ req. pos 88;
  recv = λ req. (pos 44, rep);
  raw_int = λ p. pos 0;
  raw_float = λ p. pos 0;
}

exact : (id : ℕ) → id < 2 ^ 24 → fixed.to_nat (fixed.of_int (pos id)) ≡ id
unfolding retif.Common.Int.◌*ℤ◌
exact id lt = ground arith

client_creation_example :
    (let r = rtf_task_create (wire answered.0) fixed access handle wanted in
      Told fixed (daemon (pos 64)) answered.1 answered.2 10 r.0 r.1)
client_creation_example =
    rtf_task_create-Told fixed (wire answered.0) (daemon (pos 64)) answered.1 world answered.2 1 44
      client access handle wanted answered.0 scheduler-IsPlaced refl answered-run refl refl
      (omega arith) (omega arith) exact

-- Numbers in thousandths.
abbrev doubles : Doubles ℕ
doubles = record {
  of_nat = λ n. n * 1_000;
  to_nat = λ x. x / 1_000;
  add = λ x y. x + y;
  sub = λ x y. x - y;
  mul = λ x y. x * y / 1_000;
  div = λ x y. x * 1_000 / y;
  ltb = λ x y. ltb x y;
}

doubles-DoubleLaws : DoubleLaws doubles
doubles-DoubleLaws = record {
  thousandths = λ s ms h h'. omega arith;
  sum = λ a b h. omega arith;
  difference = λ a b le h. omega (arith, le);
  below = λ a b h h'. ground arith;
}

wait_period_example :
    nanoseconds
      (waits doubles 2 (rtf_task_start doubles handle (record { tv_sec = 5; tv_nsec = 0 }))).at
    ≡ 35_000_000_000
unfolding nanoseconds
wait_period_example =
    rtf_task_wait_period-start doubles doubles-DoubleLaws 2 handle
      (record { tv_sec = 5; tv_nsec = 0 }) (omega arith) (omega arith)

-- The client asks for a change of its task.
abbrev changing : Daemon ℤ
changing =
    let d = daemon (pos 64) in
    record d {
      chann = record d.chann { last_req = modification wanted ∷ modification wanted ∷ [] };
    }

abbrev reply : Reply ℤ
reply = record { rep_type = task_modify_err; payload = unset }

modify-run : req_task_modify changing world 1 ≡ some (reply, changing, world)
unfolding req_task_modify retif.Scheduler.scheduler_task_change taskset_search
    retif.Client.request_of
modify-run = refl

nobody : taskset_search heap scheduler.taskset 0 ≡ none
unfolding taskset_search
nobody = refl

misses_example :
    (changing ≡ changing)
    × (world ≡ world)
    × ((rtf_task_change (wire reply) access handle wanted).0 ≡ rtf_fail)
misses_example =
    rtf_task_change-misses (wire reply) changing world 1 44 access handle wanted reply changing
      world (omega arith) nobody refl modify-run refl refl (omega arith)
