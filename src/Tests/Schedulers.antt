-- ===== src/Tests/Schedulers.antt =====
-- The scheduler, with an EDF plugin and an FP plugin.
use retif.Common.{
  ℕ, zero, suc, subst, ◌<◌, ◌+◌, Bool, true, false, Option, some, none, List, [], ◌∷◌, length,
  get_elem?, ◌==◌, ◌≡◌, ◌≢◌, ◌⊎◌, refl, arith,
}
use mathlib.Core.Option.{some-injective}
use retif.Common.Int.{ℤ, pos, negsuc}
use retif.Floats.Fixed.{fixed}
use retif.Task.{Params, task_get_util, task_get_des_util}
use retif.Taskset.{taskset_search, taskset_cmp_ppid}
use retif.Taskset.Removal.{without}
use retif.Plugin.{World, Verdict, partial, refused, error}
use retif.Scheduler.{
  Scheduler, Loaded, OperationsLaws, scheduler_task_create, scheduler_task_attach, scheduler_delete,
}
use retif.Scheduler.Choice.{Choice}
use retif.Scheduler.Placed.{IsPlaced, IsLoaded, Distinct}
use retif.Scheduler.Attach.{AttachedBy, scheduler_task_attach-AttachedBy}
use retif.Scheduler.Delete.{scheduler_delete-without}
use retif.Scheduler.Ends.{Stops, scheduler_delete-Stops}
use retif.Plugins.{edf_operations, fp_operations}
use retif.Plugins.Fulfilled.{edf_operations-OperationsLaws, fp_operations-OperationsLaws}
use retif.Channel.{Client, empty, disconnected}
use retif.Daemon.{Daemon, daemon_check_for_fail}
use retif.Daemon.Requests.{daemon_check_for_fail-without}
use retif.Edf
use retif.Scheduler.{scheduler_task_destroy}
use retif.Scheduler.Destroy.{Destroyed, scheduler_task_destroy-Destroyed}
use retif.Plugins.{rr_operations, rm_operations}
use retif.Plugins.Kept.{rr_operations-OperationsLaws}
use retif.Plugins.KeptRates.{rm_operations-OperationsLaws}
use retif.Fp
use retif.Tests.Data.{params, heap, world, kernel, scheduler, got}

edf_example : OperationsLaws (edf_operations fixed kernel)
edf_example = edf_operations-OperationsLaws kernel fixed

fp_example : OperationsLaws (fp_operations fixed kernel)
fp_example = fp_operations-OperationsLaws kernel fixed

scheduler-IsLoaded : IsLoaded scheduler.plugin
scheduler-IsLoaded zero p at =
    subst (λ (q : Loaded ℤ). (q.plg.id ≡ 0) × OperationsLaws q.calls) (some-injective _ _ at)
      (refl, edf_operations-OperationsLaws kernel fixed)
scheduler-IsLoaded (suc zero) p at =
    subst (λ (q : Loaded ℤ). (q.plg.id ≡ 1) × OperationsLaws q.calls) (some-injective _ _ at)
      (refl, fp_operations-OperationsLaws kernel fixed)
scheduler-IsLoaded (suc (suc i)) p at = absurd (cc)

pub scheduler-IsPlaced : IsPlaced scheduler world
unfolding Distinct
scheduler-IsPlaced = record {
  loaded = scheduler-IsLoaded;
  counted = refl;
  allocated = (omega arith, (omega arith, tt));
  distinct = (((λ e. omega (arith, e)), tt), (tt, tt));
  placed = ((0, refl, omega arith), ((1, refl, omega arith), tt));
}

attach_example :
    ((taskset_search heap scheduler.taskset 2 ≡ none)
      × (scheduler_task_attach scheduler world 2 99 ≡ some (error, scheduler, world)))
    ⊎ AttachedBy scheduler world 2 99
attach_example = scheduler_task_attach-AttachedBy scheduler world 2 99 scheduler-IsPlaced

ends_example :
    ((s' : Scheduler ℤ) × (w' : World ℤ) × (scheduler_delete scheduler world 10 ≡ some (s', w'))
      × IsPlaced s' w'
      × (s'.taskset.tasks.root ≡ without (taskset_cmp_ppid heap 10) (1 ∷ 2 ∷ [])))
    ⊎ Stops 10 scheduler world
ends_example = scheduler_delete-Stops scheduler world 10 scheduler-IsPlaced

abbrev State : Type 0
State = Verdict × Scheduler ℤ × World ℤ

abbrev start : State
start = (error, scheduler, world)

abbrev created : State
created = got (scheduler_task_create fixed scheduler world (params 1_000 10_000 3) 30) start

created-run :
    scheduler_task_create fixed scheduler world (params 1_000 10_000 3) 30
    ≡ some (created.0, created.1, created.2)
unfolding scheduler_task_create edf_operations retif.Edf.plg_task_accept retif.Common.Int.◌*ℤ◌
    task_get_util retif.Task.int_of_uint64 retif.Task.task_get_min_declared retif.Edf.admission_test
    task_get_des_util retif.Plugin.utilization_test retif.Plugin.downgrade
    retif.Plugin.has_another_preference retif.Edf.plg_task_schedule
created-run = refl

abbrev deleted : Scheduler ℤ × World ℤ
deleted = got (scheduler_delete scheduler world 10) (scheduler, world)

deleted-run : scheduler_delete scheduler world 10 ≡ some (deleted.0, deleted.1)
unfolding scheduler_delete retif.Taskset.taskset_remove_by_ppid retif.LinkedList.list_remove
    edf_operations retif.Edf.plg_task_release
deleted-run = refl

delete_example :
    IsPlaced deleted.0 deleted.1
    × (deleted.0.taskset.tasks.root ≡ without (taskset_cmp_ppid heap 10) (1 ∷ 2 ∷ []))
delete_example =
    scheduler_delete-without scheduler deleted.0 world deleted.1 10 scheduler-IsPlaced deleted-run

-- The client of process 10 has left descriptor 1.
abbrev gone : Client
gone = record { state = disconnected; pid = 10 }

abbrev daemon : Daemon ℤ
daemon = record {
  chann = record {
    sock = record { socket = 0; conn_set_max = 1; conn_set = λ i. i == 1 };
    last_n = pos 0 ∷ negsuc 0 ∷ [];
    last_req = [];
    client = record { state = empty; pid = 0 } ∷ gone ∷ [];
  };
  sched = scheduler;
  sent = [];
}

abbrev checked : Bool × Daemon ℤ × World ℤ
checked = got (daemon_check_for_fail daemon world 1) (false, daemon, world)

checked-run : daemon_check_for_fail daemon world 1 ≡ some (checked.0, checked.1, checked.2)
unfolding daemon_check_for_fail scheduler_delete retif.Taskset.taskset_remove_by_ppid
    retif.LinkedList.list_remove edf_operations retif.Edf.plg_task_release
checked-run = refl

check_for_fail_example :
    (checked.0 ≡ true)
    × (get_elem? checked.1.chann.client 1 ≡ some (record { state = empty; pid = 0 }))
    × (checked.1.sched.taskset.tasks.root ≡ without (taskset_cmp_ppid heap 10) (1 ∷ 2 ∷ []))
    × IsPlaced checked.1.sched checked.2
check_for_fail_example =
    daemon_check_for_fail-without daemon checked.1 world checked.2 1 gone checked.0
      scheduler-IsPlaced refl refl checked-run

abbrev destroyed_run : State
destroyed_run = got (scheduler_task_destroy scheduler world 2) start

destroyed_run-is :
    scheduler_task_destroy scheduler world 2
    ≡ some (destroyed_run.0, destroyed_run.1, destroyed_run.2)
unfolding scheduler_task_destroy retif.Taskset.taskset_remove_by_rsvid retif.LinkedList.list_remove
    fp_operations retif.Fp.plg_task_release
destroyed_run-is = refl

destroy_example :
    IsPlaced destroyed_run.1 destroyed_run.2
    × Destroyed scheduler world 2 destroyed_run.0 destroyed_run.1 destroyed_run.2
destroy_example =
    scheduler_task_destroy-Destroyed scheduler destroyed_run.1 world destroyed_run.2 2
      destroyed_run.0 scheduler-IsPlaced destroyed_run-is

rr_example : OperationsLaws (rr_operations fixed kernel)
rr_example = rr_operations-OperationsLaws kernel fixed

rm_example : OperationsLaws (rm_operations fixed kernel)
rm_example = rm_operations-OperationsLaws fixed kernel
