-- ===== src/Tests/Initial.antt =====
-- A daemon that starts with the plugins EDF and FP, and a client that asks for a task.
use retif.Common.{
  ℕ, Bool, true, false, not, Option, some, none, List, [], ◌∷◌, ◌==◌, ◌≡◌, refl, subst,
}
use mathlib.Core.Option.{some-injective}
use retif.Common.Int.{ℤ, pos, negsuc}
use retif.Floats.Fixed.{fixed}
use retif.Taskset.{taskset_init}
use retif.Plugin.{World}
use retif.Plugins.{edf_operations, fp_operations}
use retif.Plugins.Fulfilled.{edf_operations-OperationsLaws, fp_operations-OperationsLaws}
use retif.Scheduler.{Scheduler, OperationsLaws}
use retif.Scheduler.Placed.{IsPlaced}
use retif.Scheduler.Loading.{SharedObject, Loader, Trusted}
use retif.Scheduler.Initial.{scheduler_init, IsInitial, scheduler_init-IsInitial}
use retif.Config.{Configuration}
use retif.Config.Kernel.{Proc, Contents, rr_timeslice_file, rt_runtime_file, rt_period_file}
use retif.Daemon.{Daemon, daemon_round}
use retif.Daemon.Rounds.{start, then_round}
use retif.Daemon.Started.{started-IsPlaced}
use retif.Tests.Data.{kernel, world, scheduler, got}
use retif.Tests.Daemons.{daemon, send, round}
use retif.Edf

abbrev edf_object : SharedObject ℤ
edf_object = record { calls = edf_operations fixed kernel; dist_prio = []; n_per_prio = [] }

abbrev fp_object : SharedObject ℤ
fp_object = record { calls = fp_operations fixed kernel; dist_prio = []; n_per_prio = [] }

-- A file of two characters is EDF, and a longer one is FP.
abbrev dlopen : List ℕ → Option (SharedObject ℤ)
dlopen [] = none
dlopen (a ∷ []) = none
dlopen (a ∷ b ∷ []) = some edf_object
dlopen (a ∷ b ∷ c ∷ path) = some fp_object

-- There is nothing beside the configuration in /c/.
abbrev present : List ℕ → Bool
present [] = false
present (a ∷ []) = false
present (a ∷ b ∷ path) = not (b == b'c')

abbrev loader : Loader ℤ
loader = record {
  present = present;
  dlopen = dlopen;
  conf_dir = b'/' ∷ b'c' ∷ b'/' ∷ [];
  install_path = b'/' ∷ b'l' ∷ b'/' ∷ [];
}

loader-Trusted : Trusted loader
loader-Trusted [] o e = absurd (cc)
loader-Trusted (a ∷ []) o e = absurd (cc)
loader-Trusted (a ∷ b ∷ []) o e =
    subst (λ x. OperationsLaws x.calls) (some-injective _ _ e)
      (edf_operations-OperationsLaws kernel fixed)
loader-Trusted (a ∷ b ∷ c ∷ path) o e =
    subst (λ x. OperationsLaws x.calls) (some-injective _ _ e)
      (fp_operations-OperationsLaws kernel fixed)

abbrev conf : Configuration ℤ
conf = record {
  system = record { rr_timeslice = pos 100; sched_max_util = pos 900_000 };
  plugins =
      record {
        name = b'E' ∷ [];
        plugin_path = b'/' ∷ b'e' ∷ [];
        priority_min = pos 50;
        priority_max = pos 60;
        cores = pos 0 ∷ pos 1 ∷ [];
      }
      ∷ record {
        name = b'F' ∷ [];
        plugin_path = b'f' ∷ [];
        priority_min = pos 1;
        priority_max = pos 40;
        cores = pos 1 ∷ [];
      }
      ∷ [];
}

abbrev proc : Proc
proc = record { opens_read = λ f. true; opens_write = λ f. true; takes = λ f value. true }

abbrev files : Contents
files rr_timeslice_file = some (pos 90)
files rt_runtime_file = some (pos 950_000)
files rt_period_file = some (pos 1_000_000)

abbrev initial : ℤ × Scheduler ℤ
initial =
    got (scheduler_init fixed loader proc kernel files conf scheduler taskset_init)
      (negsuc 0, scheduler)

initial-run :
    scheduler_init fixed loader proc kernel files conf scheduler taskset_init
    ≡ some (pos 0, initial.1)
unfolding scheduler_init retif.Common.Int.◌*ℤ◌
initial-run = refl

initial_example : IsInitial fixed loader proc kernel conf initial.1
initial_example =
    scheduler_init-IsInitial fixed loader proc kernel files conf scheduler initial.1 loader-Trusted
      initial-run

abbrev begun : Daemon ℤ
begun = record { chann = (daemon (pos 0)).chann; sched = initial.1; sent = [] }

abbrev rounded : Daemon ℤ × World ℤ
rounded = got (daemon_round fixed send round begun world) (begun, world)

rounded-run : daemon_round fixed send round begun world ≡ some (rounded.0, rounded.1)
unfolding daemon_round scheduler_init retif.Channel.carrier_update retif.Daemon.daemon_handle_req
    retif.Daemon.daemon_check_for_fail retif.Daemon.daemon_check_for_update
    retif.Daemon.daemon_process_req retif.Daemon.respond retif.Daemon.req_task_create
    retif.Scheduler.scheduler_task_create edf_operations Edf.plg_task_accept retif.Client.request_of
    retif.Common.Int.◌*ℤ◌ retif.Task.task_get_util retif.Task.int_of_uint64
    retif.Task.task_get_min_declared Edf.admission_test retif.Task.task_get_des_util
    retif.Plugin.utilization_test retif.Plugin.downgrade retif.Plugin.has_another_preference
    Edf.plg_task_schedule
rounded-run = refl

started_example : IsPlaced rounded.0.sched rounded.1
started_example =
    started-IsPlaced fixed loader proc kernel files conf scheduler initial.1 (daemon (pos 0)).chann
      rounded.0 world rounded.1 loader-Trusted initial-run
      (then_round send round begun rounded.0 world rounded.1 start rounded-run)
