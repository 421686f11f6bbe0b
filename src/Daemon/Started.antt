-- ===== src/Daemon/Started.antt =====
-- daemon/retif_daemon.c: the daemon from `rtf_daemon_init`'s call of `rtf_scheduler_init` on, over the rounds of
-- `rtf_daemon_loop`.
use retif.Common.{some, [], ◌≡◌}
use retif.Common.Int.{pos}
use retif.Floats.{Floats}
use retif.Taskset.{taskset_init}
use retif.Plugin.{World, Kernel}
use retif.Scheduler.{Scheduler}
use retif.Scheduler.Placed.{IsPlaced}
use retif.Scheduler.Loading.{Loader, Trusted}
use retif.Scheduler.Initial.{scheduler_init, scheduler_init-IsInitial, IsInitial-IsPlaced}
use retif.Channel.{Carrier}
use retif.Config.{Configuration}
use retif.Config.Kernel.{Proc, Contents}
use retif.Daemon.{Daemon, Request}
use retif.Daemon.Rounds.{Reaches, reached-IsPlaced}

-- If the shared objects that can be opened keep what the scheduler relies on, and `rtf_scheduler_init`
-- returns 0 on an empty task set, then in every state that rounds lead to from there the scheduler's
-- invariant holds, whatever the configuration, the channel, the requests and the results of sending are.
pub started-IsPlaced :
    {F : Type 0} (fl : Floats F) (l : Loader F) (proc : Proc) (k : Kernel) (files : Contents)
    (conf : Configuration F) (before s : Scheduler F) (chann : Carrier Request) (d : Daemon F)
    (w0 w : World F)
    → Trusted l
    → scheduler_init fl l proc k files conf before taskset_init ≡ some (pos 0, s)
    → Reaches fl (record { chann = chann; sched = s; sent = [] }) w0 d w
    → IsPlaced d.sched w
started-IsPlaced fl l proc k files conf before s chann d w0 w h starts reaches =
    reached-IsPlaced fl (record { chann = chann; sched = s; sent = [] }) w0 d w
      (IsInitial-IsPlaced fl l proc k conf s w0
        (scheduler_init-IsInitial fl l proc k files conf before s h starts))
      reaches
