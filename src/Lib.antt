-- ===== src/Lib.antt =====
-- A model of retif, the daemon that gives real-time scheduling to unprivileged processes, and
-- what is proved of it.
--
-- Clients talk to the daemon over a Unix socket. The channel (channel/retif_channel.c,
-- usocket.c) receives requests and keeps the state of each client; the daemon
-- (daemon/retif_daemon.c) answers them by calls of the scheduler (daemon/retif_scheduler.c),
-- which keeps the task set and asks the loaded plugins (plugins/sched_EDF.c, sched_RM.c,
-- sched_RR.c, sched_FP.c) to admit, place, attach and release tasks. The configuration
-- (daemon/retif_config.c) says which plugins there are. The library of the clients
-- (lib/retif_lib.c) sends the requests. Task sets (daemon/retif_taskset.c) are linked lists
-- (common/list.c) of pointers to tasks (daemon/retif_task.c).
--
-- The files, each named for its part:
--   Common       names and lemmas that the parts share, with C's `int`, tests and faults
--   LinkedList   common/list.c
--   Task         daemon/retif_task.c, struct rtf_params of common/retif_types.h
--   Taskset      daemon/retif_taskset.c
--   Floats       the operations and laws of `float`, a parameter, and an instance that runs
--   Plugin       struct rtf_plugin, the kernel as the plugins see it, and what the plugins share
--   Edf Rm Rr Fp the plugins; Plugins fills the scheduler's interface with them
--   Scheduler    daemon/retif_scheduler.c; Scheduler.Interface has the plugins' entry points and laws,
--                Scheduler.Loading and Scheduler.Started are daemon/retif_plugin.c
--   Channel      channel/retif_channel.c and, in Channel.Sockets and Channel.Received, channel/usocket.c
--   Daemon       daemon/retif_daemon.c; Daemon.Messages is from common/retif_types.h
--   Client       lib/retif_lib.c and lib/retif.h; Client.Creation and Client.Change have the daemon as well,
--                Client.Doubles is the library's own arithmetic on times
--   Config       daemon/retif_config.c; Config.Yaml is daemon/retif_yaml.h
--   Vector       daemon/vector.c and daemon/vector.h
--   Time         the arithmetic on times of daemon/retif_utils.c
--   Tests        runs on small inputs
--
-- A function of the source keeps its name without the prefix rtf_ and takes and returns the
-- state that it works on. `Option` stands for code that may fault: `none` is a read through NULL
-- or past an array. A pointer to a task is an address, and `World` holds the task at each
-- address, the addresses that were freed, and the calls of the kernel. A loop over a list is
-- structural recursion; the loops that remove the tasks of a process run on fuel, one round for
-- each task and one more; merge_sort runs on the length of the chain. Unsigned integers wrap
-- around where the source computes with them; the counters of lists and tasks do not reach their
-- bounds. Memory is taken not to run out, a new task gets an address that was never used, and a
-- task that was freed can still be read.
--
-- A vector is a block of elements, of which addresses are byte offsets. The search for a common
-- core runs on fuel for both lists, a range of cores on fuel up to its end, the cores of a text
-- on its length, and parse_conf, which can call itself, on any fuel. The union of a request is
-- that of a little-endian machine. The processors and priorities of a plugin are numbers:
-- check_cpus refuses a core below zero, and the start of a scheduler with a priority below zero,
-- with which the daemon goes on, is not modelled and gives `none`.
--
-- Parameters of the model: `float` (`Floats`), `double` in the library (`Doubles`), the kernel's
-- answers (`Kernel`, `Round` for the sockets of the daemon, `Wire` for that of a client, `Proc`
-- for the files of the kernel), the allocator of a vector, the nodes of a YAML document and
-- strtod, the shared objects that can be opened (`Loader`), and the entry points of the plugins
-- where the scheduler is looked at alone.
--
-- Not modelled: dlopen and dlsym, opening the configuration file, command line, logging, clocks,
-- the monitor, and the functions that only pass on to the kernel.
pub mod Channel
pub mod Client
pub mod Common
pub mod Config
pub mod Daemon
pub mod Edf
pub mod Floats
pub mod Fp
pub mod LinkedList
pub mod Plugin
pub mod Rm
pub mod Rr
pub mod Scheduler
pub mod Task
pub mod Taskset
pub mod Time
pub mod Vector
pub mod Plugins
mod Tests
