-- ===== src/Tests/Data.antt =====
-- Tasks, a world, plugins and a scheduler for the runs. Utilisations are in millionths.
use retif.Common.{ℕ, Option, none, some, [], ◌∷◌, if◌then◌else◌, ◌==◌}
use retif.Common.Int.{ℤ, pos, negsuc}
use retif.Floats.Fixed.{fixed}
use retif.Task.{Params, Task}
use retif.Taskset.{Heap}
use retif.Plugin.{Plugin, World, Kernel, sched_other}
use retif.Scheduler.{Scheduler, Loaded}
use retif.Plugins.{edf_operations, fp_operations}

abbrev pub params : ℕ → ℕ → ℕ → Params
params runtime period prio = record {
  runtime = runtime;
  des_runtime = 0;
  period = period;
  deadline = 0;
  priority = prio;
  sched_plugin = [];
  ignore_admission = 0;
}

abbrev pub task : (id ptid : ℕ) (pluginid : ℤ) (p : Params) → Task ℤ
task id ptid pluginid p = record {
  id = id;
  ptid = ptid;
  tid = 0;
  euid = 0;
  egid = 0;
  clk = 1;
  cpu = 0;
  schedprio = 0;
  pluginid = pluginid;
  acceptedt = 0;
  acceptedu = pos 0;
  params = p;
}

-- Address 1 holds a task of process 10 under EDF, address 2 one of process 20 under FP.
abbrev pub heap : Heap ℤ
heap a =
    if a == 1
    then task 1 10 (pos 0) (params 2_000 10_000 5)
    else if a == 2
    then task 2 20 (pos 1) (params 1_000 5_000 7)
    else task 0 0 (negsuc 0) (params 0 0 0)

abbrev pub world : World ℤ
world = record { heap = heap; next = 3; freed = []; calls = [] }

-- A kernel that refuses nothing, on which no thread runs under a policy of the plugins.
abbrev pub kernel : Kernel
kernel = record {
  answer = λ calls call. pos 0;
  getscheduler = λ calls tid. sched_other;
  nprocs = 2;
  fifo_max = 99;
  fifo_min = 1;
  rr_max = 99;
  rr_min = 1;
}

abbrev pub plugin : ℕ → Plugin ℤ
plugin id = record {
  id = id;
  name = 69 ∷ [];
  prio_min = 2;
  prio_max = 9;
  cpulist = 0 ∷ 1 ∷ [];
  util_free_percpu = pos 500_000 ∷ pos 900_000 ∷ [];
  task_count_percpu = pos 1 ∷ pos 0 ∷ [];
  tasks =
      record { tasks = record { n = 2; root = 1 ∷ 2 ∷ [] } }
      ∷ record { tasks = record { n = 0; root = [] } }
      ∷ [];
  dist_prio = 2 ∷ 0 ∷ [];
  n_per_prio = [];
}

abbrev pub edf : Loaded ℤ
edf = record { calls = edf_operations fixed kernel; plg = plugin 0 }

abbrev pub fp : Loaded ℤ
fp = record { calls = fp_operations fixed kernel; plg = plugin 1 }

abbrev pub scheduler : Scheduler ℤ
scheduler = record {
  num_of_cpu = 2;
  last_task_id = 2;
  taskset = record { tasks = record { n = 2; root = 1 ∷ 2 ∷ [] } };
  plugin = edf ∷ fp ∷ [];
}

-- The result of a run that does not fault.
abbrev pub got : {A : Type 0} → Option A → A → A
got none a = a
got (some b) a = b
