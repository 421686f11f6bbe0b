-- ===== src/Plugin/Data.antt =====
-- `struct rtf_plugin` and what its functions share with the daemon.
use retif.Common.{
  ℕ, ◌+◌, ◌-◌, ◌%◌, ◌^◌, Option, some, List, get_elem?, set, length, ◌==◌, if◌then◌else◌, ◌>>=◌,
}
use retif.Common.Int.{ℤ, pos, ◌+ℤ◌, ◌-ℤ◌}
use retif.Task.{Task}
use retif.Taskset.{Heap, Taskset}

-- RTF_OK, RTF_PARTIAL (and RTF_FAIL) and RTF_NO: 1, 0 and -1. RTF_ERROR is -1 too.
pub data Verdict : Type 0 where
  ok partial refused : Verdict

abbrev pub error : Verdict
error = refused

-- The processors are numbers, and `cputot` is the length of `cpulist`: rtf_plugins_init sets both from
-- the configured cores. The last two fields are the static arrays of the plugin's shared object; a
-- plugin that does not have such an array leaves the field alone.
pub record Plugin (F : Type 0) : Type 0 where
  pub id : ℕ
  pub name : List ℕ
  pub prio_min : ℕ
  pub prio_max : ℕ
  pub cpulist : List ℕ
  pub util_free_percpu : List F
  pub task_count_percpu : List ℤ
  pub tasks : List Taskset
  pub dist_prio : List ℕ
  pub n_per_prio : List (List ℤ)

abbrev pub cputot : {F : Type 0} → Plugin F → ℕ
cputot p = length p.cpulist

-- What a running thread is scheduled by.
pub data Policy : Type 0 where
  sched_other sched_fifo sched_rr sched_deadline : Policy

-- The calls of the kernel that the plugins make.
pub data Syscall : Type 0 where
  sched_setaffinity : (tid : ℕ) (cpus : List ℕ) → Syscall
  sched_setscheduler : (tid : ℕ) (policy : Policy) (prio : ℕ) → Syscall
  sched_setattr : (tid runtime deadline period : ℕ) → Syscall

-- The tasks by address, the first address that is not allocated, the addresses that were freed, and
-- the calls of the kernel that were made, the newest first.
pub record World (F : Type 0) : Type 0 where
  pub heap : Heap F
  pub next : ℕ
  pub freed : List ℕ
  pub calls : List Syscall

module _ {F : Type 0} where
  abbrev pub update : Heap F → ℕ → Task F → Heap F
  update heap a t b = if a == b then t else heap b

  abbrev pub write : World F → ℕ → Task F → World F
  write w a t = record w { heap = update w.heap a t }

-- `a[i] = f(a[i])`, which faults out of bounds.
abbrev pub modify_at {ℓ} : {A : Type ℓ} → List A → ℕ → (A → A) → Option (List A)
modify_at xs i f = get_elem? xs i >>= λ a. some (set xs i (f a))

-- `++` and `--` of an `int`, and of an `unsigned int`.
abbrev pub inc : ℤ → ℤ
inc n = n +ℤ pos 1

abbrev pub dec : ℤ → ℤ
dec n = n -ℤ pos 1

abbrev pub uinc : ℕ → ℕ
uinc n = (n + 1) % 2 ^ 32

abbrev pub udec : ℕ → ℕ
udec n = (n + (2 ^ 32 - 1)) % 2 ^ 32
