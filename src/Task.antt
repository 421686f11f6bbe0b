-- ===== src/Task.antt =====
-- daemon/retif_task.c, daemon/retif_task.h and `struct rtf_params` of common/retif_types.h: a real-time
-- task, its getters and setters, and the comparisons that the task sets are sorted by.
-- Unsigned fields are numbers below their width. A character array is the list of its bytes before NUL.
pub mod Compare
pub mod Utilisation
use retif.Common.{
  ℕ, suc, ◌+◌, ◌-◌, ◌%◌, ◌^◌, Bool, true, false, ◌&&◌, ◌||◌, Option, none, some, List, [], ◌∷◌, ltb,
  ◌==◌, if◌then◌else◌,
}
use retif.Common.Int.{ℤ, pos, negsuc, ◌*ℤ◌}
use retif.Floats.{Floats}

pub record Params : Type 0 where
  pub runtime : ℕ
  pub des_runtime : ℕ
  pub period : ℕ
  pub deadline : ℕ
  pub priority : ℕ
  pub sched_plugin : List ℕ
  pub ignore_admission : ℕ

pub record Task (F : Type 0) : Type 0 where
  pub id : ℕ
  pub ptid : ℕ
  pub tid : ℕ
  pub euid : ℕ
  pub egid : ℕ
  pub clk : ℕ
  pub cpu : ℕ
  pub schedprio : ℕ
  pub pluginid : ℤ
  pub acceptedt : ℕ
  pub acceptedu : F
  pub params : Params

-- `strcmp(a, b) == 0`
unfoldable pub str_eq : List ℕ → List ℕ → Bool
str_eq [] [] = true
str_eq [] (b ∷ bs) = false
str_eq (a ∷ as') [] = false
str_eq (a ∷ as') (b ∷ bs) = (a == b) && str_eq as' bs

-- The conversion of a `uint64_t` to `int`, which keeps the low 32 bits.
unfoldable pub int_of_uint64 : ℕ → ℤ
int_of_uint64 x =
    let low = x % 2 ^ 32 in if ltb low (2 ^ 31) then pos low else negsuc (2 ^ 32 - low - 1)

abbrev is_zero : ℤ → Bool
is_zero (pos n) = n == 0
is_zero (negsuc n) = false

-- What the four comparisons do with their two fields.
abbrev three_way : ℕ → ℕ → ℤ
three_way a b = if ltb b a then pos 1 else if ltb a b then negsuc 0 else pos 0

module _ {F : Type 0} where
  abbrev pub task_get_cpu : Task F → ℕ
  task_get_cpu t = t.cpu

  abbrev pub task_set_cpu : Task F → ℕ → Task F
  task_set_cpu t cpu = record t { cpu = cpu }

  abbrev pub task_get_runtime : Task F → ℕ
  task_get_runtime t = t.params.runtime

  abbrev pub task_get_des_runtime : Task F → ℕ
  task_get_des_runtime t = t.params.des_runtime

  abbrev pub task_get_accepted_runtime : Task F → ℕ
  task_get_accepted_runtime t = t.acceptedt

  abbrev pub task_set_accepted_runtime : Task F → ℕ → Task F
  task_set_accepted_runtime t runtime = record t { acceptedt = runtime }

  abbrev pub task_get_period : Task F → ℕ
  task_get_period t = t.params.period

  abbrev pub task_get_deadline : Task F → ℕ
  task_get_deadline t = t.params.deadline

  abbrev pub task_get_priority : Task F → ℕ
  task_get_priority t = t.params.priority

  abbrev pub task_get_real_priority : Task F → ℕ
  task_get_real_priority t = t.schedprio

  abbrev pub task_set_real_priority : Task F → ℕ → Task F
  task_set_real_priority t priority = record t { schedprio = priority }

  abbrev pub task_get_ignore_admission : Task F → ℕ
  task_get_ignore_admission t = t.params.ignore_admission

  -- `none` is NULL.
  unfoldable pub task_get_preferred_plugin : Task F → Option (List ℕ)
  unfolding str_eq
  task_get_preferred_plugin t =
      if str_eq t.params.sched_plugin [] then none else some t.params.sched_plugin

  unfoldable pub task_get_min_declared : Task F → ℕ
  task_get_min_declared t =
      if t.params.period == 0
      then t.params.deadline
      else if t.params.deadline == 0
      then t.params.period
      else if ltb t.params.deadline t.params.period
      then t.params.deadline
      else t.params.period

  unfoldable pub task_get_util : Floats F → Task F → F
  task_get_util fl t =
      let min = int_of_uint64 (task_get_min_declared t) in
      if is_zero min || (t.params.runtime == 0)
      then fl.of_int (negsuc 0)
      else fl.div (fl.of_nat t.params.runtime) (fl.of_int min)

  unfoldable pub task_get_des_util : Floats F → Task F → F
  task_get_des_util fl t =
      let min = int_of_uint64 (task_get_min_declared t) in
      if is_zero min || (t.params.des_runtime == 0)
      then fl.of_int (negsuc 0)
      else fl.div (fl.of_nat t.params.des_runtime) (fl.of_int min)

  pub task_cmp_deadline : Task F → Task F → ℤ
  task_cmp_deadline t1 t2 = three_way t1.params.deadline t2.params.deadline

  pub task_cmp_period : Task F → Task F → ℤ
  task_cmp_period t1 t2 = three_way t1.params.period t2.params.period

  pub task_cmp_runtime : Task F → Task F → ℤ
  task_cmp_runtime t1 t2 = three_way t1.params.runtime t2.params.runtime

  pub task_cmp_priority : Task F → Task F → ℤ
  task_cmp_priority t1 t2 = three_way t1.params.priority t2.params.priority

-- `enum PARAM`
pub data Param : Type 0 where
  runtime period deadline priority : Param

-- `ASC` and `DSC`
abbrev pub asc : ℤ
asc = pos 1

abbrev pub dsc : ℤ
dsc = negsuc 0

abbrev is_flag : ℤ → Bool
is_flag (pos n) = n == 1
is_flag (negsuc n) = n == 0

module _ {F : Type 0} where
  pub cmp_field : Param → Task F → Task F → ℤ
  unfolding task_cmp_deadline task_cmp_period task_cmp_runtime task_cmp_priority
  cmp_field period t1 t2 = task_cmp_period t1 t2
  cmp_field runtime t1 t2 = task_cmp_runtime t1 t2
  cmp_field deadline t1 t2 = task_cmp_deadline t1 t2
  cmp_field priority t1 t2 = task_cmp_priority t1 t2

  unfoldable pub task_cmp : Task F → Task F → Param → ℤ → ℤ
  unfolding cmp_field ◌*ℤ◌
  task_cmp t1 t2 p flag = (if is_flag flag then flag else asc) *ℤ cmp_field p t1 t2
