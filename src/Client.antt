-- ===== src/Client.antt =====
-- lib/retif_lib.c, lib/retif.h: the library of the clients, which sends requests to the daemon and reads its
-- replies. `Requests` has one function for each function of the library that talks to the daemon.
mod Types
pub mod Requests
pub mod Doubles
pub mod Periods
pub mod Creation
pub mod Change
unfoldable pub use Types.*
use retif.Common.{
  ℕ, zero, suc, ◌+◌, ◌*◌, ◌/◌, ◌%◌, ◌^◌, Bool, true, false, not, List, take, if◌then◌else◌, ◌==◌,
}
use retif.Common.Int.{ℤ, pos, negsuc}
use retif.Task.{Params}
use retif.Time.{Timespec, time_add_ms}
use retif.Daemon.{Reply, Request, ReqType}

-- The setters and getters of `struct rtf_params`.
abbrev pub params_set_runtime : Params → ℕ → Params
params_set_runtime p runtime = record p { runtime = runtime }

abbrev pub params_get_runtime : Params → ℕ
params_get_runtime p = p.runtime

-- The functions for the desired runtime set and get the other runtime.
abbrev pub params_set_des_runtime : Params → ℕ → Params
params_set_des_runtime p runtime = record p { runtime = runtime }

abbrev pub params_get_des_runtime : Params → ℕ
params_get_des_runtime p = p.runtime

abbrev pub params_set_period : Params → ℕ → Params
params_set_period p period = record p { period = period }

abbrev pub params_get_period : Params → ℕ
params_get_period p = p.period

abbrev pub params_set_deadline : Params → ℕ → Params
params_set_deadline p deadline = record p { deadline = deadline }

abbrev pub params_get_deadline : Params → ℕ
params_get_deadline p = p.deadline

abbrev pub params_set_priority : Params → ℕ → Params
params_set_priority p priority = record p { priority = priority }

abbrev pub params_get_priority : Params → ℕ
params_get_priority p = p.priority

-- `strncpy` with PLUGIN_MAX_NAME.
abbrev pub params_set_scheduler : Params → List ℕ → Params
params_set_scheduler p sched_plugin = record p { sched_plugin = take 32 sched_plugin }

abbrev pub params_get_scheduler : Params → List ℕ
params_get_scheduler p = take 32 p.sched_plugin

abbrev pub params_ignore_admission : Params → ℕ → Params
params_ignore_admission p ignore_admission = record p { ignore_admission = ignore_admission }

module _ {F : Type 0} (wire : Wire F) where
  -- `rtf_access_recv`: a reply is written only if bytes came.
  unfoldable pub access_recv : Access F → Request → ℤ × Access F
  access_recv c req =
      let (n, rep) = wire.recv req in (n, if is_positive n then record c { rep = rep } else c)

  -- The lock is held around both calls. Nothing tells the end of the connection, 0, from a reply.
  unfoldable pub task_communicate : Access F → ReqType → ℤ × Access F
  unfolding access_recv
  task_communicate c req_type =
      let req = request_of req_type c.payload in
      let (n, c') = access_recv c req in
      if is_error (wire.send req)
      then (rtf_error, c)
      else if is_error n
      then (rtf_error, c')
      else (rtf_ok, c')
