-- ===== src/Daemon/Messages.antt =====
-- common/retif_types.h: the requests of the clients and the replies of the daemon.
use retif.Common.{ℕ, List}
use retif.Common.Int.{ℤ}
use retif.Task.{Params}
use retif.Channel.{ClientState}

-- The request types that the daemon has a case for; `other` is any other value.
pub data ReqType : Type 0 where
  connection connections_info connection_info plugins_info plugin_info plugin_cpu_info : ReqType
  tasks_info task_info task_create task_modify task_attach task_detach task_destroy other : ReqType

-- The payload is a union: the fields behind `req_type` are its views as `q`, `ids` and `param`. No
-- connection between the views is stated, since it is up to the compiler. Identifiers of processes
-- are the unsigned numbers of their bits.
pub record Request : Type 0 where
  pub req_type : ReqType
  pub q_id : ℤ
  pub q_desc : ℤ
  pub ids_pid : ℕ
  pub ids_rsvid : ℕ
  pub param : Params

pub data RepType : Type 0 where
  request_err connection_ok connection_err connections_info_ok connection_info_ok
        connection_info_err :
      RepType
  plugins_info_ok plugin_info_ok plugin_info_err plugin_cpu_info_ok plugin_cpu_info_err : RepType
  tasks_info_ok task_info_ok task_info_err task_create_ok task_create_part task_create_err : RepType
  task_modify_ok task_modify_part task_modify_err task_attach_ok task_attach_err : RepType
  task_detach_ok task_detach_err task_destroy_ok task_destroy_err : RepType

-- What is written into the union of a reply; `unset` leaves what was on the stack.
pub data ReplyPayload (F : Type 0) : Type 0 where
  unset : ReplyPayload F
  response : F → ReplyPayload F
  nconnected ntask nplugin : ℕ → ReplyPayload F
  of_client : (pid : ℕ) (state : ClientState) → ReplyPayload F
  of_task : (tid ppid : ℕ) (priority period pluginid : ℤ) → ReplyPayload F
  of_plugin : (name : List ℕ) (cputot : ℕ) → ReplyPayload F
  of_cpu : (cpunum : ℕ) (freeu : F) (ntask : ℤ) → ReplyPayload F

pub record Reply (F : Type 0) : Type 0 where
  pub rep_type : RepType
  pub payload : ReplyPayload F
