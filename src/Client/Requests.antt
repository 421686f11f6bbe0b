-- ===== src/Client/Requests.antt =====
-- lib/retif_lib.c: the requests of a client. Each function returns its result, what it writes for its caller,
-- and the channel.
pub mod Results
use Results.*
use retif.Common.{
  ℕ, ◌+◌, ◌*◌, ◌/◌, ◌%◌, ◌^◌, Bool, true, false, ◌||◌, not, if◌then◌else◌, Option, none, some,
}
use retif.Common.Int.{ℤ, pos, negsuc}
use retif.Floats.{Floats}
use retif.Task.{Params}
use retif.Daemon.{
  Reply, ReplyPayload, Request, ReqType, connection, connections_info, connection_info,
  plugins_info, plugin_info, plugin_cpu_info, tasks_info, task_info, task_create, task_modify,
  task_attach, task_detach, task_destroy,
}
use retif.Client.{
  Access, Payload, Wire, ClientTask, rtf_ok, rtf_fail, rtf_error, is_negative, of_param, request_of,
  access_recv, task_communicate,
}

module _ {F : Type 0} (wire : Wire F) where
  -- `init` and `connected` are what `rtf_access_init` and `rtf_access_connect` return, and `pid` is the
  -- process. The other four bytes of the payload stay as they are.
  unfoldable pub rtf_connect : Access F → (init connected : ℤ) → ℕ → ℤ × Access F
  unfolding access_recv
  rtf_connect c init connected pid =
      let asking = record c { payload = record c.payload { low = pid } } in
      let req = request_of connection asking.payload in
      let (n, heard) = access_recv wire asking req in
      if is_negative init || is_negative connected
      then (rtf_error, c)
      else if is_negative (wire.send req)
      then (rtf_error, asking)
      else if is_negative n
      then (rtf_error, heard)
      else if is_connection_err heard.rep.rep_type
      then (rtf_fail, heard)
      else (rtf_ok, heard)

  -- A request for a number, which is read from the union of the reply.
  abbrev ask_number : Access F → ReqType → ℤ × Access F
  ask_number c req_type =
      let (res, c') = task_communicate wire c req_type in
      if is_negative res then (rtf_error, c') else (as_int wire c'.rep.payload, c')

  unfoldable pub rtf_connections_info : Access F → ℤ × Access F
  unfolding task_communicate
  rtf_connections_info c = ask_number c connections_info

  unfoldable pub rtf_plugins_info : Access F → ℤ × Access F
  unfolding task_communicate
  rtf_plugins_info c = ask_number c plugins_info

  unfoldable pub rtf_tasks_info : Access F → ℤ × Access F
  unfolding task_communicate
  rtf_tasks_info c = ask_number c tasks_info

  -- The payload of the reply is copied out on success.
  unfoldable pub rtf_connection_info : Access F → ℕ → ℤ × Option (ReplyPayload F) × Access F
  unfolding task_communicate
  rtf_connection_info c desc =
      let (res, c') =
        task_communicate wire (record c { payload = record c.payload { high = desc } })
          connection_info in
      if is_negative res || is_connection_info_err c'.rep.rep_type
      then (rtf_error, none, c')
      else (rtf_ok, some c'.rep.payload, c')

  -- The payload of the reply is copied out on success.
  unfoldable pub rtf_task_info : Access F → ℕ → ℤ × Option (ReplyPayload F) × Access F
  unfolding task_communicate
  rtf_task_info c desc =
      let (res, c') =
        task_communicate wire (record c { payload = record c.payload { high = desc } }) task_info in
      if is_negative res || is_task_info_err c'.rep.rep_type
      then (rtf_error, none, c')
      else (rtf_ok, some c'.rep.payload, c')

  -- The payload of the reply is copied out on success.
  unfoldable pub rtf_plugin_info : Access F → ℕ → ℤ × Option (ReplyPayload F) × Access F
  unfolding task_communicate
  rtf_plugin_info c desc =
      let (res, c') =
        task_communicate wire (record c { payload = record c.payload { high = desc } })
          plugin_info in
      if is_negative res || is_plugin_info_err c'.rep.rep_type
      then (rtf_error, none, c')
      else (rtf_ok, some c'.rep.payload, c')

  unfoldable pub rtf_plugin_cpu_info : Access F → ℕ → ℕ → ℤ × Option (ReplyPayload F) × Access F
  unfolding task_communicate
  rtf_plugin_cpu_info c desc cpuid =
      let asking = record c { payload = record c.payload { low = cpuid; high = desc } } in
      let (res, c') = task_communicate wire asking plugin_cpu_info in
      if is_negative res || is_plugin_cpu_info_err c'.rep.rep_type
      then (rtf_error, none, c')
      else (rtf_ok, some c'.rep.payload, c')

  -- `rtf_task_init`, which leaves all but the identifier.
  abbrev pub rtf_task_init : ClientTask → ClientTask
  rtf_task_init t = record t { task_id = 0 }

  -- The response is a `float`, and is converted to an identifier.
  unfoldable pub rtf_task_create :
      Floats F → Access F → ClientTask → Params → ℤ × ClientTask × Access F
  unfolding task_communicate
  rtf_task_create fl c t p =
      let asking = record t { p = p } in
      let (res, c') = task_communicate wire (record c { payload = of_param p }) task_create in
      if is_negative res
      then (rtf_error, asking, c')
      else if is_task_create_err c'.rep.rep_type
      then (rtf_fail, asking, c')
      else (
        rtf_ok,
        record asking { task_id = fl.to_nat (as_float wire c'.rep.payload) % 2 ^ 32 },
        c',
      )

  -- What the other functions for a task return.
  abbrev verdict : ℤ → Bool → ℤ
  verdict res err = if is_negative res then rtf_error else if err then rtf_fail else rtf_ok

  -- The whole payload is the parameters: the identifier of the task is nowhere in the request.
  unfoldable pub rtf_task_change : Access F → ClientTask → Params → ℤ × ClientTask × Access F
  unfolding task_communicate
  rtf_task_change c t p =
      let (res, c') = task_communicate wire (record c { payload = of_param p }) task_modify in
      (verdict res (is_task_modify_err c'.rep.rep_type), record t { p = p }, c')

  unfoldable pub rtf_task_attach : Access F → ClientTask → ℕ → ℤ × Access F
  unfolding task_communicate
  rtf_task_attach c t pid =
      let asking = record c { payload = record c.payload { low = pid; high = t.task_id } } in
      let (res, c') = task_communicate wire asking task_attach in
      (verdict res (is_task_attach_err c'.rep.rep_type), c')

  unfoldable pub rtf_task_detach : Access F → ClientTask → ℤ × Access F
  unfolding task_communicate
  rtf_task_detach c t =
      let asking = record c { payload = record c.payload { high = t.task_id } } in
      let (res, c') = task_communicate wire asking task_detach in
      (verdict res (is_task_detach_err c'.rep.rep_type), c')

  unfoldable pub rtf_task_release : Access F → ClientTask → ℤ × Access F
  unfolding task_communicate
  rtf_task_release c t =
      let asking = record c { payload = record c.payload { high = t.task_id } } in
      let (res, c') = task_communicate wire asking task_destroy in
      (verdict res (is_task_destroy_err c'.rep.rep_type), c')
