-- ===== src/Client/Requests/Results.antt =====
-- lib/retif_lib.c: how the functions of the library read a reply.
use retif.Common.{Bool, true, false}
use retif.Common.Int.{ℤ, pos}
use retif.Daemon.{
  ReplyPayload, RepType, response, nconnected, ntask, nplugin, connection_err, connection_info_err,
  task_info_err, plugin_info_err, plugin_cpu_info_err, task_create_err, task_modify_err,
  task_attach_err, task_detach_err, task_destroy_err,
}
use retif.Client.{Wire}

-- The comparisons of `rep_type`.
abbrev pub is_connection_err : RepType → Bool
is_connection_err connection_err = true
is_connection_err _ = false

abbrev pub is_connection_info_err : RepType → Bool
is_connection_info_err connection_info_err = true
is_connection_info_err _ = false

abbrev pub is_task_info_err : RepType → Bool
is_task_info_err task_info_err = true
is_task_info_err _ = false

abbrev pub is_plugin_info_err : RepType → Bool
is_plugin_info_err plugin_info_err = true
is_plugin_info_err _ = false

abbrev pub is_plugin_cpu_info_err : RepType → Bool
is_plugin_cpu_info_err plugin_cpu_info_err = true
is_plugin_cpu_info_err _ = false

abbrev pub is_task_create_err : RepType → Bool
is_task_create_err task_create_err = true
is_task_create_err _ = false

abbrev pub is_task_modify_err : RepType → Bool
is_task_modify_err task_modify_err = true
is_task_modify_err _ = false

abbrev pub is_task_attach_err : RepType → Bool
is_task_attach_err task_attach_err = true
is_task_attach_err _ = false

abbrev pub is_task_detach_err : RepType → Bool
is_task_detach_err task_detach_err = true
is_task_detach_err _ = false

abbrev pub is_task_destroy_err : RepType → Bool
is_task_destroy_err task_destroy_err = true
is_task_destroy_err _ = false

module _ {F : Type 0} (wire : Wire F) where
  -- The three counts are at the same place of the union.
  unfoldable pub as_int : ReplyPayload F → ℤ
  as_int (nconnected n) = pos n
  as_int (ntask n) = pos n
  as_int (nplugin n) = pos n
  as_int other = wire.raw_int other

  unfoldable pub as_float : ReplyPayload F → F
  as_float (response r) = r
  as_float other = wire.raw_float other
