-- ===== src/Client/Types.antt =====
-- lib/retif.h, and the client's side of common/retif_types.h and channel/retif_channel.h.
use retif.Common.{ℕ, ◌+◌, ◌*◌, ◌/◌, ◌%◌, ◌^◌, Bool, true, false, ltb, ◌==◌}
use retif.Common.Int.{ℤ, pos, negsuc}
use retif.Task.{Params, int_of_uint64}
use retif.Time.{Timespec}
use retif.Daemon.{Reply, ReplyPayload, Request, ReqType}

abbrev pub rtf_ok : ℤ
rtf_ok = pos 1

abbrev pub rtf_fail : ℤ
rtf_fail = pos 0

abbrev pub rtf_error : ℤ
rtf_error = negsuc 0

abbrev pub is_error : ℤ → Bool
is_error (pos n) = false
is_error (negsuc n) = n == 0

abbrev pub is_negative : ℤ → Bool
is_negative (pos n) = false
is_negative (negsuc n) = true

abbrev pub is_positive : ℤ → Bool
is_positive (pos n) = ltb 0 n
is_positive (negsuc n) = false

-- The union of a request on a little-endian machine: its first eight bytes are two numbers of 32 bits, as
-- which `q` and `ids` see them, and the runtime of `param`; the other fields of `param` are behind them,
-- and the runtime in `others` is not used.
pub record Payload : Type 0 where
  pub low : ℕ
  pub high : ℕ
  pub others : Params

-- The request that the daemon gets.
unfoldable pub request_of : ReqType → Payload → Request
request_of req_type p = record {
  req_type = req_type;
  q_id = int_of_uint64 p.low;
  q_desc = int_of_uint64 p.high;
  ids_pid = p.low;
  ids_rsvid = p.high;
  param = record p.others { runtime = p.low + 2 ^ 32 * p.high };
}

abbrev pub of_param : Params → Payload
of_param p = record { low = p.runtime % 2 ^ 32; high = p.runtime / 2 ^ 32 % 2 ^ 32; others = p }

-- `struct rtf_access` without its socket.
pub record Access (F : Type 0) : Type 0 where
  pub payload : Payload
  pub rep : Reply F

-- The calls on the socket, a parameter: what sending a request returns, and what receiving returns after
-- it, with the reply; and the views of the union of a reply that were not written by the daemon.
pub record Wire (F : Type 0) : Type 0 where
  pub send : Request → ℤ
  pub recv : Request → ℤ × Reply F
  pub raw_int : ReplyPayload F → ℤ
  pub raw_float : ReplyPayload F → F

-- `struct rtf_task`; its channel is the only one of the process.
pub record ClientTask : Type 0 where
  pub task_id : ℕ
  pub dmiss : ℕ
  pub acc_runtime : ℕ
  pub p : Params
  pub at : Timespec
  pub dl : Timespec
