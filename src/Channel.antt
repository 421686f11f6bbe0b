-- ===== src/Channel.antt =====
-- channel/retif_channel.c: the daemon's side of the channel, `struct rtf_carrier`.
-- An access past the end of one of the arrays, of CHANNEL_MAX_SIZE entries each, is a fault.
mod Sockets
pub mod Loops
pub mod Received
pub mod States
pub mod Update
unfoldable pub use Sockets.*
use retif.Common.{
  ℕ, zero, suc, ◌+◌, Bool, true, false, ◌&&◌, not, Option, some, List, ltb, ◌==◌, set, get_elem?,
  if◌then◌else◌, ◌>>=◌,
}
use retif.Common.Int.{ℤ, pos, ltb_ℤ}
use retif.Plugin.{modify_at}

pub data ClientState : Type 0 where
  empty connected disconnected error : ClientState

abbrev pub is_empty : ClientState → Bool
is_empty empty = true
is_empty connected = false
is_empty disconnected = false
is_empty error = false

abbrev pub is_connected : ClientState → Bool
is_connected empty = false
is_connected connected = true
is_connected disconnected = false
is_connected error = false

pub record Client : Type 0 where
  pub state : ClientState
  pub pid : ℕ

pub record Carrier (R : Type 0) : Type 0 where
  pub sock : Usocket
  pub last_n : List ℤ
  pub last_req : List R
  pub client : List Client

-- The cases of `rtf_carrier_update` for a client whose `last_n` is `n`.
unfoldable pub next_state : ClientState → ℤ → ClientState
next_state st n =
    if is_empty st && not (ltb_ℤ n (pos 0)) && not (ltb_ℤ (pos 0) n)
    then st
    else if is_empty st && ltb_ℤ (pos 0) n
    then connected
    else if is_connected st && not (ltb_ℤ n (pos 0))
    then st
    else if ltb_ℤ n (pos 0)
    then disconnected
    else error

-- `memset(last_n, 0, sizeof(int) * count)`, from `i` on.
pub clear_from : ℕ → ℕ → List ℤ → Option (List ℤ)
clear_from zero i last_n = some last_n
clear_from (suc count) i last_n =
    modify_at last_n i (λ _. pos 0) >>= λ cleared. clear_from count (suc i) cleared

-- The loop of `rtf_carrier_update`, over `count` descriptors from `i` on.
pub step_from : ℕ → ℕ → List ℤ → ℕ → List Client → Option (List Client)
unfolding next_state
step_from socket zero last_n i client = some client
step_from socket (suc count) last_n i client =
    if i == socket
    then step_from socket count last_n (suc i) client
    else (get_elem? last_n i >>= λ n.
        modify_at client i (λ c. record c { state = next_state c.state n }) >>= λ client'.
        step_from socket count last_n (suc i) client')

module _ {R : Type 0} where
  unfoldable pub carrier_update : Round R → Carrier R → Option (Carrier R)
  unfolding clear_from step_from usocket_recvall
  carrier_update round c =
      let n = usocket_get_maxfd c.sock in
      clear_from (suc n) 0 c.last_n >>= λ cleared.
      usocket_recvall round c.sock cleared c.last_req >>= λ (received, sock, last_n, last_req).
      let heard : Carrier R = record c { sock = sock; last_n = last_n; last_req = last_req } in
      if received
      then (step_from sock.socket (suc n) last_n 0 c.client >>= λ client.
          some (record heard { client = client }))
      else some heard

  abbrev pub carrier_get_conn : Carrier R → ℕ
  carrier_get_conn c = usocket_get_maxfd c.sock

  abbrev pub carrier_get_req : Carrier R → ℕ → Option R
  carrier_get_req c cli_id = get_elem? c.last_req cli_id

  abbrev pub carrier_is_updated : Carrier R → ℕ → Option Bool
  carrier_is_updated c cli_id = get_elem? c.last_n cli_id >>= λ n. some (ltb_ℤ (pos 0) n)

  abbrev pub carrier_req_clear : Carrier R → ℕ → Option (Carrier R)
  carrier_req_clear c cli_id =
      modify_at c.last_n cli_id (λ _. pos 0) >>= λ last_n. some (record c { last_n = last_n })

  abbrev pub carrier_get_state : Carrier R → ℕ → Option ClientState
  carrier_get_state c cli_id = get_elem? c.client cli_id >>= λ client. some client.state

  abbrev pub carrier_set_state : Carrier R → ℕ → ClientState → Option (Carrier R)
  carrier_set_state c cli_id s =
      modify_at c.client cli_id (λ client. record client { state = s }) >>= λ clients.
      some (record c { client = clients })

  abbrev pub carrier_get_pid : Carrier R → ℕ → Option ℕ
  carrier_get_pid c cli_id = get_elem? c.client cli_id >>= λ client. some client.pid

  abbrev pub carrier_set_pid : Carrier R → ℕ → ℕ → Option (Carrier R)
  carrier_set_pid c cli_id pid =
      modify_at c.client cli_id (λ client. record client { pid = pid }) >>= λ clients.
      some (record c { client = clients })

  abbrev pub carrier_close : Carrier R → ℕ → Carrier R
  carrier_close c cli_id = record c { sock = usocket_remove_connection c.sock cli_id }
