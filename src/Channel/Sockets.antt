-- ===== src/Channel/Sockets.antt =====
-- channel/usocket.c, the server side: the set of descriptors that the daemon listens to.
-- What the kernel does in a round is a parameter, `Round`.
use retif.Common.{
  ℕ, zero, suc, Bool, true, false, ◌&&◌, Option, some, List, ltb, ◌==◌, if◌then◌else◌, ◌>>=◌,
}
use retif.Common.Int.{ℤ, pos, negsuc}
use retif.Plugin.{modify_at}

-- `struct usocket`; an `fd_set` is the test that FD_ISSET makes.
pub record Usocket : Type 0 where
  pub socket : ℕ
  pub conn_set_max : ℕ
  pub conn_set : ℕ → Bool

-- The answers of a round: does `select` fail, which descriptors does it leave in its set, what do
-- `accept` and `recv` return, are the credentials of a descriptor to be had, and what does `recv` make
-- of the buffer that it is passed.
pub record Round (R : Type 0) : Type 0 where
  pub select_fails : Bool
  pub ready : ℕ → Bool
  pub accept : ℤ
  pub has_credentials : ℕ → Bool
  pub recv : ℕ → ℤ
  pub fill : ℕ → R → R

-- FD_SET and FD_CLR
abbrev pub fd_put : (ℕ → Bool) → ℕ → Bool → ℕ → Bool
fd_put s fd member i = if fd == i then member else s i

abbrev pub max : ℕ → ℕ → ℕ
max a b = if ltb b a then a else b

abbrev pub usocket_get_maxfd : Usocket → ℕ
usocket_get_maxfd us = max us.conn_set_max us.socket

abbrev pub usocket_prepare_recv : Usocket → Usocket
usocket_prepare_recv us = record us {
  conn_set = fd_put (λ i. false) us.socket true;
  conn_set_max = us.socket;
}

abbrev pub usocket_remove_connection : Usocket → ℕ → Usocket
usocket_remove_connection us fd = record us { conn_set = fd_put us.conn_set fd false }

module _ {R : Type 0} (round : Round R) where
  -- The number of the new descriptor, or -1.
  abbrev pub usocket_join : Usocket → ℤ → ℤ × Usocket
  usocket_join us (negsuc n) = (negsuc 0, us)
  usocket_join us (pos newfd) =
      if round.has_credentials newfd
      then (
        pos newfd,
        record us {
          conn_set = fd_put us.conn_set newfd true;
          conn_set_max = max us.conn_set_max newfd;
        },
      )
      else (negsuc 0, us)

  abbrev pub usocket_add_connections : Usocket → ℤ × Usocket
  usocket_add_connections us = usocket_join us round.accept

  -- What the loop of `usocket_recvall` does with `recv`'s result for the descriptor `i`.
  abbrev pub note_received : Usocket → ℕ → ℤ → ℤ × Usocket
  note_received us i (pos zero) = (negsuc 0, usocket_remove_connection us i)
  note_received us i (pos (suc n)) = (pos (suc n), us)
  note_received us i (negsuc n) = (negsuc n, us)

  abbrev pub receive_one :
      (ℕ → Bool) → Usocket → ℕ → List ℤ → List R → Option (Usocket × List ℤ × List R)
  receive_one temp us i nrecv buffers =
      if temp i
      then (if i == us.socket
          then (let (n, us') = usocket_add_connections us in
              modify_at nrecv i (λ _. n) >>= λ nrecv'. some (us', nrecv', buffers))
          else (let (n, us') = note_received us i (round.recv i) in
              modify_at buffers i (round.fill i) >>= λ buffers'.
              modify_at nrecv i (λ _. n) >>= λ nrecv'. some (us', nrecv', buffers')))
      else some (us, nrecv, buffers)

  -- The loop, over `count` descriptors from `i` on. Descriptors that join are not in `temp`.
  unfoldable pub receive_from :
      (ℕ → Bool) → ℕ → Usocket → ℕ → List ℤ → List R → Option (Usocket × List ℤ × List R)
  receive_from temp zero us i nrecv buffers = some (us, nrecv, buffers)
  receive_from temp (suc count) us i nrecv buffers =
      receive_one temp us i nrecv buffers >>= λ (us', nrecv', buffers').
      receive_from temp count us' (suc i) nrecv' buffers'

  -- The first component: did `select` not fail?
  unfoldable pub usocket_recvall :
      Usocket → List ℤ → List R → Option (Bool × Usocket × List ℤ × List R)
  unfolding receive_from
  usocket_recvall us nrecv buffers =
      if round.select_fails
      then some (false, us, nrecv, buffers)
      else (receive_from (λ i. us.conn_set i && round.ready i) (suc us.conn_set_max) us 0 nrecv
            buffers
          >>= λ (us', nrecv', buffers'). some (true, us', nrecv', buffers'))
