-- ===== src/Channel/States.antt =====
-- channel/retif_channel.c, the states of a client.
use retif.Common.{true, false, ◌≡◌, inl, inr, Bool-cases}
use retif.Common.Int.{ℤ, pos, ltb_ℤ}
use retif.Channel.{ClientState, empty, connected, disconnected, error, next_state}

-- How a client comes from one state to the next when `recv` gave the number `n` for it: above zero the
-- bytes of a request, zero nothing, below zero the end of the connection or an error.
pub data Steps : ClientState → ℤ → ClientState → Type 0 where
  stays_empty : (n : ℤ) → ltb_ℤ n (pos 0) ≡ false → ltb_ℤ (pos 0) n ≡ false → Steps empty n empty
  joins : (n : ℤ) → ltb_ℤ (pos 0) n ≡ true → Steps empty n connected
  stays_connected : (n : ℤ) → ltb_ℤ n (pos 0) ≡ false → Steps connected n connected
  leaves : (st : ClientState) (n : ℤ) → ltb_ℤ n (pos 0) ≡ true → Steps st n disconnected
  disconnected_speaks : (n : ℤ) → ltb_ℤ n (pos 0) ≡ false → Steps disconnected n error
  stays_failed : (n : ℤ) → ltb_ℤ n (pos 0) ≡ false → Steps error n error

-- The next state that `rtf_carrier_update` gives to a client is always one that the state machine
-- allows.
pub next_state-Steps : (st : ClientState) (n : ℤ) → Steps st n (next_state st n)
unfolding next_state
next_state-Steps empty n = elim (Bool-cases (ltb_ℤ n (pos 0))) [
  | inl below ↦ elim (Bool-cases (ltb_ℤ (pos 0) n)) [
    | inl above ↦ rw (below, above, next_state) (joins n above)
    | inr not_above ↦ rw (below, not_above, next_state) (leaves empty n below)
  ]
  | inr not_below ↦ elim (Bool-cases (ltb_ℤ (pos 0) n)) [
    | inl above ↦ rw (not_below, above, next_state) (joins n above)
    | inr not_above ↦ rw (not_below, not_above, next_state) (stays_empty n not_below not_above)
  ]
]
next_state-Steps connected n = elim (Bool-cases (ltb_ℤ n (pos 0))) [
  | inl below ↦ rw (below, next_state) (leaves connected n below)
  | inr not_below ↦ rw (not_below, next_state) (stays_connected n not_below)
]
next_state-Steps disconnected n = elim (Bool-cases (ltb_ℤ n (pos 0))) [
  | inl below ↦ rw (below, next_state) (leaves disconnected n below)
  | inr not_below ↦ rw (not_below, next_state) (disconnected_speaks n not_below)
]
next_state-Steps error n = elim (Bool-cases (ltb_ℤ n (pos 0))) [
  | inl below ↦ rw (below, next_state) (leaves error n below)
  | inr not_below ↦ rw (not_below, next_state) (stays_failed n not_below)
]
