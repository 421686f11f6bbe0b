-- ===== src/Channel/Update.antt =====
-- channel/retif_channel.c, `rtf_carrier_update`: one round of the channel.
use retif.Common.{
  ℕ, suc, ◌+◌, ◌<◌, ◌≤◌, Bool, true, false, ◌&&◌, some, List, length, get_elem?, ltb, ◌≡◌, ◌≢◌, ◌∙◌,
  refl, arith, inl, inr, Bool-cases,
}
use retif.Common.Int.{ℤ, pos, negsuc}
use retif.Channel.{
  Usocket, usocket_get_maxfd, usocket_recvall, Client, ClientState, Carrier, Round, next_state,
  carrier_update,
}
use retif.Channel.Loops.{step_from-Stepped, clear_from-Cleared}
use retif.Channel.Received.{Noted, closed, bytes, failed, Out, Received, receive_from-Received}
use retif.Channel.States.{Steps, next_state-Steps}

in_reach : (us : Usocket) (n : ℕ) → usocket_get_maxfd us < n → 0 + suc us.conn_set_max ≤ n
in_reach us n h = ground arith

module _ {R : Type 0} where
  -- The arrays reach to the highest descriptor.
  pub record IsSized (c : Carrier R) : Type 0 where
    pub last_n : usocket_get_maxfd c.sock < length c.last_n
    pub last_req : usocket_get_maxfd c.sock < length c.last_req
    pub client : usocket_get_maxfd c.sock < length c.client

module _ {R : Type 0} (round : Round R) where
  -- What a round hears on the descriptor `j`, as the number that it keeps for it: nothing, if the
  -- descriptor is not watched or not ready; the number of bytes; the end of the connection, which is kept
  -- as -1 and takes the descriptor out of the set, unless a new client has just got its number; or an
  -- error of `recv`.
  pub data Hears (us after : Usocket) (j : ℕ) : ℤ → Type 0 where
    quiet : (us.conn_set j && round.ready j) ≡ false → Hears us after j (pos 0)
    beyond : us.conn_set_max < j → Hears us after j (pos 0)
    spoke :
        (n : ℕ)
        → (us.conn_set j && round.ready j) ≡ true
        → round.recv j ≡ pos (suc n)
        → Hears us after j (pos (suc n))
    ended :
        (us.conn_set j && round.ready j) ≡ true
        → round.recv j ≡ pos 0
        → Out round after j
        → Hears us after j (negsuc 0)
    broke :
        (n : ℕ)
        → (us.conn_set j && round.ready j) ≡ true
        → round.recv j ≡ negsuc n
        → Hears us after j (negsuc n)

  Noted-Hears :
      (us after : Usocket) (j : ℕ) (r v : ℤ)
      → (us.conn_set j && round.ready j) ≡ true
      → round.recv j ≡ r
      → Noted r v
      → (r ≡ pos 0 → Out round after j)
      → Hears us after j v
  Noted-Hears us after j _ _ heard is closed out = ended heard is (out refl)
  Noted-Hears us after j _ _ heard is (bytes n) out = spoke n heard is
  Noted-Hears us after j _ _ heard is (failed n) out = broke n heard is

  -- What became of the client on descriptor `j`.
  pub record Heard (c : Carrier R) (j : ℕ) (cl : Client) : Type 0 where
    pub c' : Carrier R
    pub n : ℤ
    pub st : ClientState
    pub returned : carrier_update round c ≡ some c'
    pub number : get_elem? c'.last_n j ≡ some n
    pub hears : Hears c.sock c'.sock j n
    pub client : get_elem? c'.client j ≡ some (record cl { state = st })
    pub steps : Steps cl.state n st

  abbrev watched : Usocket → ℕ → Bool
  watched us i = us.conn_set i && round.ready i

  -- The number of the descriptor `j` after the loop that receives.
  heard_number :
      (us : Usocket) (j : ℕ) (nrecv : List ℤ) (buffers : List R)
      (rec : Received round (watched us) (suc us.conn_set_max) us 0 nrecv buffers)
      → get_elem? nrecv j ≡ some (pos 0)
      → j ≢ us.socket
      → (v : ℤ) × (get_elem? rec.nrecv' j ≡ some v) × Hears us rec.us' j v
  heard_number us j nrecv buffers rec zeroed ne = elim (Bool-cases (watched us j)) [
    | inr silent ↦ (pos 0, rec.silent j silent ∙ zeroed, quiet silent)
    | inl heard ↦ elim (Bool-cases (ltb us.conn_set_max j)) [
      | inl above ↦
          let past : us.conn_set_max < j = ground arith in
          (pos 0, rec.outside j (inr (omega (arith, past))) ∙ zeroed, beyond past)
      | inr not_above ↦
          let below : j < 0 + suc us.conn_set_max = ground arith in
          let (v, noted, at) = rec.noted j (omega arith) below ne heard in
          (
            v,
            at,
            Noted-Hears us rec.us' j (round.recv j) v heard refl noted
                (rec.removed j (omega arith) below ne heard),
          )
    ]
  ]

  -- If the arrays reach to the highest descriptor and `select` does not fail, `rtf_carrier_update`
  -- does not fault, whatever else the kernel answers. For a client that is not the listening socket it
  -- keeps what `recv` gave in this round for its own descriptor, the end of the connection as -1, and 0
  -- if nothing was to be received; the client goes to a state to which the state machine lets it go by
  -- that number, and nothing else of it changes.
  pub carrier_update-Heard :
      (c : Carrier R) (j : ℕ) (cl : Client)
      → IsSized c
      → round.select_fails ≡ false
      → j ≤ usocket_get_maxfd c.sock
      → j ≢ c.sock.socket
      → get_elem? c.client j ≡ some cl
      → Heard c j cl
  unfolding carrier_update usocket_recvall
  carrier_update-Heard c j cl h hears le ne got =
      let n = usocket_get_maxfd c.sock in
      let zeros = clear_from-Cleared (suc n) 0 c.last_n (omega (arith, h.last_n)) in
      let rec =
        receive_from-Received round (watched c.sock) (suc c.sock.conn_set_max) c.sock 0 zeros.after
          c.last_req (in_reach c.sock (length zeros.after) (omega (arith, h.last_n, zeros.as_many)))
          (in_reach c.sock (length c.last_req) h.last_req) in
      let steps =
        step_from-Stepped rec.us'.socket (suc n) 0 rec.nrecv' c.client
          (omega (arith, h.last_n, zeros.as_many, rec.as_many)) (omega (arith, h.client)) in
      let (v, at, heard) =
        heard_number c.sock j zeros.after c.last_req rec
          (zeros.zeroed j (omega arith) (omega (arith, le))) ne in
      record {
        c' = record c {
          sock = rec.us';
          last_n = rec.nrecv';
          last_req = rec.buffers';
          client = steps.after;
        };
        n = v;
        st = next_state cl.state v;
        returned =
            simp
              (zeros.returned, hears, rec.returned, steps.returned, carrier_update, usocket_recvall)
              refl;
        number = at;
        hears = heard;
        client =
            steps.inside j cl v (omega arith) (omega (arith, le)) (λ e. ne (e ∙ rec.socket)) got at;
        steps = next_state-Steps cl.state v;
      }
