-- ===== src/Tests/Channels.antt =====
-- The channel.
use retif.Common.{ℕ, true, false, [], ◌∷◌, ◌==◌, refl, arith}
use retif.Common.Int.{pos, negsuc}
use retif.Channel.{Carrier, Round, empty, connected}
use retif.Channel.Update.{IsSized, Heard, carrier_update-Heard}

-- The daemon listens on descriptor 0, and a client is on 1.
abbrev carrier : Carrier ℕ
carrier = record {
  sock = record { socket = 0; conn_set_max = 1; conn_set = λ i. i == 1 };
  last_n = pos 0 ∷ pos 8 ∷ [];
  last_req = 0 ∷ 0 ∷ [];
  client = record { state = empty; pid = 0 } ∷ record { state = connected; pid = 10 } ∷ [];
}

-- The client has closed the connection.
abbrev round : Round ℕ
round = record {
  select_fails = false;
  ready = λ i. true;
  accept = negsuc 0;
  has_credentials = λ i. true;
  recv = λ i. pos 0;
  fill = λ i r. r;
}

carrier-IsSized : IsSized carrier
carrier-IsSized = record { last_n = omega arith; last_req = omega arith; client = omega arith }

carrier_update_example : Heard round carrier 1 (record { state = connected; pid = 10 })
carrier_update_example =
    carrier_update-Heard round carrier 1 (record { state = connected; pid = 10 }) carrier-IsSized
      refl (omega arith) (λ e. omega (arith, e)) refl
