-- ===== src/Daemon/Rounds.antt =====
-- daemon/retif_daemon.c, `rtf_daemon_loop`: what holds of the daemon after any number of rounds.
use retif.Common.{true, ℕ, zero, suc, some, List, ◌∷◌, >>=-eq-some, ◌≡◌, sym, subst}
use mathlib.Core.Option.{some-injective}
use retif.Common.Int.{ℤ}
use retif.Floats.{Floats}
use retif.Plugin.{World}
use retif.Scheduler.Placed.{IsPlaced}
use retif.Channel.{Carrier, Round, carrier_update, carrier_get_conn}
use retif.Daemon.{Daemon, Reply, Request, daemon_handle_req, handle_from, daemon_round}
use retif.Daemon.Placed.{respond-Handled}
use retif.Daemon.Requests.{daemon_check_for_fail-without}
use retif.Daemon.Turns.{Turn, gone, idle, served, daemon_handle_req-Turn}

module _ {F : Type 0} where
  -- The replies of the turns of `n` clients from `i` on: in the order of the descriptors, each client
  -- gets one reply or none.
  pub data OneEach : ℕ → ℕ → List (ℕ × Reply F) → List (ℕ × Reply F) → Type 0 where
    finished : {i : ℕ} (sent : List (ℕ × Reply F)) → OneEach i 0 sent sent
    silent :
        {i n : ℕ} {before after : List (ℕ × Reply F)}
        → OneEach (suc i) n before after
        → OneEach i (suc n) before after
    replied :
        {i n : ℕ} {before after : List (ℕ × Reply F)} (rep : Reply F)
        → OneEach (suc i) n ((i, rep) ∷ before) after
        → OneEach i (suc n) before after

module _ {F : Type 0} (fl : Floats F) (send : ℕ → Reply F → ℤ) where
  turn-OneEach :
      (d d' : Daemon F) (w w' : World F) (i n : ℕ) (after : List (ℕ × Reply F))
      → Turn fl send d w i d' w'
      → OneEach (suc i) n d'.sent after
      → OneEach i (suc n) d.sent after
  turn-OneEach d d' w w' i n after (gone c d1 w1 at fails was emptied deleted same) rest =
      silent (subst (λ s. OneEach (suc i) n s after) same rest)
  turn-OneEach d d' w w' i n after (idle c m at at_n fine nothing) rest = silent rest
  turn-OneEach d d' w w' i n after
        (served c req rep d1 d2 w1 at ready new has answered same_sched same_sent cleared marked)
        rest =
      replied rep (subst (λ s. OneEach (suc i) n s after) same_sent rest)

  handle_from-OneEach :
      (n i : ℕ) (d d' : Daemon F) (w w' : World F)
      → handle_from fl send n i d w ≡ some (d', w')
      → OneEach i n d.sent d'.sent
  unfolding handle_from
  handle_from-OneEach zero i d d' w w' run =
      subst (λ (x : Daemon F × World F). OneEach i 0 d.sent x.0.sent) (some-injective _ _ run)
        (finished d.sent)
  handle_from-OneEach (suc n) i d d' w w' run =
      let ((d1, w1), turn, rest) = >>=-eq-some (daemon_handle_req fl send d w i) _ run in
      turn-OneEach d d1 w w1 i n d'.sent (daemon_handle_req-Turn fl send d d1 w w1 i turn)
        (handle_from-OneEach n (suc i) d1 d' w1 w' rest)

  -- In one round of `rtf_daemon_loop` that does not fault, where `chann` is the channel after the update,
  -- each of the descriptors up to the highest one gets at most one reply, in the order of the
  -- descriptors, and no reply that was sent before is taken back.
  pub daemon_round-OneEach :
      (round : Round Request) (d d' : Daemon F) (w w' : World F) (chann : Carrier Request)
      → carrier_update round d.chann ≡ some chann
      → daemon_round fl send round d w ≡ some (d', w')
      → OneEach 0 (suc (carrier_get_conn chann)) d.sent d'.sent
  unfolding daemon_round
  daemon_round-OneEach round d d' w w' chann updated run =
      handle_from-OneEach (suc (carrier_get_conn chann)) 0 (record d { chann = chann }) d' w w'
        (rw (updated, daemon_round) at run)

  turn-IsPlaced :
      (d d' : Daemon F) (w w' : World F) (i : ℕ)
      → IsPlaced d.sched w
      → Turn fl send d w i d' w'
      → IsPlaced d'.sched w'
  turn-IsPlaced d d' w w' i h (gone c d1 w1 at fails was emptied deleted same) =
      (daemon_check_for_fail-without d d1 w w1 i c true h at fails was).3
  turn-IsPlaced d d' w w' i h (idle c m at at_n fine nothing) = h
  turn-IsPlaced d d' w w' i h
        (served c req rep d1 d2 w1 at ready new has answered same_sched same_sent cleared marked) =
      subst (λ s. IsPlaced s w1) (sym same_sched)
        ((respond-Handled fl req.req_type d d1 w w1 i rep answered).placed h)

  handle_from-IsPlaced :
      (n i : ℕ) (d d' : Daemon F) (w w' : World F)
      → IsPlaced d.sched w
      → handle_from fl send n i d w ≡ some (d', w')
      → IsPlaced d'.sched w'
  unfolding handle_from
  handle_from-IsPlaced zero i d d' w w' h run =
      subst (λ (x : Daemon F × World F). IsPlaced x.0.sched x.1) (some-injective _ _ run) h
  handle_from-IsPlaced (suc n) i d d' w w' h run =
      let ((d1, w1), turn, rest) = >>=-eq-some (daemon_handle_req fl send d w i) _ run in
      handle_from-IsPlaced n (suc i) d1 d' w1 w'
        (turn-IsPlaced d d1 w w1 i h (daemon_handle_req-Turn fl send d d1 w w1 i turn)) rest

  pub daemon_round-IsPlaced :
      (round : Round Request) (d d' : Daemon F) (w w' : World F)
      → IsPlaced d.sched w
      → daemon_round fl send round d w ≡ some (d', w')
      → IsPlaced d'.sched w'
  unfolding daemon_round
  daemon_round-IsPlaced round d d' w w' h run =
      let (chann, updated, turns) = >>=-eq-some (carrier_update round d.chann) _ run in
      handle_from-IsPlaced (suc (carrier_get_conn chann)) 0 (record d { chann = chann }) d' w w' h
        turns

module _ {F : Type 0} (fl : Floats F) where
  -- The daemons that rounds lead to, whatever the kernel answers in each of them.
  pub data Reaches (d0 : Daemon F) (w0 : World F) : Daemon F → World F → Type 0 where
    start : Reaches d0 w0 d0 w0
    then_round :
        (send : ℕ → Reply F → ℤ) (round : Round Request) (d d' : Daemon F) (w w' : World F)
        → Reaches d0 w0 d w
        → daemon_round fl send round d w ≡ some (d', w')
        → Reaches d0 w0 d' w'

  -- The scheduler's invariant holds in every state that a daemon reaches by rounds from a state in which
  -- it holds, whatever the clients request in whatever order and whatever sending returns in each round.
  pub reached-IsPlaced :
      (d0 : Daemon F) (w0 : World F) (d : Daemon F) (w : World F)
      → IsPlaced d0.sched w0
      → Reaches d0 w0 d w
      → IsPlaced d.sched w
  reached-IsPlaced d0 w0 d w h start = h
  reached-IsPlaced d0 w0 d w h (then_round send round d1 _ w1 _ before run) =
      daemon_round-IsPlaced fl send round d1 d w1 w (reached-IsPlaced d0 w0 d1 w1 h before) run
