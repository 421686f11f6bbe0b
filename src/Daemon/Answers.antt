-- ===== src/Daemon/Answers.antt =====
-- daemon/retif_daemon.c, `rtf_daemon_handle_req`: a request gets its answer.
use retif.Common.{
  ℕ, ◌<◌, true, some, List, ◌∷◌, length, get_elem?, set, get_elem?-lt, get_elem?_total, ◌≡◌, refl,
  arith, ap, inl, inr, Bool-cases, if◌then◌else◌,
}
use retif.Common.Int.{ℤ, pos, ltb_ℤ}
use retif.Floats.{Floats}
use retif.Plugin.{World, modify_at}
use retif.Channel.{Carrier, connected, error, carrier_set_state, carrier_req_clear}
use retif.Daemon.{
  Daemon, Reply, Request, respond, daemon_check_for_fail, daemon_check_for_update,
  daemon_process_req, daemon_handle_req,
}
use retif.Daemon.Placed.{respond-Handled}

modify_at-total {ℓ} :
    {A : Type ℓ} (xs : List A) (i : ℕ) (f : A → A)
    → i < length xs
    → (ys : List A) × (modify_at xs i f ≡ some ys)
modify_at-total xs i f lt = let (a, at) = get_elem?_total xs i lt in (set xs i (f a), rw at refl)

carrier_req_clear-total :
    (c : Carrier Request) (i : ℕ)
    → i < length c.last_n
    → (c' : Carrier Request) × (carrier_req_clear c i ≡ some c') × (c'.client ≡ c.client)
carrier_req_clear-total c i lt =
    let (ns, did) = modify_at-total c.last_n i (λ _. pos 0) lt in
    (record c { last_n = ns }, rw did refl, refl)

after_send-total :
    (c : Carrier Request) (i : ℕ) (sent : ℤ)
    → i < length c.client
    → (c' : Carrier Request) × ((if ltb_ℤ (pos 0) sent then some c else carrier_set_state c i error)
        ≡ some c')
after_send-total c i sent lt = elim (Bool-cases (ltb_ℤ (pos 0) sent)) [
  | inl well ↦ (c, rw well refl)
  | inr failed ↦
      let (clients, did) =
        modify_at-total c.client i (λ client. record client { state = error }) lt in
      (record c { client = clients }, rw (failed, did) refl)
]

module _ {F : Type 0} (fl : Floats F) (send : ℕ → Reply F → ℤ) where
  handled :
      (d d1 : Daemon F) (w w1 : World F) (cli_id pid n : ℕ) (req : Request) (rep : Reply F)
      (chann chann' : Carrier Request)
      → get_elem? d.chann.client cli_id ≡ some (record { state = connected; pid = pid })
      → get_elem? d.chann.last_n cli_id ≡ some (pos n)
      → ltb_ℤ (pos 0) (pos n) ≡ true
      → get_elem? d.chann.last_req cli_id ≡ some req
      → respond fl req.req_type d w cli_id ≡ some (rep, d1, w1)
      → carrier_req_clear d1.chann cli_id ≡ some chann
      → (if ltb_ℤ (pos 0) (send cli_id rep)
          then some chann
          else carrier_set_state chann cli_id error)
        ≡ some chann'
      → daemon_handle_req fl send d w cli_id
        ≡ some (record d1 { sent = (cli_id, rep) ∷ d1.sent; chann = chann' }, w1)
  unfolding daemon_handle_req daemon_check_for_fail daemon_check_for_update daemon_process_req
  handled d d1 w w1 cli_id pid n req rep chann chann' at at_n new at_req answered cleared marked =
      simp (at, at_n, new, at_req, answered, cleared, marked)

  -- If a client is connected and has sent a request, and its handler does not fault, then
  -- `rtf_daemon_handle_req` does not fault: the handler's reply is sent to that client, the last one of
  -- all, and the scheduler and the world are those that the handler left.
  pub daemon_handle_req-answers :
      (d d1 : Daemon F) (w w1 : World F) (cli_id pid n : ℕ) (req : Request) (rep : Reply F)
      → get_elem? d.chann.client cli_id ≡ some (record { state = connected; pid = pid })
      → get_elem? d.chann.last_n cli_id ≡ some (pos n)
      → 0 < n
      → get_elem? d.chann.last_req cli_id ≡ some req
      → respond fl req.req_type d w cli_id ≡ some (rep, d1, w1)
      → (d' : Daemon F) × (daemon_handle_req fl send d w cli_id ≡ some (d', w1))
        × (d'.sent ≡ (cli_id, rep) ∷ d.sent)
        × (d'.sched ≡ d1.sched)
  daemon_handle_req-answers d d1 w w1 cli_id pid n req rep at at_n positive at_req answered =
      let h = respond-Handled fl req.req_type d d1 w w1 cli_id rep answered in
      let (chann, cleared, client) =
        carrier_req_clear-total d1.chann cli_id
          (omega (arith, get_elem?-lt d.chann.last_n cli_id at_n, ap length h.last_n)) in
      let (chann', marked) =
        after_send-total chann cli_id (send cli_id rep)
          (omega (arith, get_elem?-lt d.chann.client cli_id at, h.clients, ap length client)) in
      let new : ltb_ℤ (pos 0) (pos n) ≡ true = ground arith in
      (
        record d1 { sent = (cli_id, rep) ∷ d1.sent; chann = chann' },
        handled d d1 w w1 cli_id pid n req rep chann chann' at at_n new at_req answered cleared
            marked,
        ap (λ s. (cli_id, rep) ∷ s) h.sent,
        refl,
      )
