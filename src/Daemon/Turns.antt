-- ===== src/Daemon/Turns.antt =====
-- daemon/retif_daemon.c, `rtf_daemon_handle_req`: what one client gets when its turn comes.
use retif.Common.{
  ℕ, Bool, true, false, Option, some, List, ◌∷◌, get_elem?, get_elem?-lt, get_elem?-set_self,
  >>=-eq-some, ◌≡◌, refl, sym, ap, ap₂, ◌∙◌, subst, arith, inl, inr, Bool-cases, not, if◌then◌else◌,
  ◌&&◌, ◌>>=◌,
}
use mathlib.Core.Option.{some-injective}
use retif.Common.Int.{ℤ, pos, ltb_ℤ}
use retif.Floats.{Floats}
use retif.Plugin.{World, modify_at}
use retif.Scheduler.{scheduler_delete}
use retif.Channel.{
  Carrier, Client, ClientState, empty, error, is_connected, carrier_get_req, carrier_get_state,
  carrier_set_state, carrier_req_clear, carrier_get_pid, carrier_set_pid, carrier_is_updated,
}
use retif.Daemon.Placed.{respond-Handled}
use retif.Daemon.{
  Daemon, Reply, Request, respond, is_failed, daemon_check_for_fail, daemon_check_for_update,
  daemon_process_req, daemon_handle_req,
}

modify_at_self {ℓ} :
    {A : Type ℓ} (xs ys : List A) (i : ℕ) (f : A → A)
    → modify_at xs i f ≡ some ys
    → (x : A) × (get_elem? xs i ≡ some x) × (get_elem? ys i ≡ some (f x))
modify_at_self xs ys i f run =
    let (x, at, rest) = >>=-eq-some (get_elem? xs i) _ run in
    (
      x,
      at,
      ap (λ zs. get_elem? zs i) (sym (some-injective _ _ rest))
          ∙ get_elem?-set_self xs i (f x) (get_elem?-lt xs i at),
    )

carrier_req_clear-kept :
    (chann chann' : Carrier Request) (cli_id : ℕ)
    → carrier_req_clear chann cli_id ≡ some chann'
    → (get_elem? chann'.last_n cli_id ≡ some (pos 0)) × (chann'.client ≡ chann.client)
carrier_req_clear-kept chann chann' cli_id run =
    let (last_n, did, is) = >>=-eq-some (modify_at chann.last_n cli_id (λ _. pos 0)) _ run in
    let (was, at, now) = modify_at_self chann.last_n last_n cli_id (λ _. pos 0) did in
    subst
      (λ (x : Carrier Request).
        (get_elem? x.last_n cli_id ≡ some (pos 0)) × (x.client ≡ chann.client))
      (some-injective _ _ is) (now, refl)

carrier_set_state-at :
    (chann chann' : Carrier Request) (cli_id : ℕ) (s : ClientState) (c : Client)
    → get_elem? chann.client cli_id ≡ some c
    → carrier_set_state chann cli_id s ≡ some chann'
    → get_elem? chann'.client cli_id ≡ some (record c { state = s })
carrier_set_state-at chann chann' cli_id s c at run =
    let (clients, did, is) =
      >>=-eq-some (modify_at chann.client cli_id (λ client. record client { state = s })) _ run in
    let (was, there, now) =
      modify_at_self chann.client clients cli_id (λ client. record client { state = s }) did in
    ap (λ (x : Carrier Request). get_elem? x.client cli_id) (sym (some-injective _ _ is))
    ∙ now
    ∙ ap (λ (client : Client). some (record client { state = s }))
        (some-injective _ _ (sym there ∙ at))

carrier_set_pid-at :
    (chann chann' : Carrier Request) (cli_id pid : ℕ) (c : Client)
    → get_elem? chann.client cli_id ≡ some c
    → carrier_set_pid chann cli_id pid ≡ some chann'
    → get_elem? chann'.client cli_id ≡ some (record c { pid = pid })
carrier_set_pid-at chann chann' cli_id pid c at run =
    let (clients, did, is) =
      >>=-eq-some (modify_at chann.client cli_id (λ client. record client { pid = pid })) _ run in
    let (was, there, now) =
      modify_at_self chann.client clients cli_id (λ client. record client { pid = pid }) did in
    ap (λ (x : Carrier Request). get_elem? x.client cli_id) (sym (some-injective _ _ is))
    ∙ now
    ∙ ap (λ (client : Client). some (record client { pid = pid }))
        (some-injective _ _ (sym there ∙ at))

-- The state of the client after an answer of `send`.
marked-kept :
    (chann chann' : Carrier Request) (cli_id : ℕ) (sent : ℤ)
    → (if ltb_ℤ (pos 0) sent then some chann else carrier_set_state chann cli_id error)
      ≡ some chann'
    → (chann'.last_n ≡ chann.last_n)
      × (carrier_get_state chann' cli_id
          ≡ (if ltb_ℤ (pos 0) sent then carrier_get_state chann cli_id else some error))
marked-kept chann chann' cli_id sent run = elim (Bool-cases (ltb_ℤ (pos 0) sent)) [
  | inl well ↦
      let is = some-injective _ _ (rw well at run) in
      rw well (
        ap (λ (x : Carrier Request). x.last_n) (sym is),
        ap (λ x. carrier_get_state x cli_id) (sym is),
      )
  | inr failed ↦
      let (clients, did, is) =
        >>=-eq-some (modify_at chann.client cli_id (λ c. record c { state = error })) _
          (rw failed at run) in
      let (before, at, now) =
        modify_at_self chann.client clients cli_id (λ c. record c { state = error }) did in
      rw failed (
        subst
          (λ (x : Carrier Request).
            (x.last_n ≡ chann.last_n) × (carrier_get_state x cli_id ≡ some error))
          (some-injective _ _ is) (refl, ap (λ c. c >>= λ client. some client.state) now))
]

module _ {F : Type 0} where
  -- The check for a failure that finds none leaves all as it is.
  data Checked (d : Daemon F) (w : World F) (cli_id : ℕ) : Bool → Daemon F → World F → Type 0 where
    well :
        (c : Client)
        → get_elem? d.chann.client cli_id ≡ some c
        → is_failed c.state ≡ false
        → Checked d w cli_id false d w
    removed :
        (c : Client) (d' : Daemon F) (w' : World F)
        → get_elem? d.chann.client cli_id ≡ some c
        → is_failed c.state ≡ true
        → get_elem? d'.chann.client cli_id ≡ some (record { state = empty; pid = 0 })
        → scheduler_delete d.sched w c.pid ≡ some (d'.sched, w')
        → d'.sent ≡ d.sent
        → Checked d w cli_id true d' w'

  daemon_check_for_fail-Checked :
      (d d' : Daemon F) (w w' : World F) (cli_id : ℕ) (failed : Bool)
      → daemon_check_for_fail d w cli_id ≡ some (failed, d', w')
      → Checked d w cli_id failed d' w'
  unfolding daemon_check_for_fail
  daemon_check_for_fail-Checked d d' w w' cli_id failed run =
      let (st, state, run1) = >>=-eq-some (carrier_get_state d.chann cli_id) _ run in
      let (c, at, is) = >>=-eq-some (get_elem? d.chann.client cli_id) _ state in
      let st_is = some-injective _ _ is in
      elim (Bool-cases (is_failed st)) [
        | inl fails ↦
            let run2 = rw fails at run1 in
            let (chann, emptied, run3) =
              >>=-eq-some (carrier_set_state d.chann cli_id empty) _ run2 in
            let (pid, owner, run4) = >>=-eq-some (carrier_get_pid chann cli_id) _ run3 in
            let ((sched, w1), deleted, run5) =
              >>=-eq-some (scheduler_delete d.sched w pid) _ run4 in
            let (chann', cleared, run6) = >>=-eq-some (carrier_set_pid chann cli_id 0) _ run5 in
            subst (λ (x : Bool × Daemon F × World F). Checked d w cli_id x.0 x.1 x.2)
              (some-injective _ _ run6)
              (removed c _ _ at (ap is_failed st_is ∙ fails)
                (carrier_set_pid-at chann chann' cli_id 0 _
                  (carrier_set_state-at d.chann chann cli_id empty c at emptied) cleared)
                (ap (λ p. scheduler_delete d.sched w p)
                    (some-injective _ _ (
                      sym (
                        ap (λ r. r >>= λ (client : Client). some client.pid)
                          (carrier_set_state-at d.chann chann cli_id empty c at emptied))
                      ∙ owner))
                  ∙ deleted)
                refl)
        | inr fine ↦
            subst (λ (x : Bool × Daemon F × World F). Checked d w cli_id x.0 x.1 x.2)
              (some-injective _ _ (rw fine at run1)) (well c at (ap is_failed st_is ∙ fine))
      ]

  module _ (fl : Floats F) (send : ℕ → Reply F → ℤ) where
    -- The turn of a client: it is gone, its tasks are deleted and its entry is emptied without a reply; or
    -- it has no request, and nothing changes; or its request is answered by one reply on top of those
    -- sent before, the request is taken as read, and the client is in the state of an error if sending
    -- failed.
    pub data Turn (d : Daemon F) (w : World F) (cli_id : ℕ) : Daemon F → World F → Type 0 where
      gone :
          (c : Client) (d' : Daemon F) (w' : World F)
          → get_elem? d.chann.client cli_id ≡ some c
          → is_failed c.state ≡ true
          → daemon_check_for_fail d w cli_id ≡ some (true, d', w')
          → get_elem? d'.chann.client cli_id ≡ some (record { state = empty; pid = 0 })
          → scheduler_delete d.sched w c.pid ≡ some (d'.sched, w')
          → d'.sent ≡ d.sent
          → Turn d w cli_id d' w'
      idle :
          (c : Client) (n : ℤ)
          → get_elem? d.chann.client cli_id ≡ some c
          → get_elem? d.chann.last_n cli_id ≡ some n
          → is_failed c.state ≡ false
          → is_connected c.state && ltb_ℤ (pos 0) n ≡ false
          → Turn d w cli_id d w
      served :
          (c : Client) (req : Request) (rep : Reply F) (d1 d' : Daemon F) (w' : World F)
          → get_elem? d.chann.client cli_id ≡ some c
          → is_connected c.state ≡ true
          → ((n : ℤ) × (get_elem? d.chann.last_n cli_id ≡ some n) × (ltb_ℤ (pos 0) n ≡ true))
          → get_elem? d.chann.last_req cli_id ≡ some req
          → respond fl req.req_type d w cli_id ≡ some (rep, d1, w')
          → d'.sched ≡ d1.sched
          → d'.sent ≡ (cli_id, rep) ∷ d.sent
          → get_elem? d'.chann.last_n cli_id ≡ some (pos 0)
          → carrier_get_state d'.chann cli_id ≡ (
              if ltb_ℤ (pos 0) (send cli_id rep)
              then carrier_get_state d1.chann cli_id
              else some error)
          → Turn d w cli_id d' w'

    -- The reply to the request of a client, before the request is cleared.
    data Processed (d : Daemon F) (w : World F) (cli_id : ℕ) : ℤ → Daemon F → World F → Type 0 where
      processed :
          (req : Request) (rep : Reply F) (d1 : Daemon F) (w1 : World F)
          → get_elem? d.chann.last_req cli_id ≡ some req
          → respond fl req.req_type d w cli_id ≡ some (rep, d1, w1)
          → Processed d w cli_id (send cli_id rep) (record d1 { sent = (cli_id, rep) ∷ d1.sent }) w1

    daemon_process_req-Processed :
        (d d2 : Daemon F) (w after : World F) (cli_id : ℕ) (sent : ℤ)
        → daemon_process_req fl send d w cli_id ≡ some (sent, d2, after)
        → Processed d w cli_id sent d2 after
    unfolding daemon_process_req
    daemon_process_req-Processed d d2 w after cli_id sent run =
        let (req, has_req, run1) = >>=-eq-some (carrier_get_req d.chann cli_id) _ run in
        let ((rep, d1, w1), answered, run2) =
          >>=-eq-some (respond fl req.req_type d w cli_id) _ run1 in
        subst (λ (x : ℤ × Daemon F × World F). Processed d w cli_id x.0 x.1 x.2)
          (some-injective _ _ run2) (processed req rep d1 w1 has_req answered)

    -- What is left to do for an answered request.
    finish-Turn :
        (d d2 d' : Daemon F) (w after w' : World F) (cli_id : ℕ) (c : Client) (n sent : ℤ)
        → get_elem? d.chann.client cli_id ≡ some c
        → get_elem? d.chann.last_n cli_id ≡ some n
        → is_connected c.state && ltb_ℤ (pos 0) n ≡ true
        → Processed d w cli_id sent d2 after
        → ◌≡◌ {A = Option (Daemon F × World F)}
            (carrier_req_clear d2.chann cli_id >>= λ chann.
              (if ltb_ℤ (pos 0) sent then some chann else carrier_set_state chann cli_id error)
              >>= λ chann'. some (record d2 { chann = chann' }, after))
            (some (d', w'))
        → Turn d w cli_id d' w'
    finish-Turn d _ d' w _ w' cli_id c n _ at at_n ready
          (processed req rep d1 after has_req answered) run =
        let (chann, cleared, run1) = >>=-eq-some (carrier_req_clear d1.chann cli_id) _ run in
        let (chann', ended, run2) =
          >>=-eq-some
            (if ltb_ℤ (pos 0) (send cli_id rep)
              then some chann
              else carrier_set_state chann cli_id error)
            _ run1 in
        let (zeroed, same_client) = carrier_req_clear-kept d1.chann chann cli_id cleared in
        let (same_n, marked) = marked-kept chann chann' cli_id (send cli_id rep) ended in
        subst (λ (x : Daemon F × World F). Turn d w cli_id x.0 x.1) (some-injective _ _ run2)
          (served c req rep d1 _ after at (ground arith) (n, at_n, ground arith) has_req answered
            refl
            (ap (λ s. (cli_id, rep) ∷ s)
              (respond-Handled fl req.req_type d d1 w after cli_id rep answered).sent)
            (ap (λ ns. get_elem? ns cli_id) same_n ∙ zeroed)
            (marked
              ∙ ap
                  (λ (clients : List Client).
                    if ltb_ℤ (pos 0) (send cli_id rep)
                    then (get_elem? clients cli_id >>= λ client. some client.state)
                    else some error)
                  same_client))

    after_check :
        (d d1 d' : Daemon F) (w w1 w' : World F) (cli_id : ℕ) (failed : Bool)
        → daemon_check_for_fail d w cli_id ≡ some (failed, d1, w1)
        → Checked d w cli_id failed d1 w1
        → ◌≡◌ {A = Option (Daemon F × World F)}
            (if failed
              then some (d1, w1)
              else (daemon_check_for_update d1 cli_id >>= λ updated.
                  if not updated
                  then some (d1, w1)
                  else (daemon_process_req fl send d1 w1 cli_id >>= λ (sent, d2, after).
                      carrier_req_clear d2.chann cli_id >>= λ chann.
                      (if ltb_ℤ (pos 0) sent
                        then some chann
                        else carrier_set_state chann cli_id error)
                      >>= λ chann'. some (record d2 { chann = chann' }, after))))
            (some (d', w'))
        → Turn d w cli_id d' w'
    unfolding daemon_check_for_update daemon_process_req
    after_check d _ d' w _ w' cli_id _ was (removed c d1 w1 at fails emptied deleted same) run =
        subst (λ (x : Daemon F × World F). Turn d w cli_id x.0 x.1) (some-injective _ _ run)
          (gone c d1 w1 at fails was emptied deleted same)
    after_check d _ d' w _ w' cli_id _ was (well c at fine) run =
        let (updated, has, run1) = >>=-eq-some (daemon_check_for_update d cli_id) _ run in
        let (is_new, new, run2) = >>=-eq-some (carrier_is_updated d.chann cli_id) _ has in
        let (n, at_n, new_is) = >>=-eq-some (get_elem? d.chann.last_n cli_id) _ new in
        let (st, state, upd) = >>=-eq-some (carrier_get_state d.chann cli_id) _ run2 in
        let (c', at', st_is) = >>=-eq-some (get_elem? d.chann.client cli_id) _ state in
        let same : c' ≡ c = some-injective _ _ (sym at' ∙ at) in
        let ready : is_connected c.state && ltb_ℤ (pos 0) n ≡ updated =
          ap₂ (λ x y. is_connected x && y) (ap (λ x. x.state) (sym same) ∙ some-injective _ _ st_is)
            (some-injective _ _ new_is)
          ∙ some-injective _ _ upd in
        elim (Bool-cases updated) [
          | inl new ↦
              let ((sent, d2, after), did, run3) =
                >>=-eq-some (daemon_process_req fl send d w cli_id) _ (rw new at run1) in
              finish-Turn d d2 d' w after w' cli_id c n sent at at_n (ready ∙ new)
                (daemon_process_req-Processed d d2 w after cli_id sent did) run3
          | inr nothing ↦
              subst (λ (x : Daemon F × World F). Turn d w cli_id x.0 x.1)
                (some-injective _ _ (rw nothing at run1)) (idle c n at at_n fine (ready ∙ nothing))
        ]

    -- If `rtf_daemon_handle_req` does not fault, the client got its turn. A client whose connection ended
    -- or failed is removed without a reply: `rtf_scheduler_delete` ran for its process, and its entry is
    -- empty with the process number 0. One without a new request changes nothing. A new request of a
    -- connected client is answered by its handler's reply, the only one added to those sent before;
    -- nothing is left to be read from the client, and its state is an error if the reply was not sent.
    pub daemon_handle_req-Turn :
        (d d' : Daemon F) (w w' : World F) (cli_id : ℕ)
        → daemon_handle_req fl send d w cli_id ≡ some (d', w')
        → Turn d w cli_id d' w'
    unfolding daemon_handle_req
    daemon_handle_req-Turn d d' w w' cli_id run =
        let ((failed, d1, w1), checked, rest) =
          >>=-eq-some (daemon_check_for_fail d w cli_id) _ run in
        after_check d d1 d' w w1 w' cli_id failed checked
          (daemon_check_for_fail-Checked d d1 w w1 cli_id failed checked) rest
