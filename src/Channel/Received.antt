-- ===== src/Channel/Received.antt =====
-- channel/usocket.c, `usocket_recvall`: what a round notes for each descriptor.
use retif.Common.{
  ℕ, zero, suc, ◌+◌, ◌<◌, ◌≤◌, Bool, true, false, some, List, length, length-set, get_elem?, set,
  get_elem?_total, get_elem?-set_self, get_elem?-set_ne, ◌==◌, ◌≡◌, ◌≢◌, ◌⊎◌, ◌∙◌, refl, sym, ap,
  subst, arith, inl, inr, Bool-cases,
}
use retif.Common.Int.{ℤ, pos, negsuc}
use retif.Channel.{
  Usocket, Round, receive_one, receive_from, usocket_join, usocket_add_connections, note_received,
}

-- The number that is kept for a result of `recv`: the end of a connection, 0, counts as an error.
pub data Noted : ℤ → ℤ → Type 0 where
  closed : Noted (pos 0) (negsuc 0)
  bytes : (n : ℕ) → Noted (pos (suc n)) (pos (suc n))
  failed : (n : ℕ) → Noted (negsuc n) (negsuc n)

module _ {R : Type 0} (round : Round R) where
  -- The descriptor is not in the set, or it is the one of a client that has just joined.
  abbrev pub Out : Usocket → ℕ → Type 0
  Out us k = (us.conn_set k ≡ false) ⊎ (round.accept ≡ pos k)

  -- What one turn of the loop did.
  record ReceivedOne (temp : ℕ → Bool) (us : Usocket) (i : ℕ) (nrecv : List ℤ) (buffers : List R)
      : Type 0 where
    us' : Usocket
    nrecv' : List ℤ
    buffers' : List R
    returned : receive_one round temp us i nrecv buffers ≡ some (us', nrecv', buffers')
    as_many : length nrecv' ≡ length nrecv
    as_many_buffers : length buffers' ≡ length buffers
    socket : us'.socket ≡ us.socket
    others : (k : ℕ) → i ≢ k → get_elem? nrecv' k ≡ get_elem? nrecv k
    silent : temp i ≡ false → get_elem? nrecv' i ≡ get_elem? nrecv i
    noted :
        i ≢ us.socket
        → temp i ≡ true
        → (v : ℤ) × Noted (round.recv i) v × (get_elem? nrecv' i ≡ some v)
    out : (k : ℕ) → Out us k → Out us' k
    removed : i ≢ us.socket → temp i ≡ true → round.recv i ≡ pos 0 → Out us' i

  join_socket : (us : Usocket) (fd : ℤ) → (usocket_join round us fd).1.socket ≡ us.socket
  join_socket us (negsuc n) = refl
  join_socket us (pos fd) = ground arith

  join-Out :
      (us : Usocket) (fd : ℤ) (k : ℕ)
      → (us.conn_set k ≡ false) ⊎ (fd ≡ pos k)
      → ((usocket_join round us fd).1.conn_set k ≡ false) ⊎ (fd ≡ pos k)
  join-Out us (negsuc n) k h = h
  join-Out us (pos fd) k (inr h) = inr h
  join-Out us (pos fd) k (inl h) = elim (Bool-cases (fd == k)) [
    | inl same ↦ inr (ap pos (ground arith))
    | inr other ↦ elim (Bool-cases (round.has_credentials fd)) [
      | inl has ↦ inl (rw (has, other) h)
      | inr lacks ↦ inl (rw lacks h)
    ]
  ]

  note_socket : (us : Usocket) (i : ℕ) (n : ℤ) → (note_received round us i n).1.socket ≡ us.socket
  note_socket us i (pos zero) = refl
  note_socket us i (pos (suc n)) = refl
  note_socket us i (negsuc n) = refl

  note-Noted : (us : Usocket) (i : ℕ) (n : ℤ) → Noted n (note_received round us i n).0
  note-Noted us i (pos zero) = closed
  note-Noted us i (pos (suc n)) = bytes n
  note-Noted us i (negsuc n) = failed n

  note-Out :
      (us : Usocket) (i : ℕ) (n : ℤ) (k : ℕ) → Out us k → Out (note_received round us i n).1 k
  note-Out us i (pos zero) k (inr h) = inr h
  note-Out us i (pos zero) k (inl h) = inl (ground arith)
  note-Out us i (pos (suc n)) k h = h
  note-Out us i (negsuc n) k h = h

  note-removed : (us : Usocket) (i : ℕ) (n : ℤ) → n ≡ pos 0 → Out (note_received round us i n).1 i
  note-removed us i (pos zero) e = let same : (i == i) ≡ true = ground arith in inl (rw same refl)
  note-removed us i (pos (suc n)) e = absurd (cc)
  note-removed us i (negsuc n) e = absurd (cc)

  receive_one-ReceivedOne :
      (temp : ℕ → Bool) (us : Usocket) (i : ℕ) (nrecv : List ℤ) (buffers : List R)
      → i < length nrecv
      → i < length buffers
      → ReceivedOne temp us i nrecv buffers
  receive_one-ReceivedOne temp us i nrecv buffers h h' =
      let (n, at_n) = get_elem?_total nrecv i h in
      let (b, at_b) = get_elem?_total buffers i h' in
      elim (Bool-cases (temp i)) [
        | inl heard ↦ elim (Bool-cases (i == us.socket)) [
          | inl main ↦
              let r = usocket_add_connections round us in
              record {
                us' = r.1;
                nrecv' = set nrecv i r.0;
                buffers' = buffers;
                returned = rw (heard, main, at_n) refl;
                as_many = length-set nrecv i r.0;
                as_many_buffers = refl;
                socket = join_socket us round.accept;
                others = λ k ne. get_elem?-set_ne nrecv r.0 ne;
                silent = λ e. absurd (cc);
                noted = λ ne e. absurd (ground arith);
                out = λ k o. join-Out us round.accept k o;
                removed = λ ne e z. absurd (ground arith);
              }
          | inr other ↦
              let r = note_received round us i (round.recv i) in
              record {
                us' = r.1;
                nrecv' = set nrecv i r.0;
                buffers' = set buffers i (round.fill i b);
                returned = rw (heard, other, at_b, at_n) refl;
                as_many = length-set nrecv i r.0;
                as_many_buffers = length-set buffers i _;
                socket = note_socket us i (round.recv i);
                others = λ k ne. get_elem?-set_ne nrecv r.0 ne;
                silent = λ e. absurd (cc);
                noted =
                    λ ne e. (r.0, note-Noted us i (round.recv i), get_elem?-set_self nrecv i r.0 h);
                out = λ k o. note-Out us i (round.recv i) k o;
                removed = λ ne e z. note-removed us i (round.recv i) z;
              }
        ]
        | inr silent ↦ record {
          us' = us;
          nrecv' = nrecv;
          buffers' = buffers;
          returned = rw silent refl;
          as_many = refl;
          as_many_buffers = refl;
          socket = refl;
          others = λ k ne. refl;
          silent = λ e. refl;
          noted = λ ne e. absurd (cc);
          out = λ k o. o;
          removed = λ ne e z. absurd (cc);
        }
      ]

  -- What the loop over `count` descriptors from `i` on did: it noted what `recv` gave for each of its
  -- range that is ready, but not for the listening socket, and left the others.
  pub record Received (temp : ℕ → Bool) (count : ℕ) (us : Usocket) (i : ℕ) (nrecv : List ℤ)
      (buffers : List R) : Type 0 where
    pub us' : Usocket
    pub nrecv' : List ℤ
    pub buffers' : List R
    pub returned : receive_from round temp count us i nrecv buffers ≡ some (us', nrecv', buffers')
    pub as_many : length nrecv' ≡ length nrecv
    pub as_many_buffers : length buffers' ≡ length buffers
    pub socket : us'.socket ≡ us.socket
    pub outside : (k : ℕ) → (k < i) ⊎ (i + count ≤ k) → get_elem? nrecv' k ≡ get_elem? nrecv k
    pub silent : (k : ℕ) → temp k ≡ false → get_elem? nrecv' k ≡ get_elem? nrecv k
    pub noted :
        (k : ℕ)
        → i ≤ k
        → k < i + count
        → k ≢ us.socket
        → temp k ≡ true
        → (v : ℤ) × Noted (round.recv k) v × (get_elem? nrecv' k ≡ some v)
    pub out : (k : ℕ) → Out us k → Out us' k
    pub removed :
        (k : ℕ)
        → i ≤ k
        → k < i + count
        → k ≢ us.socket
        → temp k ≡ true
        → round.recv k ≡ pos 0
        → Out us' k

  here_or_later : (i k : ℕ) → i ≤ k → (i ≡ k) ⊎ (suc i ≤ k)
  here_or_later i k le = elim (Bool-cases (i == k)) [
    | inl e ↦ inl (ground arith)
    | inr ne ↦ inr (ground arith)
  ]

  pub receive_from-Received :
      (temp : ℕ → Bool) (count : ℕ) (us : Usocket) (i : ℕ) (nrecv : List ℤ) (buffers : List R)
      → i + count ≤ length nrecv
      → i + count ≤ length buffers
      → Received temp count us i nrecv buffers
  unfolding receive_from
  receive_from-Received temp zero us i nrecv buffers h h' = record {
    us' = us;
    nrecv' = nrecv;
    buffers' = buffers;
    returned = refl;
    as_many = refl;
    as_many_buffers = refl;
    socket = refl;
    outside = λ k o. refl;
    silent = λ k e. refl;
    noted = λ k le lt. absurd (omega (arith, le, lt));
    out = λ k o. o;
    removed = λ k le lt. absurd (omega (arith, le, lt));
  }
  receive_from-Received temp (suc count) us i nrecv buffers h h' =
      let one =
        receive_one-ReceivedOne temp us i nrecv buffers (omega (arith, h)) (omega (arith, h')) in
      let rest =
        receive_from-Received temp count one.us' (suc i) one.nrecv' one.buffers'
          (omega (arith, h, one.as_many)) (omega (arith, h', one.as_many_buffers)) in
      record {
        us' = rest.us';
        nrecv' = rest.nrecv';
        buffers' = rest.buffers';
        returned = rw (one.returned, receive_from) rest.returned;
        as_many = rest.as_many ∙ one.as_many;
        as_many_buffers = rest.as_many_buffers ∙ one.as_many_buffers;
        socket = rest.socket ∙ one.socket;
        outside = λ k o. elim o [
          | inl lt ↦
              rest.outside k (inl (omega (arith, lt))) ∙ one.others k (λ e. omega (arith, lt, e))
          | inr le ↦
              rest.outside k (inr (omega (arith, le))) ∙ one.others k (λ e. omega (arith, le, e))
        ];
        silent = λ k e. rest.silent k e ∙ elim (Bool-cases (i == k)) [
          | inl same ↦
              let is : i ≡ k = ground arith in
              subst (λ j. get_elem? one.nrecv' j ≡ get_elem? nrecv j) is
                (one.silent (ap temp is ∙ e))
          | inr ne ↦ one.others k (λ is. absurd (ground arith))
        ];
        noted = λ k le lt ne e. elim (here_or_later i k le) [
          | inl is ↦
              let (v, n, at) = one.noted (λ s. ne (sym is ∙ s)) (ap temp is ∙ e) in
              (
                v,
                subst (λ j. Noted (round.recv j) v) is n,
                rest.outside k (inl (omega (arith, is))) ∙ ap (get_elem? one.nrecv') (sym is) ∙ at,
              )
          | inr later ↦ rest.noted k later (omega (arith, lt)) (λ s. ne (s ∙ one.socket)) e
        ];
        out = λ k o. rest.out k (one.out k o);
        removed = λ k le lt ne e z. elim (here_or_later i k le) [
          | inl is ↦ rest.out k (
              subst (Out one.us') is
                (one.removed (λ s. ne (sym is ∙ s)) (ap temp is ∙ e) (ap round.recv is ∙ z)))
          | inr later ↦ rest.removed k later (omega (arith, lt)) (λ s. ne (s ∙ one.socket)) e z
        ];
      }
