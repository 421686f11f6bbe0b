-- ===== src/Channel/Loops.antt =====
-- channel/retif_channel.c, the two loops of `rtf_carrier_update`: over the numbers that are cleared, and over
-- the clients.
use retif.Common.{
  ℕ, zero, suc, ◌+◌, ◌<◌, ◌≤◌, true, false, some, List, length, length-set, get_elem?, set,
  get_elem?_total, get_elem?-lt, get_elem?-set_self, get_elem?-set_ne, ◌==◌, ◌≡◌, ◌≢◌, ◌⊎◌, ◌∙◌,
  refl, sym, ap, arith, inl, inr, Bool-cases,
}
use mathlib.Core.Option.{some-injective}
use mathlib.Core.Path.{ap₂}
use retif.Common.Int.{ℤ, pos}
use retif.Channel.{Client, next_state, clear_from, step_from}

-- What the loop over `count` descriptors from `i` on did: it changed the state of exactly the clients
-- in its range but the listening socket's, each by its own `last_n`.
pub record Stepped (socket count i : ℕ) (last_n : List ℤ) (client : List Client) : Type 0 where
  pub after : List Client
  pub returned : step_from socket count last_n i client ≡ some after
  pub as_many : length after ≡ length client
  pub outside :
      (j : ℕ) → (j < i) ⊎ (i + count ≤ j) ⊎ (j ≡ socket) → get_elem? after j ≡ get_elem? client j
  pub inside :
      (j : ℕ) (c : Client) (n : ℤ)
      → i ≤ j
      → j < i + count
      → j ≢ socket
      → get_elem? client j ≡ some c
      → get_elem? last_n j ≡ some n
      → get_elem? after j ≡ some (record c { state = next_state c.state n })

-- Over arrays that are long enough, the loop of `rtf_carrier_update` does not fault, and gives each
-- client in its range, but not the listening socket, the next state by the client's own `last_n`; all
-- others keep their state.
pub step_from-Stepped :
    (socket count i : ℕ) (last_n : List ℤ) (client : List Client)
    → i + count ≤ length last_n
    → i + count ≤ length client
    → Stepped socket count i last_n client
unfolding step_from
step_from-Stepped socket zero i last_n client h h' = record {
  after = client;
  returned = refl;
  as_many = refl;
  outside = λ j _. refl;
  inside = λ j c n le lt. absurd (omega (arith, le, lt));
}
step_from-Stepped socket (suc count) i last_n client h h' = elim (Bool-cases (i == socket)) [
  | inl here ↦
      let rest =
        step_from-Stepped socket count (suc i) last_n client (omega (arith, h))
          (omega (arith, h')) in
      record {
        after = rest.after;
        returned = rw (here, step_from) rest.returned;
        as_many = rest.as_many;
        outside = λ j out. rest.outside j (outer j out);
        inside =
            λ j c n le lt ne. rest.inside j c n (later_index here ne le) (omega (arith, lt)) ne;
      }
  | inr other ↦
      let (n, at_n) = get_elem?_total last_n i (omega (arith, h)) in
      let (c, at_c) = get_elem?_total client i (omega (arith, h')) in
      let next = record c { state = next_state c.state n } in
      let rest =
        step_from-Stepped socket count (suc i) last_n (set client i next) (omega (arith, h))
          (omega (arith, h', length-set client i next)) in
      record {
        after = rest.after;
        returned = rw (other, at_n, at_c, step_from) rest.returned;
        as_many = rest.as_many ∙ length-set client i next;
        outside = λ j out.
            rest.outside j (outer j out) ∙ get_elem?-set_ne client next (elsewhere j other out);
        inside = λ j c' n' le lt ne got got_n. elim (Bool-cases (i == j)) [
          | inl e ↦
              let same : i ≡ j = ground arith in
              let is_c : c ≡ c' =
                some-injective _ _ (sym at_c ∙ ap (get_elem? client) same ∙ got) in
              let is_n : n ≡ n' =
                some-injective _ _ (sym at_n ∙ ap (get_elem? last_n) same ∙ got_n) in
              ap (get_elem? rest.after) (sym same)
              ∙ rest.outside i (inl (omega arith))
              ∙ get_elem?-set_self client i next (get_elem?-lt client i at_c)
              ∙ ap₂ (λ (c : Client) n. some (record c { state = next_state c.state n })) is_c is_n
          | inr e ↦
              rest.inside j c' n' (behind e le) (omega (arith, lt)) ne
                (get_elem?-set_ne client next (apart e) ∙ got) got_n
        ];
      }
]
  where
    outer :
        (j : ℕ)
        → (j < i) ⊎ (i + suc count ≤ j) ⊎ (j ≡ socket)
        → (j < suc i) ⊎ (suc i + count ≤ j) ⊎ (j ≡ socket)
    outer j (inl h) = inl (omega (arith, h))
    outer j (inr (inl h)) = inr (inl (omega (arith, h)))
    outer j (inr (inr h)) = inr (inr h)

    elsewhere :
        (j : ℕ) → (i == socket) ≡ false → (j < i) ⊎ (i + suc count ≤ j) ⊎ (j ≡ socket) → i ≢ j
    elsewhere j other (inl h) e = omega (arith, h, e)
    elsewhere j other (inr (inl h)) e = omega (arith, h, e)
    elsewhere j other (inr (inr h)) e = ground arith

    apart : {j : ℕ} → (i == j) ≡ false → i ≢ j
    apart ne e = ground arith

    behind : {j : ℕ} → (i == j) ≡ false → i ≤ j → suc i ≤ j
    behind ne le = ground arith

    later_index : {j : ℕ} → (i == socket) ≡ true → j ≢ socket → i ≤ j → suc i ≤ j
    later_index here ne le = ground arith

-- What clearing `count` entries from `i` on gives.
pub record Cleared (count i : ℕ) (last_n : List ℤ) : Type 0 where
  pub after : List ℤ
  pub returned : clear_from count i last_n ≡ some after
  pub as_many : length after ≡ length last_n
  pub before : (k : ℕ) → k < i → get_elem? after k ≡ get_elem? last_n k
  pub zeroed : (k : ℕ) → i ≤ k → k < i + count → get_elem? after k ≡ some (pos 0)

pub clear_from-Cleared :
    (count i : ℕ) (last_n : List ℤ) → i + count ≤ length last_n → Cleared count i last_n
unfolding clear_from
clear_from-Cleared zero i last_n h = record {
  after = last_n;
  returned = refl;
  as_many = refl;
  before = λ k lt. refl;
  zeroed = λ k le lt. absurd (omega (arith, le, lt));
}
clear_from-Cleared (suc count) i last_n h =
    let (n, at) = get_elem?_total last_n i (omega (arith, h)) in
    let here = set last_n i (pos 0) in
    let rest =
      clear_from-Cleared count (suc i) here (omega (arith, h, length-set last_n i (pos 0))) in
    record {
      after = rest.after;
      returned = rw (at, clear_from) rest.returned;
      as_many = rest.as_many ∙ length-set last_n i (pos 0);
      before = λ k lt.
          rest.before k (omega (arith, lt))
          ∙ get_elem?-set_ne last_n (pos 0) (λ e. omega (arith, lt, e));
      zeroed = λ k le lt. elim (Bool-cases (i == k)) [
        | inl same ↦
            let is : i ≡ k = ground arith in
            rest.before k (omega (arith, is))
            ∙ ap (get_elem? here) (sym is)
            ∙ get_elem?-set_self last_n i (pos 0) (get_elem?-lt last_n i at)
        | inr ne ↦ let later : suc i ≤ k = ground arith in rest.zeroed k later (omega (arith, lt))
      ];
    }
