-- ===== src/Rm/Levels.antt =====
-- plugins/sched_RM.c and plugins/sched_RR.c, the loop of `assign_priorities` that runs when there are
-- priorities enough: which priorities the tasks of a processor get.
use native.Mathlib.Nat.{mod-eq_of_lt}
use retif.Common.{
  ℕ, suc, ◌+◌, ◌%◌, ◌^◌, ◌<◌, ◌≤◌, true, List, [], ◌∷◌, length, All, ◌==◌, if◌then◌else◌, ◌≡◌, ◌≢◌,
  ◌↔◌, ◌∙◌, refl, sym, ap, arith, Bool-cases, inl, inr, subst,
}
use retif.Task.{Task, task_set_real_priority}
use retif.Taskset.{Heap}
use retif.Plugin.{update, uinc}
use retif.Rm.{assign_levels}

-- No address twice.
unfoldable pub Distinct : List ℕ → Type 0
Distinct [] = Unit
Distinct (x ∷ xs) = All (λ y. x ≢ y) xs × Distinct xs

-- The key of the task at each address.
module _ (k : ℕ → ℕ) where
  -- The tasks of a level stand side by side: behind a task of another key than the one before it, that
  -- key does not come again. Sorted lists are like this.
  unfoldable pub IsGrouped : ℕ → List ℕ → Type 0
  IsGrouped prec [] = Unit
  IsGrouped prec (a ∷ rest) = (k a ≢ prec → All (λ b. k b ≢ prec) rest) × IsGrouped (k a) rest

  -- How often the key changes.
  unfoldable pub changes : ℕ → List ℕ → ℕ
  changes prec [] = 0
  changes prec (a ∷ rest) =
      let behind = changes (k a) rest in if prec == k a then behind else suc behind

  -- A later task has a priority at least as high, and the same if and only if it is of the same level.
  unfoldable pub InOrder : (ℕ → ℕ) → List ℕ → Type 0
  InOrder prio [] = Unit
  InOrder prio (a ∷ rest) =
      All (λ b. (prio a ≤ prio b) × ((prio a ≡ prio b) ↔ (k a ≡ k b))) rest × InOrder prio rest

  -- A priority from `curr` to `curr + up`, that is `curr` if and only if the key is `prec`.
  abbrev pub IsAbove : ℕ → ℕ → ℕ → (ℕ → ℕ) → ℕ → Type 0
  IsAbove curr prec up prio b =
      (curr ≤ prio b) × (prio b ≤ curr + up) × ((prio b ≡ curr) ↔ (k b ≡ prec))

abbrev pub prio_of : {F : Type 0} → Heap F → ℕ → ℕ
prio_of heap b = (heap b).schedprio

-- The priority that the loop gives to a task with the key `k`.
given : ℕ → ℕ → ℕ → ℕ
given curr prec k = if prec == k then curr else uinc curr

given_room : (curr prec key n : ℕ) → curr + suc n < 2 ^ 32 → given curr prec key + n < 2 ^ 32
unfolding given
given_room curr prec key n h =
    ground (arith, mod-eq_of_lt {n = curr + 1} {m = 2 ^ 32} (omega (arith, h)))

given_above :
    (curr prec key up : ℕ)
    → curr + 1 < 2 ^ 32
    → (curr ≤ given curr prec key)
      × (given curr prec key ≤ curr + (if prec == key then up else suc up))
      × ((given curr prec key ≡ curr) ↔ (key ≡ prec))
unfolding given
given_above curr prec key up h = ground (arith, mod-eq_of_lt h)

level_iff : {p q x y : ℕ} → ((q ≡ p) ↔ (y ≡ x)) → ((p ≡ q) ↔ (x ≡ y))
level_iff (to, from) = ((λ e. sym (to (sym e))), (λ e. sym (from (sym e))))

pub map-All {ℓ κ} :
    {A : Type ℓ} {P Q : A → Type κ} (xs : List A) → ((x : A) → P x → Q x) → All P xs → All Q xs
map-All [] f h = tt
map-All (x ∷ xs) f h = (f x h.0, map-All xs f h.1)

one_above :
    (curr prec key up q x : ℕ)
    → curr + 1 < 2 ^ 32
    → (key ≢ prec → x ≢ prec)
    → let p = given curr prec key in
      (p ≤ q) × (q ≤ p + up) × ((q ≡ p) ↔ (x ≡ key))
      → (curr ≤ q) × (q ≤ curr + (if prec == key then up else suc up)) × ((q ≡ curr) ↔ (x ≡ prec))
unfolding given
one_above curr prec key up q x h apart above = elim (Bool-cases (prec == key)) [
  | inl e ↦ ground (arith, mod-eq_of_lt h)
  | inr e ↦
      let ne : key ≢ prec = λ same. absurd (ground arith) in
      let ne' = apart ne in ground (arith, mod-eq_of_lt h)
]

IsAbove-behind :
    (k : ℕ → ℕ) (prio : ℕ → ℕ) (curr prec a up : ℕ) (rest : List ℕ)
    → curr + 1 < 2 ^ 32
    → (k a ≢ prec → All (λ b. k b ≢ prec) rest)
    → All (IsAbove k (given curr prec (k a)) (k a) up prio) rest
    → All (IsAbove k curr prec (if prec == k a then up else suc up) prio) rest
IsAbove-behind k prio curr prec a up [] h apart above = tt
IsAbove-behind k prio curr prec a up (b ∷ rest) h apart above = (
  one_above curr prec (k a) up (prio b) (k b) h (λ ne. (apart ne).0) above.0,
  IsAbove-behind k prio curr prec a up rest h (λ ne. (apart ne).1) above.1,
)

next_prec : (prec key : ℕ) → key < 2 ^ 32 → (if prec == key then prec else key % 2 ^ 32) ≡ key
next_prec prec key lt = ground (arith, mod-eq_of_lt lt)

module _ {F : Type 0} (key : Task F → ℕ) where
  -- Setting the priority does not change the key.
  abbrev pub IsKey : Type 0
  IsKey = (t : Task F) (p : ℕ) → key (task_set_real_priority t p) ≡ key t

  update-other : (heap : Heap F) (a b : ℕ) (t : Task F) → b ≢ a → update heap a t b ≡ heap b
  update-other heap a b t ne = elim (Bool-cases (a == b)) [
    | inl e ↦ absurd (ne (ground arith))
    | inr e ↦ rw e
  ]

  update-same : (heap : Heap F) (a : ℕ) (t : Task F) → update heap a t a ≡ t
  update-same heap a t = let e : (a == a) ≡ true = ground arith in rw e

  module _ (is_key : IsKey) where
    keys_kept :
        (heap : Heap F) (a b p : ℕ)
        → key (update heap a (task_set_real_priority (heap a) p) b) ≡ key (heap b)
    keys_kept heap a b p = elim (Bool-cases (a == b)) [
      | inl e ↦
          let same : a ≡ b = ground arith in rw e (is_key (heap a) p ∙ ap (λ c. key (heap c)) same)
      | inr e ↦ rw e
    ]

    untouched :
        (list : List ℕ) (curr prec : ℕ) (heap : Heap F) (b : ℕ)
        → All (λ a. b ≢ a) list
        → assign_levels key curr prec heap list b ≡ heap b
    unfolding assign_levels
    untouched [] curr prec heap b h = refl
    untouched (a ∷ list) curr prec heap b h =
        untouched list _ _ _ b h.1 ∙ update-other heap a b _ h.0

    assign_levels-cons :
        (curr prec : ℕ) (heap : Heap F) (a : ℕ) (rest : List ℕ)
        → key (heap a) < 2 ^ 32
        → let p = given curr prec (key (heap a)) in
          assign_levels key curr prec heap (a ∷ rest)
          ≡ assign_levels key p
              (key (heap a))
              (update heap a (task_set_real_priority (heap a) p))
              rest
    unfolding assign_levels given
    assign_levels-cons curr prec heap a rest lt =
        let p = given curr prec (key (heap a)) in
        ap (λ x. assign_levels key p x (update heap a (task_set_real_priority (heap a) p)) rest)
          (next_prec prec (key (heap a)) lt)

    module _ (k : ℕ → ℕ) where
      -- The loop over a list of different tasks, whose keys are `k`.
      pub levels :
          (list : List ℕ) (curr prec : ℕ) (heap : Heap F)
          → ((b : ℕ) → key (heap b) ≡ k b)
          → Distinct list
          → IsGrouped k prec list
          → All (λ b. k b < 2 ^ 32) list
          → curr + length list < 2 ^ 32
          → let prio = prio_of (assign_levels key curr prec heap list) in
            All (IsAbove k curr prec (changes k prec list) prio) list × InOrder k prio list
      unfolding Distinct IsGrouped changes InOrder
      levels [] curr prec heap agree distinct grouped small room = (tt, tt)
      levels (a ∷ rest) curr prec heap agree distinct grouped small room =
          let p = given curr prec (k a) in
          let heap1 = update heap a (task_set_real_priority (heap a) p) in
          let step : assign_levels key curr prec heap (a ∷ rest)
              ≡ assign_levels key p (k a) heap1 rest =
            subst
              (λ x.
                assign_levels key curr prec heap (a ∷ rest)
                ≡ assign_levels key (given curr prec x) x
                    (update heap a (task_set_real_priority (heap a) (given curr prec x))) rest)
              (agree a)
              (assign_levels-cons curr prec heap a rest (omega (arith, agree a, small.0))) in
          let agree1 : (b : ℕ) → key (heap1 b) ≡ k b = λ b. keys_kept heap a b p ∙ agree b in
          let (above, ordered) =
            levels rest p (k a) heap1 agree1 distinct.1 grouped.1 small.1
              (given_room curr prec (k a) _ room) in
          let head : prio_of (assign_levels key p (k a) heap1 rest) a ≡ p =
            ap (λ t. t.schedprio)
              (untouched rest p (k a) heap1 a distinct.0 ∙ update-same heap a _) in
          subst
            (λ heap'.
              All (IsAbove k curr prec (changes k prec (a ∷ rest)) (prio_of heap')) (a ∷ rest)
              × InOrder k (prio_of heap') (a ∷ rest))
            (sym step)
            (
              (
                rw head (given_above curr prec (k a) _ (omega (arith, room))),
                IsAbove-behind k _ curr prec a _ rest (omega (arith, room)) grouped.0 above,
              ),
              (map-All rest (λ b h. rw head (h.0, level_iff h.2)) above, ordered),
            )
