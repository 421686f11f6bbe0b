-- ===== src/LinkedList/Sort.antt =====
-- common/list.c, `list_sort`: what the merge sort leaves of a list.
use mathlib.Core.List.{Mem, mem-cons_self, mem-append_left, mem-append_right}
use retif.Common.{
  length-append, ℕ, zero, suc, ◌≤◌, ◌<◌, Bool, true, false, some, List, [], ◌∷◌, ◌++◌, length, All,
  ◌≡◌, refl, ap, subst, arith, Bool-cases, inl, inr,
}
use retif.Common.Int.{ℤ, pos, ltb_ℤ}
use retif.LinkedList.{LinkedList, list_sort, merge_sort, merge, split, split_walk}

-- The sign of a `cmpfun`, as `merge` tests it.
abbrev pub is_below {ℓ} : {A : Type ℓ} → (A → A → ℤ) → A → A → Bool
is_below cmpfun a b = ltb_ℤ (cmpfun a b) (pos 0)

-- What `merge` relies on: "not below" is an order that any two elements are related by.
pub record IsMergeOrder {ℓ} {A : Type ℓ} (cmpfun : A → A → ℤ) : Type ℓ where
  pub irreflexive : (a : A) → is_below cmpfun a a ≡ false
  pub asymmetric : (a b : A) → is_below cmpfun a b ≡ true → is_below cmpfun b a ≡ false
  pub transitive :
      (a b c : A)
      → is_below cmpfun a b ≡ false
      → is_below cmpfun b c ≡ false
      → is_below cmpfun a c ≡ false

module _ {ℓ} {A : Type ℓ} where
  split_walk-append :
      (fast slow : List A) → (split_walk fast slow).0 ++ (split_walk fast slow).1 ≡ slow
  unfolding split_walk
  split_walk-append [] [] = refl
  split_walk-append [] (s ∷ slow) = refl
  split_walk-append (f ∷ []) [] = refl
  split_walk-append (f ∷ []) (s ∷ slow) = refl
  split_walk-append (f ∷ g ∷ fast) [] = refl
  split_walk-append (f ∷ g ∷ fast) (s ∷ slow) = ap (◌∷◌ s) (split_walk-append fast slow)

  split_walk_some :
      (fast slow : List A)
      → length fast < length slow
      → 2 ≤ length slow
      → (1 ≤ length (split_walk fast slow).0) × (1 ≤ length (split_walk fast slow).1)
  unfolding split_walk
  split_walk_some [] [] h k = absurd (omega arith)
  split_walk_some [] (s ∷ slow) h k = omega arith
  split_walk_some (f ∷ []) [] h k = absurd (omega arith)
  split_walk_some (f ∷ []) (s ∷ slow) h k = omega arith
  split_walk_some (f ∷ g ∷ fast) [] h k = absurd (omega arith)
  split_walk_some (f ∷ g ∷ fast) (s ∷ slow) h k =
      (omega arith, (split_walk_some fast slow (omega arith) (omega arith)).1)

  -- `split` loses nothing of a chain of two nodes or more, and leaves none of its parts empty.
  pub split_lem :
      (chain : List A)
      → 2 ≤ length chain
      → ((split chain).0 ++ (split chain).1 ≡ chain)
        × (1 ≤ length (split chain).0)
        × (1 ≤ length (split chain).1)
  unfolding split
  split_lem [] h = absurd (omega arith)
  split_lem (x ∷ rest) h =
      let parts = split_walk_some rest (x ∷ rest) (omega arith) h in
      (split_walk-append rest (x ∷ rest), parts.0, parts.1)

  All-append : (P : A → Type 0) (xs ys : List A) → All P xs → All P ys → All P (xs ++ ys)
  All-append P [] ys hx hy = hy
  All-append P (x ∷ xs) ys hx hy = (hx.0, All-append P xs ys hx.1 hy)

  All-imp : (P Q : A → Type 0) (xs : List A) → ((x : A) → P x → Q x) → All P xs → All Q xs
  All-imp P Q [] f h = tt
  All-imp P Q (x ∷ xs) f h = (f x h.0, All-imp P Q xs f h.1)

module _ {ℓ} {A : Type ℓ} (cmpfun : A → A → ℤ) where
  -- `m` is an element of the chain that none of its elements is below.
  pub record IsLeast (m : A) (chain : List A) : Type ℓ where
    pub member : Mem m chain
    pub least : All (λ y. is_below cmpfun y m ≡ false) chain

  module _ (order : IsMergeOrder cmpfun) where
    merge_singletons :
        (a b : A) (front back : List A)
        → IsLeast a front
        → IsLeast b back
        → (m : A) × (merge cmpfun (a ∷ []) (b ∷ []) ≡ m ∷ []) × IsLeast m (front ++ back)
    unfolding merge
    merge_singletons a b front back la lb = elim (Bool-cases (is_below cmpfun a b)) [
      | inl below ↦ (
        a,
        rw (below, merge) refl,
        record {
          member = mem-append_left back la.member;
          least =
              All-append (λ y. is_below cmpfun y a ≡ false) front back la.least
                (All-imp _ (λ y. is_below cmpfun y a ≡ false) back
                  (λ y h. order.transitive y b a h (order.asymmetric a b below)) lb.least);
        },
      )
      | inr above ↦ (
        b,
        rw (above, merge) refl,
        record {
          member = mem-append_right front lb.member;
          least =
              All-append (λ y. is_below cmpfun y b ≡ false) front back
                (All-imp _ (λ y. is_below cmpfun y b ≡ false) front
                  (λ y h. order.transitive y a b h above) la.least)
                lb.least;
        },
      )
    ]

    merge_sort-IsLeast :
        (fuel : ℕ) (chain : List A)
        → length chain ≤ fuel
        → 1 ≤ length chain
        → (m : A) × (merge_sort fuel cmpfun chain ≡ some (m ∷ [])) × IsLeast m chain
    unfolding merge_sort
    merge_sort-IsLeast fuel [] h k = absurd (omega arith)
    merge_sort-IsLeast fuel (x ∷ []) h k =
        (x, refl, record { member = mem-cons_self; least = (order.irreflexive x, tt) })
    merge_sort-IsLeast zero (x ∷ y ∷ rest) h k = absurd (omega arith)
    merge_sort-IsLeast (suc fuel) (x ∷ y ∷ rest) h k =
        let (whole, front_some, back_some) = split_lem (x ∷ y ∷ rest) (omega arith) in
        let front = (split (x ∷ y ∷ rest)).0 in
        let back = (split (x ∷ y ∷ rest)).1 in
        let size = ap length whole in
        let sum = length-append front back in
        let (a, sorted_a, la) = merge_sort-IsLeast fuel front (omega arith) front_some in
        let (b, sorted_b, lb) = merge_sort-IsLeast fuel back (omega arith) back_some in
        let (m, merged, lm) = merge_singletons a b front back la lb in
        (m, rw (sorted_a, sorted_b, merged) refl, subst (IsLeast m) whole lm)

    -- If "not below" by the sign of `cmpfun` is an order that relates any two elements, in which no element
    -- is below itself, then `list_sort` ends on every non-empty list, leaves only one of its least elements in the chain and
    -- does not touch the counter: `merge` returns NULL as soon as one of its lists is used up.
    pub list_sort-IsLeast :
        (l : LinkedList A)
        → 1 ≤ length l.root
        → (m : A) × (list_sort cmpfun l ≡ some (record { n = l.n; root = m ∷ [] }))
          × IsLeast m l.root
    unfolding list_sort
    list_sort-IsLeast l h =
        let (m, sorted, least) = merge_sort-IsLeast (length l.root) l.root (omega arith) h in
        (m, rw (sorted, list_sort) refl, least)
