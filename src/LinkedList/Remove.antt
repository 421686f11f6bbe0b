-- ===== src/LinkedList/Remove.antt =====
-- common/list.c, `list_remove` and `list_get_i_node`: what leaves the list, and which node is found.
use native.Mathlib.Nat.{mod-eq_of_lt}
use retif.Common.{
  not, ltb→lt, ℕ, zero, suc, ◌+◌, ◌-◌, ◌%◌, ◌^◌, ◌<◌, ◌≤◌, Bool, true, false, Option, none, some,
  List, [], ◌∷◌, ◌++◌, length, length-append, drop, All, ltb, if◌then◌else◌, ◌≡◌, refl, ap, arith,
  Bool-cases, inl, inr, ◌>>=◌,
}
use retif.LinkedList.{
  LinkedList, IsCounted, list_remove, seek_remove, unlink, list_get_i_node, walk,
}

module _ {ℓ} {A : Type ℓ} (test : A → Bool) where
  -- How a chain comes to be `after`, with `elem` returned: no element passes the test, or the first
  -- one that does is gone.
  pub data RemovedFirst (chain : List A) : Option A → List A → Type ℓ where
    absent : All (λ x. test x ≡ false) chain → RemovedFirst chain none chain
    gone :
        (before : List A) (x : A) (rest : List A)
        → chain ≡ before ++ x ∷ rest
        → All (λ y. test y ≡ false) before
        → test x ≡ true
        → RemovedFirst chain (some x) (before ++ rest)

  -- The same of the loop of `list_remove`.
  data Sought (chain : List A) : Option (A × List A) → Type ℓ where
    missing : All (λ x. test x ≡ false) chain → Sought chain none
    found :
        (before : List A) (x : A) (rest : List A)
        → chain ≡ before ++ x ∷ rest
        → All (λ y. test y ≡ false) before
        → test x ≡ true
        → Sought chain (some (x, before ++ rest))

  Sought-cons :
      (y : A) (seek : List A) (r : Option (A × List A))
      → test y ≡ false
      → Sought seek r
      → Sought (y ∷ seek) (r >>= λ (elem, chain). some (elem, y ∷ chain))
  Sought-cons y seek r e (missing h) = missing (e, h)
  Sought-cons y seek r e (found before x rest was passed hit) =
      found (y ∷ before) x rest (ap (◌∷◌ y) was) (e, passed) hit

  seek_remove-Sought : (seek : List A) → Sought seek (seek_remove test seek)
  unfolding seek_remove
  seek_remove-Sought [] = missing tt
  seek_remove-Sought (y ∷ seek) = elim (Bool-cases (test y)) [
    | inl hit ↦ rw (hit, seek_remove) (found [] y seek refl tt hit)
    | inr miss ↦
        rw (miss, seek_remove)
          (Sought-cons y seek (seek_remove test seek) miss (seek_remove-Sought seek))
  ]

  -- The outcome of `list_remove` on a list whose counter is right.
  pub record Removed (l : LinkedList A) : Type ℓ where
    pub elem : Option A
    pub after : LinkedList A
    pub returned : list_remove test l ≡ some (elem, after)
    pub counted : IsCounted after
    pub first : RemovedFirst l.root elem after.root

  unlink_of_Sought :
      (n : ℕ) (r : A) (rest : List A) (o : Option (A × List A))
      → n ≡ suc (length rest)
      → test r ≡ false
      → Sought rest o
      → let l : LinkedList A = record { n = n; root = r ∷ rest } in
        IsCounted (unlink l r o).1 × RemovedFirst l.root (unlink l r o).0 (unlink l r o).1.root
  unfolding unlink
  unlink_of_Sought n r rest o e miss (missing h) = (e, absent (miss, h))
  unlink_of_Sought n r rest o e miss (found before x after was passed hit) = (
    omega (arith, ap length was, length-append before (x ∷ after), length-append before after),
    gone (r ∷ before) x after (ap (◌∷◌ r) was) (miss, passed) hit,
  )

  root-Removed : (n : ℕ) (root : List A) → n ≡ length root → Removed (record { n = n; root = root })
  unfolding list_remove
  root-Removed n [] e = record {
    elem = none;
    after = record { n = n; root = [] };
    returned = ground arith;
    counted = e;
    first = absent tt;
  }
  root-Removed n (r ∷ rest) e = elim (Bool-cases (test r)) [
    | inl hit ↦ record {
      elem = some r;
      after = record { n = n - 1; root = rest };
      returned = ground arith;
      counted = omega arith;
      first = gone [] r rest refl tt hit;
    }
    | inr miss ↦
        let parts = unlink_of_Sought n r rest _ e miss (seek_remove-Sought rest) in
        record {
          elem = (unlink (record { n = n; root = r ∷ rest }) r (seek_remove test rest)).0;
          after = (unlink (record { n = n; root = r ∷ rest }) r (seek_remove test rest)).1;
          returned = ground arith;
          counted = parts.0;
          first = parts.1;
        }
  ]

  -- On a list whose counter is right, `list_remove` does not fault: it takes out the first element
  -- that passes the test and returns it, leaves the others in order, and keeps the counter right; if
  -- none passes, it returns NULL and leaves the list as it was.
  pub list_remove-Removed : (l : LinkedList A) → IsCounted l → Removed l
  list_remove-Removed l e = root-Removed l.n l.root e

-- The bound test of `list_get_i_node`, where `i + 1` does not wrap.
bound_test : (n i : ℕ) → i + 1 < 2 ^ 32 → ltb n ((i + 1) % 2 ^ 32) ≡ not (ltb i n)
bound_test n i small = ground (arith, mod-eq_of_lt small)

module _ {ℓ} {A : Type ℓ} where
  walk-drop : (i : ℕ) (node : List A) → i ≤ length node → walk i node ≡ some (drop i node)
  unfolding walk
  walk-drop zero node h = refl
  walk-drop (suc i) [] h = absurd (omega arith)
  walk-drop (suc i) (x ∷ node) h = walk-drop i node (omega arith)

  -- On a list whose counter is right and an index below UINT_MAX, `list_get_i_node` does not fault:
  -- it returns the node behind the first `i` ones if there is one, and NULL otherwise.
  pub list_get_i_node-drop :
      (l : LinkedList A) (i : ℕ)
      → IsCounted l
      → i + 1 < 2 ^ 32
      → list_get_i_node l i ≡ (if ltb i l.n then some (drop i l.root) else some [])
  unfolding list_get_i_node
  list_get_i_node-drop l i e small = elim (Bool-cases (ltb i l.n)) [
    | inl inside ↦
        rw (inside, bound_test l.n i small, inside, list_get_i_node)
          (walk-drop i l.root (omega (arith, ltb→lt i l.n inside)))
    | inr outside ↦ rw (outside, bound_test l.n i small, outside, list_get_i_node)
  ]
