-- ===== src/LinkedList/Insert.antt =====
-- common/list.c, `list_add_sorted`: where the new node goes, and that sorted lists stay sorted.
use mathlib.Core.List.{Perm, perm_middle}
use retif.Common.{
  ℕ, ◌+◌, Bool, true, false, some, List, [], ◌∷◌, ◌++◌, length, length-append, All, ◌≡◌, refl, ap,
  subst, arith, Bool-cases, inl, inr,
}
use retif.Common.Int.{ℤ, pos, ltb_ℤ}
use retif.LinkedList.{LinkedList, IsCounted, list_add_sorted, seek_sorted, list_add_top}

-- The sign of a `cmpfun`.
abbrev pub is_above {ℓ} : {A : Type ℓ} → (A → A → ℤ) → A → A → Bool
is_above cmpfun a b = ltb_ℤ (pos 0) (cmpfun a b)

-- What the comments of list.c ask of a `cmpfun`: it orders the elements.
pub record IsComparison {ℓ} {A : Type ℓ} (cmpfun : A → A → ℤ) : Type ℓ where
  pub total : (a b : A) → is_above cmpfun a b ≡ true → is_above cmpfun b a ≡ false
  pub transitive :
      (a b c : A)
      → is_above cmpfun a b ≡ false
      → is_above cmpfun b c ≡ false
      → is_above cmpfun a c ≡ false

module _ {ℓ} {A : Type ℓ} (cmpfun : A → A → ℤ) where
  -- Every element is at most each one behind it.
  abbrev pub IsSorted : List A → Type 0
  IsSorted [] = Unit
  IsSorted (x ∷ xs) = All (λ y. is_above cmpfun x y ≡ false) xs × IsSorted xs

  -- `next` starts at an element that `elem` is not above, or is the end.
  abbrev pub StopsAt : A → List A → Type 0
  StopsAt elem [] = Unit
  StopsAt elem (y ∷ ys) = is_above cmpfun elem y ≡ false

  -- The chain `after` is `chain` with `elem` in front of the first element that it is not above.
  pub record InsertedBefore (elem : A) (chain after next : List A) : Type ℓ where
    pub before : List A
    pub was : chain ≡ before ++ next
    pub now : after ≡ before ++ elem ∷ next
    pub passed : All (λ y. is_above cmpfun elem y ≡ true) before
    pub stopped : StopsAt elem next

  seek_sorted-InsertedBefore :
      (elem : A) (seek : List A)
      → InsertedBefore elem seek (seek_sorted cmpfun elem seek).0 (seek_sorted cmpfun elem seek).1
  unfolding seek_sorted
  seek_sorted-InsertedBefore elem [] = record {
    before = [];
    was = refl;
    now = refl;
    passed = tt;
    stopped = tt;
  }
  seek_sorted-InsertedBefore elem (y ∷ seek) =
      let rest = seek_sorted-InsertedBefore elem seek in
      elim (Bool-cases (is_above cmpfun elem y)) [
        | inl above ↦
            rw (above, seek_sorted)
              (record {
                before = y ∷ rest.before;
                was = ap (◌∷◌ y) rest.was;
                now = ap (◌∷◌ y) rest.now;
                passed = (above, rest.passed);
                stopped = rest.stopped;
              })
        | inr not_above ↦
            rw (not_above, seek_sorted)
              (record { before = []; was = refl; now = refl; passed = tt; stopped = not_above })
      ]

  InsertedBefore-length :
      {elem : A} {chain after next : List A}
      → InsertedBefore elem chain after next
      → length after ≡ length chain + 1
  InsertedBefore-length {elem} {next = next} i = omega (
    arith,
    ap length i.was,
    ap length i.now,
    length-append i.before next,
    length-append i.before (elem ∷ next),
  )

  -- The outcome of `list_add_sorted` on a list whose counter is right.
  pub record Added (l : LinkedList A) (elem : A) : Type ℓ where
    pub after : LinkedList A
    pub next : List A
    pub returned : list_add_sorted cmpfun l elem ≡ some (after, next)
    pub counted : IsCounted after
    pub inserted : InsertedBefore elem l.root after.root next

  root-Added :
      (elem : A) (n : ℕ) (root : List A)
      → n ≡ length root
      → Added (record { n = n; root = root }) elem
  unfolding list_add_sorted list_add_top
  root-Added elem n [] e = record {
    after = record { n = n + 1; root = elem ∷ [] };
    next = [];
    returned = ground arith;
    counted = omega arith;
    inserted = seek_sorted-InsertedBefore elem [];
  }
  root-Added elem n (r ∷ rest) e =
      let tail = seek_sorted-InsertedBefore elem rest in
      elim (Bool-cases (is_above cmpfun elem r)) [
        | inl above ↦ record {
          after = record { n = n + 1; root = r ∷ (seek_sorted cmpfun elem rest).0 };
          next = (seek_sorted cmpfun elem rest).1;
          returned = ground arith;
          counted = omega (arith, InsertedBefore-length tail);
          inserted = record {
            before = r ∷ tail.before;
            was = ap (◌∷◌ r) tail.was;
            now = ap (◌∷◌ r) tail.now;
            passed = (above, tail.passed);
            stopped = tail.stopped;
          };
        }
        | inr not_above ↦ record {
          after = record { n = n + 1; root = elem ∷ r ∷ rest };
          next = r ∷ rest;
          returned = ground arith;
          counted = omega arith;
          inserted = record {
            before = [];
            was = refl;
            now = refl;
            passed = tt;
            stopped = not_above;
          };
        }
      ]

  -- On a list whose counter is right, `list_add_sorted` does not fault: it puts the new node in front
  -- of the first element that is not below the new one, so in front of the equal ones, leaves the
  -- others in order, returns the new node, and keeps the counter right.
  pub list_add_sorted-Added : (l : LinkedList A) (elem : A) → IsCounted l → Added l elem
  list_add_sorted-Added l elem e = root-Added elem l.n l.root e

  All-insert :
      (P : A → Type 0) (before next : List A) {elem : A}
      → All P (before ++ next)
      → P elem
      → All P (before ++ elem ∷ next)
  All-insert P [] next h p = (p, h)
  All-insert P (b ∷ before) next h p = (h.0, All-insert P before next h.1 p)

  All-imp : (P Q : A → Type 0) (xs : List A) → ((x : A) → P x → Q x) → All P xs → All Q xs
  All-imp P Q [] f h = tt
  All-imp P Q (x ∷ xs) f h = (f x h.0, All-imp P Q xs f h.1)

  module _ (c : IsComparison cmpfun) where
    insert-IsSorted :
        (before next : List A) (elem : A)
        → IsSorted (before ++ next)
        → All (λ y. is_above cmpfun elem y ≡ true) before
        → StopsAt elem next
        → IsSorted (before ++ elem ∷ next)
    insert-IsSorted [] [] elem s p stop = (tt, tt)
    insert-IsSorted [] (y ∷ next) elem s p stop = (
      (
        stop,
        All-imp (λ z. is_above cmpfun y z ≡ false) _ next (λ z h. c.transitive elem y z stop h) s.0,
      ),
      s,
    )
    insert-IsSorted (b ∷ before) next elem s p stop = (
      All-insert (λ z. is_above cmpfun b z ≡ false) before next s.0 (c.total elem b p.0),
      insert-IsSorted before next elem s.1 p.1 stop,
    )

    InsertedBefore-IsSorted :
        {elem : A} {chain after next : List A}
        → InsertedBefore elem chain after next
        → IsSorted chain
        → IsSorted after
    InsertedBefore-IsSorted {elem} {next = next} i s =
        rw i.now (insert-IsSorted i.before next elem (subst IsSorted i.was s) i.passed i.stopped)

    -- If `cmpfun` orders the elements, `list_add_sorted` returns on each sorted list whose counter is
    -- right, and the list that it leaves is sorted and holds the old elements and the new one.
    pub list_add_sorted-IsSorted :
        (l : LinkedList A) (elem : A)
        → IsCounted l
        → IsSorted l.root
        → (after : LinkedList A) × (next : List A) × (list_add_sorted cmpfun l elem
            ≡ some (after, next))
          × IsSorted after.root
          × Perm after.root (elem ∷ l.root)
    list_add_sorted-IsSorted l elem e s =
        let a = list_add_sorted-Added l elem e in
        let i = a.inserted in
        (
          a.after,
          a.next,
          a.returned,
          InsertedBefore-IsSorted i s,
          rw (i.now, i.was) (perm_middle i.before a.next),
        )
