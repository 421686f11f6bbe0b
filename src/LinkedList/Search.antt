-- ===== src/LinkedList/Search.antt =====
-- common/list.c, `list_search_elem`: what is found.
use retif.Common.{Bool, true, some, List, [], ◌∷◌, All, ◌≡◌, inl, inr, Bool-cases, subst}
use mathlib.Core.Option.{some-injective}
use retif.LinkedList.{LinkedList, search_from, list_search_elem}

search_from-some {ℓ κ} :
    {A : Type ℓ} (test : A → Bool) (P : A → Type κ) (xs : List A) (a : A)
    → All P xs
    → search_from test xs ≡ some a
    → (test a ≡ true) × P a
unfolding search_from
search_from-some test P [] a h e = absurd (cc)
search_from-some test P (x ∷ xs) a h e = elim (Bool-cases (test x)) [
  | inl hit ↦
      subst (λ y. (test y ≡ true) × P y) (some-injective _ _ (rw (hit, search_from) at e))
        (hit, h.0)
  | inr miss ↦ search_from-some test P xs a h.1 (rw (miss, search_from) at e)
]

-- What `list_search_elem` returns passes the test, and has each property that all the elements have.
pub list_search_elem-some {ℓ κ} :
    {A : Type ℓ} (test : A → Bool) (P : A → Type κ) (l : LinkedList A) (a : A)
    → All P l.root
    → list_search_elem test l ≡ some a
    → (test a ≡ true) × P a
unfolding list_search_elem
list_search_elem-some test P l a h e = search_from-some test P l.root a h e
