-- ===== src/LinkedList.antt =====
-- common/list.c and common/list.h: the singly linked list of `any_t`.
-- A chain of `struct node_ptr` is the list of its elements, and a pointer to a node is the chain from
-- that node on, with `[]` for NULL. `any_t` is the type `A`, and what a `cmpfun` does with its
-- pointers is a function on `A`. A read through a null pointer is a fault, `none`.
pub mod Insert
pub mod Remove
pub mod Search
pub mod Sort
use retif.Common.{
  ℕ, zero, suc, ◌+◌, ◌-◌, ◌%◌, ◌^◌, Bool, true, false, not, Option, none, some, List, [], ◌∷◌,
  length, ltb, ◌==◌, if◌then◌else◌, ◌>>=◌, ◌≡◌,
}
use retif.Common.Int.{ℤ, pos, ltb_ℤ}

-- `struct list`. The counter `n` and the chain are separate fields, as in the source.
pub record LinkedList {ℓ} (A : Type ℓ) : Type ℓ where
  pub n : ℕ
  pub root : List A

-- The counter tells the length of the chain.
abbrev pub IsCounted {ℓ} : {A : Type ℓ} → LinkedList A → Type 0
IsCounted l = l.n ≡ length l.root

module _ {ℓ} {A : Type ℓ} where
  abbrev pub list_init : LinkedList A
  list_init = record { n = 0; root = [] }

  unfoldable pub list_is_empty : LinkedList A → Bool
  list_is_empty l = l.n == 0

  unfoldable pub list_get_size : LinkedList A → ℕ
  list_get_size l = l.n

  unfoldable pub list_add_top : LinkedList A → A → LinkedList A
  list_add_top l elem = record { n = l.n + 1; root = elem ∷ l.root }

  -- The loop of `list_add_sorted` from `seek` on: the chain with the new node, and the new node's
  -- `next`.
  pub seek_sorted : (A → A → ℤ) → A → List A → List A × List A
  seek_sorted cmpfun elem [] = (elem ∷ [], [])
  seek_sorted cmpfun elem (y ∷ seek) =
      let (chain, next) = seek_sorted cmpfun elem seek in
      if ltb_ℤ (pos 0) (cmpfun elem y) then (y ∷ chain, next) else (elem ∷ y ∷ seek, y ∷ seek)

  -- The behaviour on a root that is read behind the test of `list_is_empty`.
  pub add_sorted_at : (A → A → ℤ) → LinkedList A → A → List A → Option (LinkedList A × List A)
  unfolding seek_sorted
  add_sorted_at cmpfun l elem [] = none
  add_sorted_at cmpfun l elem (r ∷ rest) =
      let (chain, next) = seek_sorted cmpfun elem rest in
      if not (ltb_ℤ (pos 0) (cmpfun elem r))
      then some (list_add_top l elem, l.root)
      else some (record { n = l.n + 1; root = r ∷ chain }, next)

  -- The new list, and the `next` of the node that is returned.
  unfoldable pub list_add_sorted : (A → A → ℤ) → LinkedList A → A → Option (LinkedList A × List A)
  unfolding add_sorted_at list_is_empty list_add_top
  list_add_sorted cmpfun l elem =
      if list_is_empty l
      then some (list_add_top l elem, l.root)
      else add_sorted_at cmpfun l elem l.root

  pub remove_top_at : LinkedList A → List A → Option (Option A × LinkedList A)
  remove_top_at l [] = none
  remove_top_at l (elem ∷ rest) = some (some elem, record { n = l.n - 1; root = rest })

  -- `some elem` is the element that left the list, `none` inside stands for the NULL that is returned.
  unfoldable pub list_remove_top : LinkedList A → Option (Option A × LinkedList A)
  unfolding remove_top_at list_is_empty
  list_remove_top l = if list_is_empty l then some (none, l) else remove_top_at l l.root

  pub top_elem_at : List A → Option (Option A)
  top_elem_at [] = none
  top_elem_at (elem ∷ rest) = some (some elem)

  unfoldable pub list_get_top_elem : LinkedList A → Option (Option A)
  unfolding top_elem_at list_is_empty
  list_get_top_elem l = if list_is_empty l then some none else top_elem_at l.root

  -- `n = n->next`, `i` times: NULL may be reached and not passed.
  pub walk : ℕ → List A → Option (List A)
  walk zero node = some node
  walk (suc i) [] = none
  walk (suc i) (x ∷ node) = walk i node

  -- `i + 1` is computed in `unsigned int`.
  unfoldable pub list_get_i_node : LinkedList A → ℕ → Option (List A)
  unfolding walk list_get_size
  list_get_i_node l i = if ltb (list_get_size l) ((i + 1) % 2 ^ 32) then some [] else walk i l.root

  unfoldable pub list_get_next_node : List A → List A
  list_get_next_node [] = []
  list_get_next_node (x ∷ node) = node

  abbrev pub iterator_init : LinkedList A → List A
  iterator_init l = l.root

  -- An iterator is a node: both reads fault on NULL.
  unfoldable pub iterator_get_next : List A → Option (List A)
  iterator_get_next [] = none
  iterator_get_next (x ∷ node) = some node

  unfoldable pub iterator_get_elem : List A → Option A
  iterator_get_elem [] = none
  iterator_get_elem (x ∷ node) = some x

  -- `cmpfun` with the key already passed.
  pub search_from : (A → Bool) → List A → Option A
  search_from test [] = none
  search_from test (x ∷ node) = if test x then some x else search_from test node

  unfoldable pub list_search_elem : (A → Bool) → LinkedList A → Option A
  unfolding search_from
  list_search_elem test l = search_from test l.root

  -- The loop of `list_remove` from `seek` on: the element that matched, and the chain without it.
  pub seek_remove : (A → Bool) → List A → Option (A × List A)
  seek_remove test [] = none
  seek_remove test (x ∷ seek) =
      let rest = seek_remove test seek in
      if test x then some (x, seek) else (rest >>= λ (elem, chain). some (elem, x ∷ chain))

  -- What the end of the loop of `list_remove` makes of the root `r` and the loop's result.
  pub unlink : LinkedList A → A → Option (A × List A) → Option A × LinkedList A
  unlink l r none = (none, l)
  unlink l r (some (elem, chain)) = (some elem, record { n = l.n - 1; root = r ∷ chain })

  pub remove_at : (A → Bool) → LinkedList A → List A → Option (Option A × LinkedList A)
  unfolding seek_remove unlink
  remove_at test l [] = none
  remove_at test l (r ∷ rest) =
      if test r then list_remove_top l else some (unlink l r (seek_remove test rest))

  unfoldable pub list_remove : (A → Bool) → LinkedList A → Option (Option A × LinkedList A)
  unfolding remove_at list_remove_top list_is_empty
  list_remove test l = if list_is_empty l then some (none, l) else remove_at test l l.root

  -- The loop of `split`, which the fast pointer leads: the chain up to the slow node, cut there, and
  -- what stood behind. The slow node is never NULL.
  pub split_walk : List A → List A → List A × List A
  split_walk (f ∷ g ∷ fast) (s ∷ slow) =
      let (front, back) = split_walk fast slow in (s ∷ front, back)
  split_walk fast (s ∷ slow) = (s ∷ [], slow)
  split_walk fast [] = ([], [])

  pub split : List A → List A × List A
  unfolding split_walk
  split [] = ([], [])
  split (x ∷ rest) = split_walk rest (x ∷ rest)

  pub merge : (A → A → ℤ) → List A → List A → List A
  merge cmpfun [] l2 = []
  merge cmpfun (x ∷ l1) [] = []
  merge cmpfun (x ∷ l1) (y ∷ l2) = elim (ltb_ℤ (cmpfun x y) (pos 0)) [
    | true ↦ x ∷ merge cmpfun l1 (y ∷ l2)
    | false ↦ y ∷ merge cmpfun (x ∷ l1) l2
  ]

  -- `merge_sort` with fuel for its recursion; `none` means that the fuel ran out.
  pub merge_sort : ℕ → (A → A → ℤ) → List A → Option (List A)
  merge_sort fuel cmpfun [] = some []
  merge_sort fuel cmpfun (x ∷ []) = some (x ∷ [])
  merge_sort zero cmpfun (x ∷ y ∷ rest) = none
  merge_sort (suc fuel) cmpfun (x ∷ y ∷ rest) =
      let (l1, l2) = split (x ∷ y ∷ rest) in
      merge_sort fuel cmpfun l1 >>= λ s1.
      merge_sort fuel cmpfun l2 >>= λ s2. some (merge cmpfun s1 s2)

  -- `n` is left as it was.
  unfoldable pub list_sort : (A → A → ℤ) → LinkedList A → Option (LinkedList A)
  unfolding merge_sort
  list_sort cmpfun l =
      merge_sort (length l.root) cmpfun l.root >>= λ sorted. some (record l { root = sorted })
