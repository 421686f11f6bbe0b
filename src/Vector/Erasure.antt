-- ===== src/Vector/Erasure.antt =====
-- daemon/vector.c: `vector_erase_multi` and `vector_pop_back`.
use retif.Common.{
  ℕ, zero, suc, length, length-append, subst, ◌+◌, ◌-◌, ◌*◌, ◌^◌, ◌≤◌, ◌<◌, Bool, true, false,
  Option, some, List, ◌++◌, [], ◌∷◌, take, drop, ltb, leb, ◌==◌, ◌≡◌, ◌∙◌, refl, sym, ap, ap₂,
  arith,
}
use mathlib.Core.List.{append-nil, head-eq_of_cons-eq, tail-eq_of_cons-eq}
use mathlib.Core.Option.{some-injective}
use native.Mathlib.Nat.{mul-le-mul_right}
use retif.Vector.{
  Vector, overwrite, move_within, vector_erase_multi, vector_erase, vector_pop_back,
  vector_push_back,
}
use retif.Vector.Elements.{
  IsValid, elements, tabulate, tabulate-same, tabulate-append, take-tabulate, drop-tabulate,
  overwrite-before, overwrite-inside, addr_diff-elements, elements-div, gap-mul,
}
use retif.Vector.Insertion.{Appended, appended, out_of_memory, vector_push_back-Appended}

the_gap : (n : ℕ) → 0 < n → n - (n - 1 + 1) ≡ 0
the_gap n lt = omega arith

module _ {A : Type 0} where
  -- The vector without the elements from `first` to before `last`.
  pub record Erased (v : Vector A) (first last : ℕ) : Type 0 where
    pub after : Vector A
    pub returned : vector_erase_multi v first last ≡ some (0, after)
    pub valid : IsValid after
    pub left : elements after ≡ take first (elements v) ++ drop last (elements v)

  erased_cells :
      (v : Vector A) (first last : ℕ)
      → first ≤ last
      → last ≤ v.size
      → tabulate
          (v.size - (last - first))
          (overwrite v.cells first (v.size - last) (λ i. v.cells (last + i)))
        ≡ take first (elements v) ++ drop last (elements v)
  erased_cells v first last le within =
      let new = λ (i : ℕ). v.cells (last + i) in
      let n : v.size - (last - first) ≡ first + (v.size - last) = omega arith in
      ap (λ k. tabulate k (overwrite v.cells first (v.size - last) new)) n
      ∙ tabulate-append first (v.size - last) (overwrite v.cells first (v.size - last) new)
      ∙ ap₂ (λ xs ys. xs ++ ys)
          (tabulate-same first (overwrite v.cells first (v.size - last) new) v.cells
              (λ i lt. overwrite-before v.cells first (v.size - last) new i lt)
            ∙ sym (take-tabulate first v.size v.cells (omega (arith, le, within))))
          (tabulate-same (v.size - last)
              (λ i. overwrite v.cells first (v.size - last) new (first + i)) new
              (λ i lt. overwrite-inside v.cells first (v.size - last) new i lt)
            ∙ sym (drop-tabulate last v.size v.cells within))

  erased-IsValid :
      (v : Vector A) (first last : ℕ) (cells : ℕ → A)
      → IsValid v
      → IsValid (record v { size = v.size - (last - first); cells = cells })
  erased-IsValid v first last cells h = record {
    has_size = h.has_size;
    fits = omega (arith, h.fits);
    small = h.small;
  }

  -- In a valid vector, `vector_erase_multi` of a range within it never faults and returns 0; exactly the
  -- elements of the range are gone, the others keep their order, and the vector is valid.
  pub vector_erase_multi-Erased :
      (v : Vector A) (first last : ℕ)
      → IsValid v
      → first < last
      → last ≤ v.size
      → Erased v first last
  unfolding vector_erase_multi move_within
  vector_erase_multi-Erased v first last h lt within =
      let le : first ≤ last = omega arith in
      let end_small : v.size * v.item_size ≤ v.capacity * v.item_size =
        mul-le-mul_right v.item_size h.fits in
      let below64 : v.size * v.item_size < 2 ^ 64 = omega (arith, end_small, h.small) in
      let bytes = addr_diff-elements last v.size v.item_size within below64 in
      let gap = gap-mul last v.size v.item_size within in
      let lower : first * v.item_size ≤ last * v.item_size = mul-le-mul_right v.item_size le in
      let t1 : (first == last) ≡ false = ground arith in
      let t2 : ltb last first ≡ false = ground arith in
      let t3 : ltb v.size last ≡ false = ground arith in
      let t4 : leb (first * v.item_size + (v.size - last) * v.item_size) (v.capacity * v.item_size)
          ≡ true =
        ground (arith, gap, lower, end_small) in
      let t5 : leb (last * v.item_size + (v.size - last) * v.item_size) (v.capacity * v.item_size)
          ≡ true =
        ground (arith, gap, end_small) in
      record {
        after = record v {
          size = v.size - (last - first);
          cells = overwrite v.cells first (v.size - last) (λ i. v.cells (last + i));
        };
        returned =
            rw (t1, t2, t3, bytes, t4, t5, elements-div (v.size - last) v.item_size h.has_size)
              refl;
        valid = erased-IsValid v first last _ h;
        left = erased_cells v first last le within;
      }

  -- The last value is copied out and the others are left.
  pub record Popped (v : Vector A) (value : A) (others : List A) : Type 0 where
    pub after : Vector A
    pub returned : vector_pop_back v ≡ some (some value, 0, after)
    pub valid : IsValid after
    pub left : elements after ≡ others

  length-tabulate : (n : ℕ) (f : ℕ → A) → length (tabulate n f) ≡ n
  length-tabulate zero f = refl
  length-tabulate (suc n) f = ap suc (length-tabulate n (λ i. f (suc i)))

  last-tabulate : (n : ℕ) (f : ℕ → A) → 0 < n → tabulate n f ≡ tabulate (n - 1) f ++ f (n - 1) ∷ []
  last-tabulate n f lt =
      let is : n ≡ n - 1 + 1 = omega arith in
      let same : n - 1 + 0 ≡ n - 1 = omega arith in
      ap (λ k. tabulate k f) is
      ∙ tabulate-append (n - 1) 1 f
      ∙ ap (λ i. tabulate (n - 1) f ++ f i ∷ []) same

  snoc-injective : (xs ys : List A) (x y : A) → xs ++ x ∷ [] ≡ ys ++ y ∷ [] → (xs ≡ ys) × (x ≡ y)
  snoc-injective [] [] x y e = (refl, head-eq_of_cons-eq e)
  snoc-injective [] (b ∷ ys) x y e = absurd (omega (arith, ap length e, length-append ys (y ∷ [])))
  snoc-injective (a ∷ xs) [] x y e = absurd (omega (arith, ap length e, length-append xs (x ∷ [])))
  snoc-injective (a ∷ xs) (b ∷ ys) x y e =
      let (same, last) = snoc-injective xs ys x y (tail-eq_of_cons-eq e) in
      (ap₂ (λ z zs. z ∷ zs) (head-eq_of_cons-eq e) same, last)

  -- `vector_pop_back` on a valid vector whose elements are `others` and then `value` never faults: it
  -- copies `value` out, returns 0, and leaves the elements `others` in a valid vector.
  pub vector_pop_back-Popped :
      (v : Vector A) (value : A) (others : List A)
      → IsValid v
      → elements v ≡ others ++ value ∷ []
      → Popped v value others
  unfolding vector_pop_back vector_erase
  vector_pop_back-Popped v value others h are =
      let some_left : 0 < v.size =
        omega (
          arith,
          length-tabulate v.size v.cells,
          ap length are,
          length-append others (value ∷ []),
        ) in
      let up : v.size ≡ v.size - 1 + 1 = omega arith in
      let e =
        vector_erase_multi-Erased v (v.size - 1) (v.size - 1 + 1) h (omega arith) (omega arith) in
      let no : ltb v.size 1 ≡ false = ground arith in
      let (same, last) =
        snoc-injective (tabulate (v.size - 1) v.cells) others (v.cells (v.size - 1)) value
          (sym (last-tabulate v.size v.cells some_left) ∙ are) in
      record {
        after = e.after;
        returned = rw (no, e.returned, last) refl;
        valid = e.valid;
        left =
            e.left
            ∙ ap₂ (λ xs ys. xs ++ ys) (take-tabulate (v.size - 1) v.size v.cells (omega arith))
                (drop-tabulate (v.size - 1 + 1) v.size v.cells (omega arith)
                  ∙ ap (λ k. tabulate k (λ i. v.cells (v.size - 1 + 1 + i)))
                      (the_gap v.size some_left))
            ∙ append-nil (tabulate (v.size - 1) v.cells)
            ∙ same;
      }

  pushed :
      (v v' : Vector A) (value : A) (r : Option (ℕ × Vector A))
      → Appended v (value ∷ []) r
      → r ≡ some (0, v')
      → IsValid v' × (elements v' ≡ elements v ++ value ∷ [])
  pushed v v' value _ (appended after valid same_size are) e =
      subst (λ (x : ℕ × Vector A). IsValid x.1 × (elements x.1 ≡ elements v ++ value ∷ []))
        (some-injective _ _ e) (valid, are)
  pushed v v' value _ out_of_memory e = absurd (cc)

  -- A value that `vector_push_back` has put into a valid vector is what `vector_pop_back` returns next,
  -- and the elements are again those before the push. The hypotheses on sizes are that no block and no
  -- element has 2 ^ 63 bytes or more.
  pub vector_pop_back-push_back :
      (grant : ℕ → Bool) (v v' : Vector A) (value : A)
      → IsValid v
      → ((m : ℕ) → grant m ≡ true → m * v.item_size < 2 ^ 63)
      → v.item_size < 2 ^ 63
      → vector_push_back grant v value ≡ some (0, v')
      → Popped v' value (elements v)
  vector_pop_back-push_back grant v v' value h small one run =
      let (valid, are) =
        pushed v v' value _ (vector_push_back-Appended grant v value h small one) run in
      vector_pop_back-Popped v' value (elements v) valid are
