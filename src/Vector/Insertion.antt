-- ===== src/Vector/Insertion.antt =====
-- daemon/vector.c: `vector_insert_multi` and `vector_push_back`.
use retif.Common.{
  ℕ, ◌+◌, ◌-◌, ◌*◌, ◌/◌, ◌%◌, ◌^◌, ◌≤◌, ◌<◌, Bool, true, false, not, Option, some, List, ◌++◌, [],
  ◌∷◌, ltb, leb, ◌==◌, if◌then◌else◌, ◌>>=◌, ◌≡◌, ◌∙◌, refl, ap₂, arith,
}
use native.Mathlib.Nat.{add-mul, mul-le-mul_right, le-mul_of_pos_right}
use retif.Vector.{
  Vector, addr_diff, overwrite, vector_at, vector_end, vector_insert_multi, vector_push_back,
  vector_insert, move_within, copy_into, vector_reserve,
}
use retif.Vector.Elements.{
  IsValid, elements, tabulate, tabulate-same, tabulate-append, overwrite-before, overwrite-inside,
  addr_diff-elements, elements-div,
}
use retif.Vector.Growth.{Reserved, room, no_memory, vector_reserve-Reserved}

-- Guards that do not hold.
past_guards :
    {R : Type 0} (P : R → Type 0) {b1 b2 b3 b4 : Bool} (x1 x2 x3 x4 : R) {rest : R}
    → b1 ≡ false
    → b2 ≡ false
    → b3 ≡ false
    → b4 ≡ false
    → P rest
    → P (if b1 then x1 else if b2 then x2 else if b3 then x3 else if b4 then x4 else rest)
past_guards P x1 x2 x3 x4 e1 e2 e3 e4 h = rw (e1, e2, e3, e4) h

module _ {A : Type 0} where
  -- The elements `new` were put behind those of `v`, or there was no memory and `v` is as before.
  pub data Appended (v : Vector A) (new : List A) : Option (ℕ × Vector A) → Type 0 where
    appended :
        (v' : Vector A)
        → IsValid v'
        → v'.item_size ≡ v.item_size
        → elements v' ≡ elements v ++ new
        → Appended v new (some (0, v'))
    out_of_memory : Appended v new (some (1, v))

  -- The two copies at the end of a vector with enough room: nothing is moved away.
  copied :
      (v : Vector A) (capacity n : ℕ) (values : ℕ → A)
      → IsValid v
      → v.size + n ≤ capacity
      → v.size ≤ capacity
      → capacity * v.item_size < 2 ^ 63
      → Appended v (tabulate n values) (
          move_within
            (record v { capacity = capacity })
            (v.size + n)
            v.size
            (addr_diff (v.size * v.item_size) (v.size * v.item_size))
          >>= λ moved. copy_into moved v.size (n * v.item_size) values >>= λ copied.
              some (0, record copied { size = v.size + n }))
  unfolding move_within copy_into
  copied v capacity n values h le fits small =
      let unmoved : addr_diff (v.size * v.item_size) (v.size * v.item_size) ≡ 0 = omega arith in
      let new_end : (v.size + n) * v.item_size ≤ capacity * v.item_size =
        mul-le-mul_right v.item_size le in
      let old_end : v.size * v.item_size ≤ capacity * v.item_size =
        mul-le-mul_right v.item_size fits in
      let t1 : leb ((v.size + n) * v.item_size + 0) (capacity * v.item_size) ≡ true =
        ground arith in
      let t2 : leb (v.size * v.item_size + 0) (capacity * v.item_size) ≡ true = ground arith in
      let t3 : leb (v.size * v.item_size + n * v.item_size) (capacity * v.item_size) ≡ true =
        ground (arith, add-mul v.size n v.item_size) in
      let moved = overwrite v.cells (v.size + n) (0 / v.item_size) (λ i. v.cells (v.size + i)) in
      rw (unmoved, t1, t2, t3, elements-div n v.item_size h.has_size)
        (appended _ (record { has_size = h.has_size; fits = le; small = small }) refl
          (tabulate-append v.size n (overwrite moved v.size n values)
            ∙ ap₂ (λ xs ys. xs ++ ys)
                (tabulate-same v.size (overwrite moved v.size n values) v.cells (λ i lt.
                  overwrite-before moved v.size n values i lt
                  ∙ overwrite-before v.cells (v.size + n) (0 / v.item_size)
                      (λ i. v.cells (v.size + i)) i (omega arith)))
                (tabulate-same n (λ i. overwrite moved v.size n values (v.size + i)) values
                  (λ i lt. overwrite-inside moved v.size n values i lt))))

  -- What `vector_insert_multi` does when it has made room for `n` values.
  abbrev pub with_room : Vector A → ℕ → ℕ → (ℕ → A) → ℕ → Vector A → Option (ℕ × Vector A)
  with_room v pos n values res roomy =
      if not (res == 0)
      then some (1, roomy)
      else (move_within roomy (pos + n) pos (addr_diff (vector_end roomy) (vector_at roomy pos))
          >>= λ moved. copy_into moved pos (n * v.item_size) values >>= λ copied.
              some (0, record copied { size = v.size + n }))

  reserved :
      (v roomy : Vector A) (n res : ℕ) (values : ℕ → A)
      → IsValid v
      → Reserved v (v.size + n) res roomy
      → Appended v (tabulate n values) (with_room v v.size n values res roomy)
  reserved v _ n _ values h (room capacity le fits small) =
      copied v capacity n values h le fits small
  reserved v _ n _ values h no_memory = out_of_memory

  module _ (grant : ℕ → Bool) where
    -- The checks that a proper insertion passes.
    pub past_checks :
        (P : Option (ℕ × Vector A) → Type 0) (v : Vector A) (pos : ℕ) (values : ℕ → A)
        (first last : ℕ)
        → IsValid v
        → pos ≤ v.size
        → first < last
        → last * v.item_size < 2 ^ 63
        → (let r = vector_reserve grant v (v.size + (last - first)) in
            P (with_room v pos (last - first) (λ i. values (first + i)) r.0 r.1))
        → P (vector_insert_multi grant v pos values first last)
    unfolding vector_insert_multi
    past_checks P v pos values first last h inside lt below rest =
        let n = last - first in
        let le : first ≤ last = omega arith in
        let below64 : last * v.item_size < 2 ^ 64 = omega (arith, below) in
        let diff = addr_diff-elements first last v.item_size le below64 in
        let size_small : v.size * v.item_size ≤ v.capacity * v.item_size =
          mul-le-mul_right v.item_size h.fits in
        let des : (v.size + n) % 2 ^ 64 ≡ v.size + n = omega (
          arith,
          below,
          h.small,
          size_small,
          le-mul_of_pos_right v.size h.has_size,
          le-mul_of_pos_right last h.has_size,
        ) in
        let t1 : (first == last) ≡ false = ground arith in
        let t2 : ltb last first ≡ false = ground arith in
        let t3 : ltb v.size pos ≡ false = ground arith in
        let t4 : ltb (v.size + n) v.size ≡ false = ground arith in
        rw (diff, elements-div n v.item_size h.has_size, des)
          (past_guards P _ _ _ _ t1 t2 t3 t4 rest)

    -- In a valid vector, if no block that `reallocarray` returns has 2 ^ 63 bytes or more and the values
    -- from `first` to before `last` lie in memory below that address, `vector_insert_multi` at the end of
    -- the vector puts those values behind its elements and leaves it valid, or returns 1 and leaves it as
    -- it was.
    pub vector_insert_multi-Appended :
        (v : Vector A) (values : ℕ → A) (first last : ℕ)
        → IsValid v
        → ((m : ℕ) → grant m ≡ true → m * v.item_size < 2 ^ 63)
        → first < last
        → last * v.item_size < 2 ^ 63
        → Appended v
            (tabulate (last - first) (λ i. values (first + i)))
            (vector_insert_multi grant v v.size values first last)
    vector_insert_multi-Appended v values first last h small lt below =
        past_checks (Appended v (tabulate (last - first) (λ i. values (first + i)))) v v.size values
          first last h (omega arith) lt below
          (reserved v _ (last - first) _ (λ i. values (first + i)) h
            (vector_reserve-Reserved grant v (v.size + (last - first)) h small))

    -- `vector_push_back` puts one element behind the others and leaves a valid vector, or returns 1 for
    -- want of memory and leaves the vector as it was; no other result is possible. The hypotheses are
    -- that the vector is valid, and that no block that `reallocarray` returns, and no element, has 2 ^ 63
    -- bytes or more.
    pub vector_push_back-Appended :
        (v : Vector A) (value : A)
        → IsValid v
        → ((m : ℕ) → grant m ≡ true → m * v.item_size < 2 ^ 63)
        → v.item_size < 2 ^ 63
        → Appended v (value ∷ []) (vector_push_back grant v value)
    unfolding vector_push_back vector_insert
    vector_push_back-Appended v value h small one =
        vector_insert_multi-Appended v (λ i. value) 0 1 h small (omega arith) (omega (arith, one))
