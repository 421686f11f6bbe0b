-- ===== src/Vector/Growth.antt =====
-- daemon/vector.c: `__vector_realloc` and `vector_reserve`, which make room.
use retif.Common.{
  ℕ, ◌*◌, ◌%◌, ◌^◌, ◌≤◌, ◌<◌, Bool, true, false, ◌&&◌, ltb, leb, ◌==◌, ◌≡◌, arith, inl, inr,
  Bool-cases,
}
use retif.Vector.{Vector, vector_realloc, vector_reserve}
use retif.Vector.Elements.{IsValid}

module _ {A : Type 0} where
  -- Room for `n` elements was asked for: the block is large enough and holds what it held, or there is
  -- no memory and the vector is as before.
  pub data Reserved (v : Vector A) (n : ℕ) : ℕ → Vector A → Type 0 where
    room :
        (capacity : ℕ)
        → n ≤ capacity
        → v.size ≤ capacity
        → capacity * v.item_size < 2 ^ 63
        → Reserved v n 0 (record v { capacity = capacity })
    no_memory : Reserved v n 1 v

  Reserved-less :
      (v : Vector A) (n m res : ℕ) (v' : Vector A)
      → Reserved v m res v'
      → (res == 0) ≡ true
      → n ≤ m
      → Reserved v n 0 v'
  Reserved-less v n m _ _ (room capacity le fits small) won less =
      room capacity (omega (arith, le, less)) fits small
  Reserved-less v n m _ _ no_memory won less = absurd (cc)

module _ {A : Type 0} (grant : ℕ → Bool) (v : Vector A) where
  vector_realloc-Reserved :
      (n : ℕ)
      → IsValid v
      → (grant n ≡ true → n * v.item_size < 2 ^ 63)
      → Reserved v n (vector_realloc grant v n false).0 (vector_realloc grant v n false).1
  unfolding vector_realloc
  vector_realloc-Reserved n h small = elim (Bool-cases (v.capacity == n)) [
    | inl same ↦
        let is : v.capacity ≡ n = ground arith in
        rw same (room v.capacity (omega (arith, is)) h.fits h.small)
    | inr differs ↦ elim (Bool-cases (ltb n v.size)) [
      | inl short ↦ rw (differs, short) no_memory
      | inr long ↦ elim (Bool-cases (grant n)) [
        | inl granted ↦
            let fits : v.size ≤ n = ground arith in
            rw (differs, long, granted) (room n (omega arith) fits (small granted))
        | inr denied ↦ rw (differs, long, denied) no_memory
      ]
    ]
  ]

  -- `vector_reserve` either fails and changes nothing, or there is room for `n` elements, the elements
  -- are as before, and the block is still a small one. The hypothesis on `grant` is that no block that
  -- `reallocarray` returns has 2 ^ 63 bytes or more.
  pub vector_reserve-Reserved :
      (n : ℕ)
      → IsValid v
      → ((m : ℕ) → grant m ≡ true → m * v.item_size < 2 ^ 63)
      → Reserved v n (vector_reserve grant v n).0 (vector_reserve grant v n).1
  unfolding vector_reserve
  vector_reserve-Reserved n h small = elim (Bool-cases (leb n v.capacity)) [
    | inl enough ↦
        let le : n ≤ v.capacity = ground arith in rw enough (room v.capacity le h.fits h.small)
    | inr more ↦
        elim (Bool-cases (
          ltb n (v.capacity * 2 % 2 ^ 64)
          && (vector_realloc grant v (v.capacity * 2 % 2 ^ 64) false).0 == 0)) [
            | inl aggressive ↦
                let r = vector_realloc-Reserved (v.capacity * 2 % 2 ^ 64) h (small _) in
                rw (more, aggressive)
                  (Reserved-less v n (v.capacity * 2 % 2 ^ 64) _ _ r (ground arith) (ground arith))
            | inr last_chance ↦ rw (more, last_chance) (vector_realloc-Reserved n h (small n))
          ]
  ]
