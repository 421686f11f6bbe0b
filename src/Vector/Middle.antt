-- ===== src/Vector/Middle.antt =====
-- daemon/vector.c: `vector_insert_multi` before the end of the vector.
use retif.Common.{
  ℕ, ◌+◌, ◌-◌, ◌*◌, ◌^◌, ◌≤◌, ◌<◌, Bool, true, false, none, leb, ◌==◌, ◌≡◌, refl, arith,
}
use native.Mathlib.Nat.{mul-le-mul_right, mul-lt-mul_of_pos_right}
use retif.Vector.{Vector, addr_diff, vector_insert_multi, move_within, vector_reserve}
use retif.Vector.Elements.{IsValid}
use retif.Vector.Growth.{Reserved, room, no_memory, vector_reserve-Reserved}
use retif.Vector.Insertion.{past_checks, with_room}

module _ {A : Type 0} where
  shifted_too_far :
      (v roomy : Vector A) (pos n res : ℕ) (values : ℕ → A)
      → IsValid v
      → pos < v.size
      → Reserved v (v.size + n) res roomy
      → (res == 0) ≡ true
      → with_room v pos n values res roomy ≡ none
  unfolding move_within
  shifted_too_far v _ pos n _ values h lt (room capacity le fits small) won =
      let below : pos * v.item_size < v.size * v.item_size =
        mul-lt-mul_of_pos_right lt h.has_size in
      let within : v.size * v.item_size ≤ capacity * v.item_size =
        mul-le-mul_right v.item_size fits in
      let far : leb ((pos + n) * v.item_size + addr_diff (v.size * v.item_size) (pos * v.item_size))
            (capacity * v.item_size)
          ≡ false =
        ground (arith, below, within, small) in
      rw far refl
  shifted_too_far v _ pos n _ values h lt no_memory won = absurd (cc)

  -- In a valid vector, `vector_insert_multi` of at least one value before the end is undefined behaviour
  -- whenever there is memory: the operands of the difference that is the length of the `memmove` are
  -- swapped, so that the length is above 2 ^ 63 bytes and leaves the block.
  pub vector_insert_multi-faults :
      (grant : ℕ → Bool) (v : Vector A) (pos : ℕ) (values : ℕ → A) (first last : ℕ)
      → IsValid v
      → ((m : ℕ) → grant m ≡ true → m * v.item_size < 2 ^ 63)
      → first < last
      → last * v.item_size < 2 ^ 63
      → pos < v.size
      → ((vector_reserve grant v (v.size + (last - first))).0 == 0) ≡ true
      → vector_insert_multi grant v pos values first last ≡ none
  vector_insert_multi-faults grant v pos values first last h small lt below inside won =
      past_checks grant (λ r. r ≡ none) v pos values first last h (omega arith) lt below
        (shifted_too_far v _ pos (last - first) _ (λ i. values (first + i)) h inside
          (vector_reserve-Reserved grant v (v.size + (last - first)) h small) won)
