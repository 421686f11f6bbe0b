-- ===== src/Floats/Ops.antt =====
-- The operations of `float` that the program uses, and the laws that proofs rely on.
use retif.Common.{ℕ, Bool, true, false, ◌≡◌}
use retif.Common.Int.{ℤ, pos}

pub record Floats (F : Type 0) : Type 0 where
  -- the conversions from `uint64_t` and `int`, and to an unsigned integer
  pub of_nat : ℕ → F
  pub of_int : ℤ → F
  pub to_nat : F → ℕ
  pub add : F → F → F
  pub sub : F → F → F
  pub mul : F → F → F
  pub div : F → F → F
  pub ltb : F → F → Bool
  pub leb : F → F → Bool
  pub eqb : F → F → Bool
  pub is_finite : F → Bool

-- IEEE 754 with gradual underflow: a difference of finite numbers is above zero if the first is not
-- at most the second; a number above zero is not zero; zero is equal to itself and not above itself.
pub record FloatLaws {F : Type 0} (fl : Floats F) : Type 0 where
  pub sub_pos :
      (a b : F)
      → fl.is_finite a ≡ true
      → fl.is_finite b ≡ true
      → fl.leb a b ≡ false
      → fl.ltb (fl.of_int (pos 0)) (fl.sub a b) ≡ true
  pub pos_ne : (a : F) → fl.ltb (fl.of_int (pos 0)) a ≡ true → fl.eqb a (fl.of_int (pos 0)) ≡ false
  pub zero_eq : fl.eqb (fl.of_int (pos 0)) (fl.of_int (pos 0)) ≡ true
