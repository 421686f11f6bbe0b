-- ===== src/Floats/Fixed.antt =====
-- Numbers in millionths, for runs and witnesses: an instance of the `float` parameter and its laws.
use retif.Common.{ℕ, ◌*◌, ◌/◌, Bool, true, false, ◌&&◌, not, ◌≡◌, refl, arith}
use retif.Common.Int.{ℤ, pos, pos_part, ◌+ℤ◌, ◌-ℤ◌, ◌*ℤ◌, ltb_ℤ}
use retif.Floats.Ops.{Floats, FloatLaws}

abbrev scale : ℕ
scale = 1_000_000

abbrev pub leb_ℤ : ℤ → ℤ → Bool
leb_ℤ a b = not (ltb_ℤ b a)

abbrev pub fixed : Floats ℤ
fixed = record {
  of_nat = λ n. pos (n * scale);
  of_int = λ z. z *ℤ pos scale;
  to_nat = λ z. pos_part z / scale;
  add = ◌+ℤ◌;
  sub = ◌-ℤ◌;
  mul = λ a b. pos (pos_part a * pos_part b / scale);
  div = λ a b. pos (pos_part a * scale / pos_part b);
  ltb = ltb_ℤ;
  leb = leb_ℤ;
  eqb = λ a b. leb_ℤ a b && leb_ℤ b a;
  is_finite = λ a. true;
}

sub_pos : (a b : ℤ) → leb_ℤ a b ≡ false → ltb_ℤ (pos 0 *ℤ pos scale) (a -ℤ b) ≡ true
unfolding ◌-ℤ◌ ◌*ℤ◌
sub_pos a b h = ground arith

pos_ne :
    (a : ℤ)
    → ltb_ℤ (pos 0 *ℤ pos scale) a ≡ true
    → (leb_ℤ a (pos 0 *ℤ pos scale) && leb_ℤ (pos 0 *ℤ pos scale) a) ≡ false
unfolding ◌*ℤ◌
pos_ne a h = ground arith

zero_eq : fixed.eqb (fixed.of_int (pos 0)) (fixed.of_int (pos 0)) ≡ true
unfolding ◌*ℤ◌
zero_eq = refl

pub fixed-FloatLaws : FloatLaws fixed
fixed-FloatLaws = record {
  sub_pos = λ a b _ _ h. sub_pos a b h;
  pos_ne = pos_ne;
  zero_eq = zero_eq;
}
