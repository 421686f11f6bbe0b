-- ===== src/Config/Cores.antt =====
-- daemon/retif_config.c, `plugins_have_common_cpus`: the loop finds a common core of sorted lists.
use retif.Common.{
  ℕ, zero, suc, ◌+◌, ◌<◌, Bool, true, false, List, [], ◌∷◌, length, All, ◌≡◌, refl, ◌∙◌, sym, ap,
  ◌↔◌, subst, arith, inl, inr, Bool-cases,
}
use mathlib.Core.List.{Memᴰ}
use retif.Common.Int.{ℤ, pos, negsuc, ltb_ℤ}
use retif.Config.{ConfPlugin, common_from, plugins_have_common_cpus}

-- A core of both lists.
pub record Shared (xs ys : List ℤ) : Type 0 where
  pub core : ℤ
  pub in_first : Memᴰ core xs
  pub in_second : Memᴰ core ys

-- Each core is above those before it.
unfoldable pub IsAscending : List ℤ → Type 0
IsAscending [] = Unit
IsAscending (x ∷ xs) = All (λ y. ltb_ℤ x y ≡ true) xs × IsAscending xs

ltb_ℤ-trans : (a b c : ℤ) → ltb_ℤ a b ≡ true → ltb_ℤ b c ≡ true → ltb_ℤ a c ≡ true
ltb_ℤ-trans a b c h k = ground arith

ltb_ℤ-irrefl : (a : ℤ) → ltb_ℤ a a ≡ false
ltb_ℤ-irrefl a = ground arith

ltb_ℤ-connex : (a b : ℤ) → ltb_ℤ a b ≡ false → ltb_ℤ b a ≡ false → a ≡ b
ltb_ℤ-connex (pos a) (pos b) h k = let e : a ≡ b = ground arith in ap pos e
ltb_ℤ-connex (pos a) (negsuc b) h k = absurd (ground arith)
ltb_ℤ-connex (negsuc a) (pos b) h k = absurd (ground arith)
ltb_ℤ-connex (negsuc a) (negsuc b) h k = let e : a ≡ b = ground arith in ap negsuc e

pub clash : {b : Bool} → b ≡ true → b ≡ false → ⊥
clash h k = cc

-- A member of an ascending list is its head or above it.
above_head : (x c : ℤ) (xs : List ℤ) → All (λ y. ltb_ℤ x y ≡ true) xs → Memᴰ c xs → ltb_ℤ x c ≡ true
above_head x c [] h m = elim m [ ]
above_head x c (y ∷ ys) h (Memᴰ.head e) = subst (λ z. ltb_ℤ x z ≡ true) (sym e) h.0
above_head x c (y ∷ ys) h (Memᴰ.tail m) = above_head x c ys h.1 m

common_from-Shared : (fuel : ℕ) (xs ys : List ℤ) → common_from fuel xs ys ≡ true → Shared xs ys
unfolding common_from
common_from-Shared zero xs ys h = absurd (cc)
common_from-Shared (suc fuel) [] ys h = absurd (cc)
common_from-Shared (suc fuel) (x ∷ xs) [] h = absurd (cc)
common_from-Shared (suc fuel) (x ∷ xs) (y ∷ ys) h = elim (Bool-cases (ltb_ℤ x y)) [
  | inl below ↦
      let s = common_from-Shared fuel xs (y ∷ ys) (rw below at h) in
      record { core = s.core; in_first = Memᴰ.tail s.in_first; in_second = s.in_second }
  | inr not_below ↦ elim (Bool-cases (ltb_ℤ y x)) [
    | inl above ↦
        let s = common_from-Shared fuel (x ∷ xs) ys (rw (not_below, above) at h) in
        record { core = s.core; in_first = s.in_first; in_second = Memᴰ.tail s.in_second }
    | inr not_above ↦ record {
      core = x;
      in_first = Memᴰ.head refl;
      in_second = Memᴰ.head (ltb_ℤ-connex x y not_below not_above);
    }
  ]
]

-- A shared core is in what is left after a turn that takes off the lower head.
rest_shared :
    (x y c : ℤ) (xs ys : List ℤ)
    → IsAscending (y ∷ ys)
    → ltb_ℤ x y ≡ true
    → Memᴰ c (x ∷ xs)
    → Memᴰ c (y ∷ ys)
    → Memᴰ c xs
unfolding IsAscending
rest_shared x y c xs ys h lt (Memᴰ.tail m) n = m
rest_shared x y c xs ys h lt (Memᴰ.head e) (Memᴰ.head e') =
    absurd (clash (subst (λ z. ltb_ℤ x z ≡ true) (sym e' ∙ e) lt) (ltb_ℤ-irrefl x))
rest_shared x y c xs ys h lt (Memᴰ.head e) (Memᴰ.tail n) =
    let up = ltb_ℤ-trans x y c lt (above_head y c ys h.0 n) in
    absurd (clash (subst (λ z. ltb_ℤ x z ≡ true) e up) (ltb_ℤ-irrefl x))

common_from_complete :
    (fuel : ℕ) (xs ys : List ℤ) (c : ℤ)
    → IsAscending xs
    → IsAscending ys
    → length xs + length ys < fuel
    → Memᴰ c xs
    → Memᴰ c ys
    → common_from fuel xs ys ≡ true
unfolding common_from IsAscending
common_from_complete zero xs ys c h k lt m n = absurd (omega arith)
common_from_complete (suc fuel) [] ys c h k lt m n = elim m [ ]
common_from_complete (suc fuel) (x ∷ xs) [] c h k lt m n = elim n [ ]
common_from_complete (suc fuel) (x ∷ xs) (y ∷ ys) c h k lt m n = elim (Bool-cases (ltb_ℤ x y)) [
  | inl below ↦ rw below (
      common_from_complete fuel xs (y ∷ ys) c h.1 k (omega arith)
        (rest_shared x y c xs ys k below m n) n)
  | inr not_below ↦ elim (Bool-cases (ltb_ℤ y x)) [
    | inl above ↦
        rw (not_below, above)
          (common_from_complete fuel (x ∷ xs) ys c h k.1 (omega arith) m
            (rest_shared y x c ys xs h above n m))
    | inr not_above ↦ rw (not_below, not_above) refl
  ]
]

-- For two plugins whose lists of cores are in ascending order, `plugins_have_common_cpus` is true exactly
-- if some core is in both lists.
pub plugins_have_common_cpus-Shared :
    (p1 p2 : ConfPlugin)
    → IsAscending p1.cores
    → IsAscending p2.cores
    → (plugins_have_common_cpus p1 p2 ≡ true) ↔ Shared p1.cores p2.cores
unfolding plugins_have_common_cpus
plugins_have_common_cpus-Shared p1 p2 h k = (
  common_from-Shared (suc (length p1.cores + length p2.cores)) p1.cores p2.cores,
  λ s.
      common_from_complete (suc (length p1.cores + length p2.cores)) p1.cores p2.cores s.core h k
        (omega arith) s.in_first s.in_second,
)
