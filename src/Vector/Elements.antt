-- ===== src/Vector/Elements.antt =====
-- daemon/vector.c: the elements of a vector as a list, and the arithmetic on its block.
use retif.Common.{
  ℕ, zero, suc, ◌+◌, ◌-◌, ◌*◌, ◌/◌, ◌^◌, ◌≤◌, ◌<◌, true, List, [], ◌∷◌, ◌++◌, take, drop, ltb, leb,
  ◌≡◌, ◌∙◌, refl, sym, ap, ap₂, arith,
}
use native.Mathlib.Nat.{mul-div_cancel, add-mul}
use retif.Vector.{Vector, addr_diff, overwrite}

-- The values of a function below `n`.
abbrev pub tabulate {ℓ} : {A : Type ℓ} → ℕ → (ℕ → A) → List A
tabulate zero f = []
tabulate (suc n) f = f 0 ∷ tabulate n (λ i. f (suc i))

module _ {ℓ} {A : Type ℓ} where
  pub tabulate-same :
      (n : ℕ) (f g : ℕ → A) → ((i : ℕ) → i < n → f i ≡ g i) → tabulate n f ≡ tabulate n g
  tabulate-same zero f g h = refl
  tabulate-same (suc n) f g h =
      ap₂ (λ x xs. x ∷ xs) (h 0 (omega arith))
        (tabulate-same n (λ i. f (suc i)) (λ i. g (suc i)) (λ i lt. h (suc i) (omega arith)))

  pub shifted :
      (n m : ℕ) (f g : ℕ → A) → n ≡ m → ((i : ℕ) → f i ≡ g i) → tabulate n f ≡ tabulate m g
  shifted n m f g e h = ap (λ k. tabulate k f) e ∙ tabulate-same m f g (λ i lt. h i)

  pub tabulate-append :
      (n m : ℕ) (f : ℕ → A) → tabulate (n + m) f ≡ tabulate n f ++ tabulate m (λ i. f (n + i))
  tabulate-append zero m f =
      shifted (0 + m) m f (λ i. f (0 + i)) (omega arith) (λ i. ap f (omega arith))
  tabulate-append (suc n) m f =
      let one_more : suc n + m ≡ suc (n + m) = omega arith in
      ap (λ k. tabulate k f) one_more
      ∙ ap (λ xs. f 0 ∷ xs) (tabulate-append n m (λ i. f (suc i)))
      ∙ ap (λ xs. tabulate (suc n) f ++ xs)
          (tabulate-same m (λ i. f (suc (n + i))) (λ i. f (suc n + i)) (λ i lt. ap f (omega arith)))

  pub take-tabulate : (n m : ℕ) (f : ℕ → A) → n ≤ m → take n (tabulate m f) ≡ tabulate n f
  take-tabulate zero m f le = refl
  take-tabulate (suc n) zero f le = absurd (omega arith)
  take-tabulate (suc n) (suc m) f le =
      ap (λ xs. f 0 ∷ xs) (take-tabulate n m (λ i. f (suc i)) (omega arith))

  pub drop-tabulate :
      (n m : ℕ) (f : ℕ → A) → n ≤ m → drop n (tabulate m f) ≡ tabulate (m - n) (λ i. f (n + i))
  drop-tabulate zero m f le =
      shifted m (m - 0) f (λ i. f (0 + i)) (omega arith) (λ i. ap f (omega arith))
  drop-tabulate (suc n) zero f le = absurd (omega arith)
  drop-tabulate (suc n) (suc m) f le =
      drop-tabulate n m (λ i. f (suc i)) (omega arith)
      ∙ shifted (m - n) (suc m - suc n) (λ i. f (suc (n + i))) (λ i. f (suc n + i)) (omega arith)
          (λ i. ap f (omega arith))

  pub overwrite-before :
      (cells : ℕ → A) (dst n : ℕ) (new : ℕ → A) (i : ℕ)
      → i < dst
      → overwrite cells dst n new i ≡ cells i
  overwrite-before cells dst n new i lt = ground arith

  pub overwrite-inside :
      (cells : ℕ → A) (dst n : ℕ) (new : ℕ → A) (i : ℕ)
      → i < n
      → overwrite cells dst n new (dst + i) ≡ new i
  overwrite-inside cells dst n new i lt =
      let is : dst + i - dst ≡ i = omega arith in
      let low : leb dst (dst + i) ≡ true = ground arith in
      let high : ltb (dst + i) (dst + n) ≡ true = ground arith in rw (low, high) (ap new is)

-- The elements of a vector.
abbrev pub elements : {A : Type 0} → Vector A → List A
elements v = tabulate v.size v.cells

-- A vector that the operations keep: its elements fit into its block, and the block is as small as
-- blocks of memory are.
pub record IsValid {A : Type 0} (v : Vector A) : Type 0 where
  pub has_size : 0 < v.item_size
  pub fits : v.size ≤ v.capacity
  pub small : v.capacity * v.item_size < 2 ^ 63

-- Bytes and elements.
pub gap-mul : (a b k : ℕ) → a ≤ b → (b - a) * k + a * k ≡ b * k
gap-mul a b k le =
    let is : b - a + a ≡ b = omega arith in sym (add-mul (b - a) a k) ∙ ap (λ n. n * k) is

pub addr_diff-elements :
    (a b k : ℕ) → a ≤ b → b * k < 2 ^ 64 → addr_diff (a * k) (b * k) ≡ (b - a) * k
addr_diff-elements a b k le small = omega (arith, gap-mul a b k le)

pub elements-div : (n k : ℕ) → 0 < k → n * k / k ≡ n
elements-div n k lt = mul-div_cancel n lt
