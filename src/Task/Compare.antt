-- ===== src/Task/Compare.antt =====
-- daemon/retif_task.c, `task_cmp`: what its sign tells, and that it orders the tasks.
use retif.Common.{ℕ, Bool, false, ltb, ◌≡◌, refl, arith, Bool-cases, inl, inr, ◌==◌, if◌then◌else◌}
use retif.Common.Int.{ℤ, pos, negsuc, ◌*ℤ◌}
use retif.LinkedList.Insert.{is_above, IsComparison}
use retif.LinkedList.Sort.{is_below, IsMergeOrder}
use retif.Task.{
  Task, Param, runtime, period, deadline, priority, task_cmp, cmp_field, three_way, is_flag, asc,
  dsc,
}

module _ {F : Type 0} where
  -- The field that a `Param` names.
  abbrev pub field : Param → Task F → ℕ
  field runtime t = t.params.runtime
  field period t = t.params.period
  field deadline t = t.params.deadline
  field priority t = t.params.priority

  cmp_field-three_way :
      (p : Param) (t1 t2 : Task F) → cmp_field p t1 t2 ≡ three_way (field p t1) (field p t2)
  unfolding cmp_field
  cmp_field-three_way runtime t1 t2 = refl
  cmp_field-three_way period t1 t2 = refl
  cmp_field-three_way deadline t1 t2 = refl
  cmp_field-three_way priority t1 t2 = refl

flip : (a b : ℕ) → negsuc 0 *ℤ three_way a b ≡ three_way b a
unfolding ◌*ℤ◌
flip a b = ground arith

keep : (a b : ℕ) → pos 1 *ℤ three_way a b ≡ three_way a b
unfolding ◌*ℤ◌
keep a b = ground arith

-- The two orders that a flag can ask for.
abbrev is_descending : ℤ → Bool
is_descending (pos n) = false
is_descending (negsuc n) = n == 0

chosen_flag :
    (flag : ℤ) → (if is_flag flag then flag else asc) ≡ (if is_descending flag then dsc else asc)
chosen_flag (pos n) = ground arith
chosen_flag (negsuc n) = ground arith

module _ {F : Type 0} where
  task_cmp-three_way :
      (t1 t2 : Task F) (p : Param) (flag : ℤ)
      → task_cmp t1 t2 p flag ≡ (
          if is_descending flag
          then three_way (field p t2) (field p t1)
          else three_way (field p t1) (field p t2))
  unfolding task_cmp
  task_cmp-three_way t1 t2 p flag = elim (Bool-cases (is_descending flag)) [
    | inl down ↦
        rw (chosen_flag flag, down, cmp_field-three_way p t1 t2) (flip (field p t1) (field p t2))
    | inr up ↦
        rw (chosen_flag flag, up, cmp_field-three_way p t1 t2) (keep (field p t1) (field p t2))
  ]

  -- `task_cmp` is above zero exactly when the field of the first task is above that of the second for
  -- the flag ASC, and below it for DSC; any other flag counts as ASC.
  pub task_cmp-above :
      (t1 t2 : Task F) (p : Param) (flag : ℤ)
      → is_above (λ a b. task_cmp a b p flag) t1 t2 ≡ (
          if is_descending flag
          then ltb (field p t1) (field p t2)
          else ltb (field p t2) (field p t1))
  task_cmp-above t1 t2 p flag = elim (Bool-cases (is_descending flag)) [
    | inl down ↦ rw (task_cmp-three_way t1 t2 p flag, down) (ground arith)
    | inr up ↦ rw (task_cmp-three_way t1 t2 p flag, up) (ground arith)
  ]

  pub task_cmp-below :
      (t1 t2 : Task F) (p : Param) (flag : ℤ)
      → is_below (λ a b. task_cmp a b p flag) t1 t2 ≡ (
          if is_descending flag
          then ltb (field p t2) (field p t1)
          else ltb (field p t1) (field p t2))
  task_cmp-below t1 t2 p flag = elim (Bool-cases (is_descending flag)) [
    | inl down ↦ rw (task_cmp-three_way t1 t2 p flag, down) (ground arith)
    | inr up ↦ rw (task_cmp-three_way t1 t2 p flag, up) (ground arith)
  ]

  -- With every parameter and every flag `task_cmp` is an order that `list_add_sorted` can insert by.
  pub task_cmp-IsComparison :
      (p : Param) (flag : ℤ) → IsComparison (λ (a b : Task F). task_cmp a b p flag)
  task_cmp-IsComparison p flag = record {
    total = λ a b h. ground (arith, task_cmp-above a b p flag, task_cmp-above b a p flag);
    transitive = λ a b c h k.
        ground
          (arith, task_cmp-above a b p flag, task_cmp-above b c p flag, task_cmp-above a c p flag);
  }

  -- And it is an order that `list_sort` can merge by.
  pub task_cmp-IsMergeOrder :
      (p : Param) (flag : ℤ) → IsMergeOrder (λ (a b : Task F). task_cmp a b p flag)
  task_cmp-IsMergeOrder p flag = record {
    irreflexive = λ a. ground (arith, task_cmp-below a a p flag);
    asymmetric = λ a b h. ground (arith, task_cmp-below a b p flag, task_cmp-below b a p flag);
    transitive = λ a b c h k.
        ground
          (arith, task_cmp-below a b p flag, task_cmp-below b c p flag, task_cmp-below a c p flag);
  }
