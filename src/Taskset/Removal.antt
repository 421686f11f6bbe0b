-- ===== src/Taskset/Removal.antt =====
-- daemon/retif_taskset.c, the removals: by reservation, and all the tasks of a process.
use retif.Common.{
  ℕ, zero, suc, ◌<◌, Bool, true, false, Option, none, some, List, [], ◌∷◌, ◌++◌, length,
  length-append, All, if◌then◌else◌, ◌≡◌, ◌∙◌, ◌⊎◌, refl, sym, ap, arith, inl, inr,
}
use retif.LinkedList.{LinkedList, IsCounted}
use retif.LinkedList.Remove.{list_remove-Removed, RemovedFirst, absent, gone}
use retif.Taskset.{
  Taskset, Heap, taskset_cmp_ppid, taskset_remove_by_ppid, remove_all_by_ppid,
  taskset_remove_all_by_ppid,
}

-- The entries that a test passes over, in order.
unfoldable pub without {ℓ} : {A : Type ℓ} → (A → Bool) → List A → List A
without test [] = []
without test (x ∷ xs) = if test x then without test xs else x ∷ without test xs

pub without_none {ℓ} :
    {A : Type ℓ} (test : A → Bool) (xs : List A)
    → All (λ x. test x ≡ false) xs
    → without test xs ≡ xs
unfolding without
without_none test [] h = refl
without_none test (x ∷ xs) h = rw (h.0, without) (ap (◌∷◌ x) (without_none test xs h.1))

pub without-remove {ℓ} :
    {A : Type ℓ} (test : A → Bool) (before rest : List A) (x : A)
    → test x ≡ true
    → without test (before ++ x ∷ rest) ≡ without test (before ++ rest)
unfolding without
without-remove test [] rest x hit = rw (hit, without)
without-remove test (b ∷ before) rest x hit = rw (without-remove test before rest x hit)

-- One removal either finds nothing, or keeps what would stay and shortens the chain.
pub RemovedFirst-without {ℓ} :
    {A : Type ℓ} (test : A → Bool) {chain after : List A} {elem : Option A}
    → RemovedFirst test chain elem after
    → ((elem ≡ none) × (without test chain ≡ after))
      ⊎ ((x : A) × (elem ≡ some x)
          × (without test chain ≡ without test after)
          × (length after < length chain))
RemovedFirst-without test {chain = chain} (absent h) = inl (refl, without_none test chain h)
RemovedFirst-without test (gone before x rest was passed hit) = inr (
  x,
  refl,
  ap (without test) was ∙ without-remove test before rest x hit,
  omega (arith, ap length was, length-append before (x ∷ rest), length-append before rest),
)

module _ {F : Type 0} (heap : Heap F) where
  remove_all_of_fuel :
      (fuel : ℕ) (ts : Taskset) (ppid : ℕ)
      → IsCounted ts.tasks
      → length ts.tasks.root < fuel
      → (after : LinkedList ℕ) × (remove_all_by_ppid heap fuel ts ppid
          ≡ some (record { tasks = after }))
        × (after.root ≡ without (taskset_cmp_ppid heap ppid) ts.tasks.root)
        × IsCounted after
  unfolding remove_all_by_ppid taskset_remove_by_ppid
  remove_all_of_fuel zero ts ppid c h = absurd (omega arith)
  remove_all_of_fuel (suc fuel) ts ppid c h =
      let r = list_remove-Removed (taskset_cmp_ppid heap ppid) ts.tasks c in
      elim (RemovedFirst-without (taskset_cmp_ppid heap ppid) r.first) [
        | inl (nothing, same) ↦ (r.after, rw (r.returned, nothing) refl, sym same, r.counted)
        | inr (x, removed, kept, shorter) ↦
            let (after, run, is, counted) =
              remove_all_of_fuel fuel (record { tasks = r.after }) ppid r.counted (omega arith) in
            (after, rw (r.returned, removed) run, is ∙ sym kept, counted)
      ]

  -- On a task set whose counter is right, the loop of `rtf_taskset_remove_all_by_ppid` ends after at
  -- most one round more than there are tasks, without a fault: the tasks of the process `ppid` are
  -- gone, all the others stand in their order, and the counter is right.
  pub taskset_remove_all_by_ppid-without :
      (ts : Taskset) (ppid : ℕ)
      → IsCounted ts.tasks
      → (after : LinkedList ℕ) × (taskset_remove_all_by_ppid heap ts ppid
          ≡ some (record { tasks = after }))
        × (after.root ≡ without (taskset_cmp_ppid heap ppid) ts.tasks.root)
        × IsCounted after
  unfolding taskset_remove_all_by_ppid
  taskset_remove_all_by_ppid-without ts ppid c =
      remove_all_of_fuel (suc ts.tasks.n) ts ppid c (omega arith)
