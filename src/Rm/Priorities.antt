-- ===== src/Rm/Priorities.antt =====
-- plugins/sched_RM.c, `assign_priorities`: the priorities of the tasks of a processor follow their rates.
use retif.Common.{
  ℕ, ◌+◌, ◌-◌, ◌^◌, ◌<◌, ◌≤◌, false, some, List, [], ◌∷◌, length, get_elem?, All, ◌≡◌, ◌↔◌, refl,
  arith,
}
use retif.Floats.{Floats}
use retif.Task.{task_get_period}
use retif.Taskset.{Heap, Taskset}
use retif.Plugin.{Plugin, udec}
use retif.Rm.{assign_levels, assign_priorities, too_many}
use retif.Rm.Levels.{Distinct, IsGrouped, IsAbove, InOrder, changes, levels, map-All, prio_of}

module _ (k : ℕ → ℕ) where
  -- A list with the longest periods first.
  unfoldable pub Descending : List ℕ → Type 0
  Descending [] = Unit
  Descending (a ∷ rest) = All (λ b. k b ≤ k a) rest × Descending rest

  -- A later task has a priority at least as high, and a higher one if and only if its period is shorter.
  unfoldable pub RateMonotonic : (ℕ → ℕ) → List ℕ → Type 0
  RateMonotonic prio [] = Unit
  RateMonotonic prio (a ∷ rest) =
      All (λ b. (prio a ≤ prio b) × ((prio a < prio b) ↔ (k b < k a))) rest
      × RateMonotonic prio rest

  Descending-IsGrouped :
      (prec : ℕ) (list : List ℕ)
      → All (λ b. k b ≤ prec) list
      → Descending list
      → IsGrouped k prec list
  unfolding Descending IsGrouped
  Descending-IsGrouped prec [] h sorted = tt
  Descending-IsGrouped prec (a ∷ rest) h sorted = (
    (λ ne. map-All rest (λ b le e. ne (omega (arith, le, e, h.0))) sorted.0),
    Descending-IsGrouped (k a) rest sorted.0 sorted.1,
  )

  rate_of_level : {p q x y : ℕ} → y ≤ x → p ≤ q → ((p ≡ q) ↔ (x ≡ y)) → (p < q) ↔ (y < x)
  rate_of_level sorted above level = ground arith

  InOrder-RateMonotonic :
      (prio : ℕ → ℕ) (list : List ℕ)
      → Descending list
      → InOrder k prio list
      → RateMonotonic prio list
  unfolding Descending InOrder RateMonotonic
  InOrder-RateMonotonic prio [] sorted h = tt
  InOrder-RateMonotonic prio (a ∷ rest) sorted h =
      (rates prio a rest sorted.0 h.0, InOrder-RateMonotonic prio rest sorted.1 h.1)
    where
      rates :
          (prio : ℕ → ℕ) (a : ℕ) (rest : List ℕ)
          → All (λ b. k b ≤ k a) rest
          → All (λ b. (prio a ≤ prio b) × ((prio a ≡ prio b) ↔ (k a ≡ k b))) rest
          → All (λ b. (prio a ≤ prio b) × ((prio a < prio b) ↔ (k b < k a))) rest
      rates prio a [] le h = tt
      rates prio a (b ∷ rest) le h =
          ((h.0.0, rate_of_level le.0 h.0.0 h.0.1), rates prio a rest le.1 h.1)

abbrev pub period_of : {F : Type 0} → Heap F → ℕ → ℕ
period_of heap b = task_get_period (heap b)

-- The lowest priority is one above the number that the loop starts from.
in_range :
    (start min max up p k : ℕ)
    → start + 1 ≡ min
    → up + min ≤ max + 1
    → k < 2 ^ 32 - 1
    → (start ≤ p) × (p ≤ start + up) × ((p ≡ start) ↔ (k ≡ 2 ^ 32 - 1))
    → (min ≤ p) × (p ≤ max)
in_range start min max up p k e enough small above = ground arith

pub within :
    (k prio : ℕ → ℕ) (start min max up : ℕ) (list : List ℕ)
    → start + 1 ≡ min
    → up + min ≤ max + 1
    → All (λ b. k b < 2 ^ 32 - 1) list
    → All (IsAbove k start (2 ^ 32 - 1) up prio) list
    → All (λ b. (min ≤ prio b) × (prio b ≤ max)) list
within k prio start min max up [] e enough small above = tt
within k prio start min max up (b ∷ rest) e enough small above = (
  in_range start min max up (prio b) (k b) e enough small.0 above.0,
  within k prio start min max up rest e enough small.1 above.1,
)

pub udec-suc : (n : ℕ) → 1 ≤ n → n < 2 ^ 32 → udec n + 1 ≡ n
udec-suc n one lt = omega arith

pub room_for :
    {F : Type 0} (p : Plugin F) (dist : ℕ)
    → 1 ≤ p.prio_min
    → dist + p.prio_min ≤ p.prio_max + 1
    → p.prio_max < 2 ^ 32
    → too_many p dist ≡ false
room_for p dist one enough top = ground arith

module _ {F : Type 0} (fl : Floats F) where
  -- Where `dist_prio` counts the periods of a processor, the plugin has a priority for each of them,
  -- `prio_min` is at least 1, `prio_max` and `prio_min` plus the number of tasks are below 2^32, and
  -- the processor's tasks are all different, stand longest period first, and have periods below
  -- UINT_MAX, `assign_priorities` does not fault: every task gets a priority from `prio_min` to
  -- `prio_max`, no later task gets a lower one than an earlier task, and it gets a higher one
  -- exactly if its period is shorter.
  pub assign_priorities-RateMonotonic :
      (this : Plugin F) (cpu : ℕ) (heap : Heap F) (ts : Taskset) (dist : ℕ)
      → get_elem? this.tasks cpu ≡ some ts
      → get_elem? this.dist_prio cpu ≡ some dist
      → dist ≡ changes (period_of heap) (2 ^ 32 - 1) ts.tasks.root
      → 1 ≤ this.prio_min
      → dist + this.prio_min ≤ this.prio_max + 1
      → this.prio_max < 2 ^ 32
      → this.prio_min + length ts.tasks.root < 2 ^ 32
      → Distinct ts.tasks.root
      → Descending (period_of heap) ts.tasks.root
      → All (λ b. period_of heap b < 2 ^ 32 - 1) ts.tasks.root
      → (heap' : Heap F) × (assign_priorities fl this cpu heap ≡ some heap')
        × All
            (λ b. (this.prio_min ≤ prio_of heap' b) × (prio_of heap' b ≤ this.prio_max))
            ts.tasks.root
        × RateMonotonic (period_of heap) (prio_of heap') ts.tasks.root
  unfolding assign_priorities
  assign_priorities-RateMonotonic this cpu heap ts dist got got_dist is one enough top room distinct
        sorted small =
      let k = period_of heap in
      let root = ts.tasks.root in
      let e = udec-suc this.prio_min one (omega (arith, room)) in
      let (above, ordered) =
        levels task_get_period (λ t p. refl) k root (udec this.prio_min) (2 ^ 32 - 1) heap
          (λ b. refl) distinct
          (Descending-IsGrouped k (2 ^ 32 - 1) root (map-All root (λ b lt. omega (arith, lt)) small)
            sorted)
          (map-All root (λ b lt. omega (arith, lt)) small) (omega (arith, e, room)) in
      let heap' = assign_levels task_get_period (udec this.prio_min) (2 ^ 32 - 1) heap root in
      (
        heap',
        rw (got, got_dist, room_for this dist one enough top, assign_priorities) refl,
        within k (prio_of heap') (udec this.prio_min) this.prio_min this.prio_max _ root e
            (omega (arith, enough, is)) small above,
        InOrder-RateMonotonic k (prio_of heap') root sorted ordered,
      )
