-- ===== src/Rr/Priorities.antt =====
-- plugins/sched_RR.c, `assign_priorities`: the tasks of a processor keep the order of their declared
-- priorities.
use retif.Common.{
  ℕ, ◌+◌, ◌-◌, ◌^◌, ◌<◌, ◌≤◌, some, List, [], ◌∷◌, length, get_elem?, All, ◌≡◌, refl, arith,
}
use retif.Floats.{Floats}
use retif.Task.{task_get_priority}
use retif.Taskset.{Heap, Taskset}
use retif.Plugin.{Plugin, Kernel, udec}
use retif.Rm.{assign_levels}
use retif.Rm.Levels.{Distinct, IsGrouped, InOrder, changes, levels, map-All, prio_of}
use retif.Rm.Priorities.{within, room_for, udec-suc}
use retif.Rr.{assign_priorities}

abbrev pub declared : {F : Type 0} → Heap F → ℕ → ℕ
declared heap b = task_get_priority (heap b)

-- A list with the lowest declared priorities first.
unfoldable pub Ascending : (ℕ → ℕ) → List ℕ → Type 0
Ascending k [] = Unit
Ascending k (a ∷ rest) = All (λ b. k a ≤ k b) rest × Ascending k rest

Ascending-IsGrouped :
    (k : ℕ → ℕ) (prec : ℕ) (list : List ℕ)
    → All (λ b. prec ≤ k b) list
    → Ascending k list
    → IsGrouped k prec list
unfolding Ascending IsGrouped
Ascending-IsGrouped k prec [] h sorted = tt
Ascending-IsGrouped k prec (a ∷ rest) h sorted = (
  (λ ne. map-All rest (λ b le e. ne (omega (arith, le, e, h.0))) sorted.0),
  Ascending-IsGrouped k (k a) rest sorted.0 sorted.1,
)

-- The loop starts from a key that no task has.
start-IsGrouped :
    (k : ℕ → ℕ) (prec : ℕ) (list : List ℕ)
    → All (λ b. k b < prec) list
    → Ascending k list
    → IsGrouped k prec list
unfolding Ascending IsGrouped
start-IsGrouped k prec [] h sorted = tt
start-IsGrouped k prec (a ∷ rest) h sorted = (
  (λ ne. map-All rest (λ b lt e. omega (arith, lt, e)) h.1),
  Ascending-IsGrouped k (k a) rest sorted.0 sorted.1,
)

module _ {F : Type 0} (k : Kernel) (fl : Floats F) where
  -- Where `dist_prio` counts the declared priorities of a processor, the plugin has a priority for
  -- each of them, `prio_min` is at least 1, `prio_max` and `prio_min` plus the number of tasks are
  -- below 2^32, and the processor's tasks are all different, stand lowest declared priority first,
  -- and declare less than UINT_MAX, `assign_priorities` does not fault: every task gets a priority
  -- from `prio_min` to `prio_max`, no later task gets a lower one than an earlier task, and the two
  -- get the same exactly if they declare the same.
  pub assign_priorities-InOrder :
      (this : Plugin F) (cpu : ℕ) (heap : Heap F) (ts : Taskset) (dist : ℕ)
      → get_elem? this.tasks cpu ≡ some ts
      → get_elem? this.dist_prio cpu ≡ some dist
      → dist ≡ changes (declared heap) (2 ^ 32 - 1) ts.tasks.root
      → 1 ≤ this.prio_min
      → dist + this.prio_min ≤ this.prio_max + 1
      → this.prio_max < 2 ^ 32
      → this.prio_min + length ts.tasks.root < 2 ^ 32
      → Distinct ts.tasks.root
      → Ascending (declared heap) ts.tasks.root
      → All (λ b. declared heap b < 2 ^ 32 - 1) ts.tasks.root
      → (heap' : Heap F) × (assign_priorities k fl this cpu heap ≡ some heap')
        × All
            (λ b. (this.prio_min ≤ prio_of heap' b) × (prio_of heap' b ≤ this.prio_max))
            ts.tasks.root
        × InOrder (declared heap) (prio_of heap') ts.tasks.root
  unfolding assign_priorities
  assign_priorities-InOrder this cpu heap ts dist got got_dist is one enough top room distinct
        sorted small =
      let key = declared heap in
      let root = ts.tasks.root in
      let e = udec-suc this.prio_min one (omega (arith, room)) in
      let (above, ordered) =
        levels task_get_priority (λ t p. refl) key root (udec this.prio_min) (2 ^ 32 - 1) heap
          (λ b. refl) distinct (start-IsGrouped key (2 ^ 32 - 1) root small sorted)
          (map-All root (λ b lt. omega (arith, lt)) small) (omega (arith, e, room)) in
      let heap' = assign_levels task_get_priority (udec this.prio_min) (2 ^ 32 - 1) heap root in
      (
        heap',
        rw (got, got_dist, room_for this dist one enough top, assign_priorities) refl,
        within key (prio_of heap') (udec this.prio_min) this.prio_min this.prio_max _ root e
            (omega (arith, enough, is)) small above,
        ordered,
      )
