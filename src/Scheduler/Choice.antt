-- ===== src/Scheduler/Choice.antt =====
-- daemon/retif_scheduler.c: the choice that both loops over the plugins' answers make, in
-- `rtf_scheduler_test_and_assign` and `rtf_scheduler_test_and_modify`.
use retif.Common.{
  ℕ, suc, ◌+◌, false, some, List, [], ◌∷◌, get_elem?, take, All, ◌≡◌, refl, ap, arith,
}
use retif.Plugin.{Verdict, ok, partial, refused, is_ok}
use retif.Scheduler.{Loaded, Chosen, full, best_effort, nobody, or_partial}

unfoldable pub shift : ℕ → Chosen → Chosen
shift i (full j) = full (i + j)
shift i (best_effort j) = best_effort (i + j)
shift i nobody = nobody

pub shift-zero : (c : Chosen) → shift 0 c ≡ c
unfolding shift
shift-zero (full j) = ap full (omega arith)
shift-zero (best_effort j) = ap best_effort (omega arith)
shift-zero nobody = refl

-- The plugin and the result of a choice.
pub data Gives : Chosen → ℕ → Verdict → Type 0 where
  gives_ok : (i : ℕ) → Gives (full i) i ok
  gives_partial : (i : ℕ) → Gives (best_effort i) i partial

-- A plugin's answer is a parameter.
module _ {F : Type 0} (Says : Verdict → Loaded F → Type 0) where
  abbrev pub SaysNotOk : Loaded F → Type 0
  SaysNotOk p = (r : Verdict) × Says r p × (is_ok r ≡ false)

  -- The choice among the plugins: the first that says OK; if none does, the first that says PARTIAL;
  -- if all refuse, none.
  pub data Choice (plugins : List (Loaded F)) : Chosen → Type 0 where
    first_ok :
        (i : ℕ) (p : Loaded F)
        → get_elem? plugins i ≡ some p
        → Says ok p
        → All SaysNotOk (take i plugins)
        → Choice plugins (full i)
    first_partial :
        (i : ℕ) (p : Loaded F)
        → get_elem? plugins i ≡ some p
        → Says partial p
        → All (Says refused) (take i plugins)
        → All SaysNotOk plugins
        → Choice plugins (best_effort i)
    all_refuse : All (Says refused) plugins → Choice plugins nobody

  pub refused-NotOk :
      (plugins : List (Loaded F)) → All (Says refused) plugins → All (SaysNotOk) plugins
  refused-NotOk [] h = tt
  refused-NotOk (p ∷ plugins) h = ((refused, h.0, refl), refused-NotOk plugins h.1)

  -- A first plugin that says PARTIAL, before a choice among the others.
  pub behind_partial :
      (i : ℕ) (p : Loaded F) (plugins : List (Loaded F)) (c : Chosen)
      → Says partial p
      → Choice plugins c
      → (c' : Chosen) × (or_partial partial i (shift (suc i) c) ≡ shift i c')
        × Choice (p ∷ plugins) c'
  unfolding or_partial shift
  behind_partial i p plugins c h (first_ok j q at says before) =
      (full (suc j), ap full (omega arith), first_ok (suc j) q at says ((partial, h, refl), before))
  behind_partial i p plugins c h (first_partial j q at says before others) = (
    best_effort 0,
    ap best_effort (omega arith),
    first_partial 0 p refl h tt ((partial, h, refl), others),
  )
  behind_partial i p plugins c h (all_refuse others) = (
    best_effort 0,
    ap best_effort (omega arith),
    first_partial 0 p refl h tt ((partial, h, refl), refused-NotOk plugins others),
  )

  pub behind_refused :
      (i : ℕ) (p : Loaded F) (plugins : List (Loaded F)) (c : Chosen)
      → Says refused p
      → Choice plugins c
      → (c' : Chosen) × (shift (suc i) c ≡ shift i c') × Choice (p ∷ plugins) c'
  unfolding shift
  behind_refused i p plugins c h (first_ok j q at says before) =
      (full (suc j), ap full (omega arith), first_ok (suc j) q at says ((refused, h, refl), before))
  behind_refused i p plugins c h (first_partial j q at says before others) = (
    best_effort (suc j),
    ap best_effort (omega arith),
    first_partial (suc j) q at says (h, before) ((refused, h, refl), others),
  )
  behind_refused i p plugins c h (all_refuse others) = (nobody, refl, all_refuse (h, others))
