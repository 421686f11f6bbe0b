-- ===== src/Scheduler/Reseated.antt =====
-- daemon/retif_scheduler.c, `rtf_scheduler_test_and_modify`: asking for a change keeps the order of the plugins.
use retif.Common.{
  ℕ, suc, zero, some, List, [], ◌∷◌, get_elem?, length, >>=-eq-some, ◌≡◌, ◌∙◌, refl, sym, ap, subst,
  inl, inr, Bool-cases,
}
use mathlib.Core.Option.{some-injective}
use retif.Plugin.{Plugin, World, is_ok}
use retif.Scheduler.{Scheduler, Loaded, OperationsLaws, Chosen, ask_change}
use retif.Scheduler.Placed.{IsPlaced, IsLoaded}

module _ {F : Type 0} where
  -- The same plugins in the same order, each with its identifier and its entry points; their data may
  -- differ otherwise.
  pub data Reseated : List (Loaded F) → List (Loaded F) → Type 0 where
    end : (plugins : List (Loaded F)) → Reseated plugins plugins
    seat :
        (p : Loaded F) (plg : Plugin F) {rest rest' : List (Loaded F)}
        → plg.id ≡ p.plg.id
        → Reseated rest rest'
        → Reseated (p ∷ rest) (record p { plg = plg } ∷ rest')

  pub Reseated-length :
      {plugins plugins' : List (Loaded F)}
      → Reseated plugins plugins'
      → length plugins' ≡ length plugins
  Reseated-length (end plugins) = refl
  Reseated-length (seat p plg same rest) = ap suc (Reseated-length rest)

  Reseated-at :
      {plugins plugins' : List (Loaded F)} (j : ℕ) (q : Loaded F)
      → Reseated plugins plugins'
      → get_elem? plugins' j ≡ some q
      → (p : Loaded F) × (get_elem? plugins j ≡ some p)
        × (q.plg.id ≡ p.plg.id)
        × (q.calls ≡ p.calls)
  Reseated-at j q (end plugins) at = (q, at, refl, refl)
  Reseated-at zero q (seat p plg same rest) at =
      let is = some-injective _ _ at in
      (p, refl, ap (λ r. r.plg.id) (sym is) ∙ same, ap (λ r. r.calls) (sym is))
  Reseated-at (suc j) q (seat p plg same rest) at = Reseated-at j q rest at

  Reseated-IsLoaded :
      (plugins plugins' : List (Loaded F))
      → IsLoaded plugins
      → Reseated plugins plugins'
      → IsLoaded plugins'
  Reseated-IsLoaded plugins plugins' h seats j q at =
      let (p, at', same, calls) = Reseated-at j q seats at in
      (same ∙ (h j p at').0, subst OperationsLaws (sym calls) (h j p at').1)

  pub ask_change-Reseated :
      (w : World F) (a i : ℕ) (plugins plugins' : List (Loaded F)) (c : Chosen)
      → ((j : ℕ) (p : Loaded F) → get_elem? plugins j ≡ some p → OperationsLaws p.calls)
      → ask_change w a i plugins ≡ some (c, plugins')
      → Reseated plugins plugins'
  unfolding ask_change
  ask_change-Reseated w a i [] plugins' c h run =
      subst (λ (x : Chosen × List (Loaded F)). Reseated [] x.1) (some-injective _ _ run) (end [])
  ask_change-Reseated w a i (p ∷ plugins) plugins' c h run =
      let ((result, plg), asked, run1) = >>=-eq-some (p.calls.change p.plg w a) _ run in
      let same = (h 0 p refl).change-id result p.plg plg w a asked in
      elim (Bool-cases (is_ok result)) [
        | inl stops ↦
            subst (λ (x : Chosen × List (Loaded F)). Reseated (p ∷ plugins) x.1)
              (some-injective _ _ (rw stops at run1)) (seat p plg same (end plugins))
        | inr goes ↦
            let ((later, others), rest, run2) =
              >>=-eq-some (ask_change w a (suc i) plugins) _ (rw goes at run1) in
            subst (λ (x : Chosen × List (Loaded F)). Reseated (p ∷ plugins) x.1)
              (some-injective _ _ run2)
              (seat p plg same
                (ask_change-Reseated w a (suc i) plugins others later (λ j. h (suc j)) rest))
      ]

  pub Reseated-IsPlaced :
      (s : Scheduler F) (w : World F) (plugins : List (Loaded F))
      → IsPlaced s w
      → Reseated s.plugin plugins
      → IsPlaced (record s { plugin = plugins }) w
  Reseated-IsPlaced s w plugins h seats = record {
    loaded = Reseated-IsLoaded s.plugin plugins h.loaded seats;
    counted = h.counted;
    allocated = h.allocated;
    distinct = h.distinct;
    placed = rw (Reseated-length seats) h.placed;
  }
