-- ===== src/Scheduler/Modify.antt =====
-- daemon/retif_scheduler.c, the loops of `rtf_scheduler_test_and_modify`: what the plugins answer to a change.
use retif.Common.{
  ℕ, suc, some, List, [], ◌∷◌, ◌≡◌, ◌∙◌, refl, sym, ap, subst, arith, true, false, inl, inr,
  Bool-cases, >>=-eq-some,
}
use mathlib.Core.Option.{some-injective}
use retif.Plugin.{Plugin, World, Verdict, ok, partial, refused, is_ok}
use retif.Scheduler.{Loaded, Chosen, full, nobody, or_partial, ask_change}
use retif.Scheduler.Choice.{
  Choice, first_ok, all_refuse, shift, shift-zero, behind_partial, behind_refused,
}

module _ {F : Type 0} (w : World F) (a : ℕ) where
  -- The plugin answers `r` to a change of the task `a`.
  abbrev pub SaysToChange : Verdict → Loaded F → Type 0
  SaysToChange r p = (plg : Plugin F) × (p.calls.change p.plg w a ≡ some (r, plg))

  -- The choice that ends the loops from the `i`-th plugin on.
  abbrev ChosenFrom : ℕ → List (Loaded F) → Chosen → Type 0
  ChosenFrom i plugins c' = (c : Chosen) × (c' ≡ shift i c) × Choice SaysToChange plugins c

  chosen_behind :
      (i : ℕ) (p : Loaded F) (plugins : List (Loaded F)) (plg : Plugin F) (r : Verdict)
      (later : Chosen)
      → is_ok r ≡ false
      → p.calls.change p.plg w a ≡ some (r, plg)
      → ChosenFrom (suc i) plugins later
      → ChosenFrom i (p ∷ plugins) (or_partial r i later)
  unfolding or_partial
  chosen_behind i p plugins plg ok later not_ok asked rest = absurd (cc)
  chosen_behind i p plugins plg partial later not_ok asked (c, is, choice) =
      let (c', same, choice') = behind_partial SaysToChange i p plugins c (plg, asked) choice in
      (c', ap (or_partial partial i) is ∙ same, choice')
  chosen_behind i p plugins plg refused later not_ok asked (c, is, choice) =
      let (c', same, choice') = behind_refused SaysToChange i p plugins c (plg, asked) choice in
      (c', is ∙ same, choice')

  ask_change-ChosenFrom :
      (i : ℕ) (plugins plugins' : List (Loaded F)) (c : Chosen)
      → ask_change w a i plugins ≡ some (c, plugins')
      → ChosenFrom i plugins c
  unfolding ask_change shift
  ask_change-ChosenFrom i [] plugins' c run =
      subst (λ (x : Chosen × List (Loaded F)). ChosenFrom i [] x.0) (some-injective _ _ run)
        (nobody, refl, all_refuse tt)
  ask_change-ChosenFrom i (p ∷ plugins) plugins' c run =
      let ((result, plg), asked, run1) = >>=-eq-some (p.calls.change p.plg w a) _ run in
      elim (Bool-cases (is_ok result)) [
        | inl stops ↦
            let says : SaysToChange ok p =
              (plg, asked ∙ ap (λ r. some (r, plg)) (only_ok result stops)) in
            subst (λ (x : Chosen × List (Loaded F)). ChosenFrom i (p ∷ plugins) x.0)
              (some-injective _ _ (rw stops at run1))
              (full 0, ap full (omega arith), first_ok 0 p refl says tt)
        | inr goes ↦
            let ((later, others), rest, run2) =
              >>=-eq-some (ask_change w a (suc i) plugins) _ (rw goes at run1) in
            subst (λ (x : Chosen × List (Loaded F)). ChosenFrom i (p ∷ plugins) x.0)
              (some-injective _ _ run2)
              (chosen_behind i p plugins plg result later goes asked
                (ask_change-ChosenFrom (suc i) plugins others later rest))
      ]
    where
      only_ok : (r : Verdict) → is_ok r ≡ true → r ≡ ok
      only_ok ok h = refl
      only_ok partial h = absurd (cc)
      only_ok refused h = absurd (cc)

  -- If no plugin faults, the loops over the plugins' answers to a change end with the first plugin that
  -- says OK; if none does, with the first that says PARTIAL; and if all refuse, with none.
  pub ask_change-Choice :
      (plugins plugins' : List (Loaded F)) (c : Chosen)
      → ask_change w a 0 plugins ≡ some (c, plugins')
      → Choice SaysToChange plugins c
  ask_change-Choice plugins plugins' c run =
      let (c', is, choice) = ask_change-ChosenFrom 0 plugins plugins' c run in
      subst (Choice SaysToChange plugins) (sym (is ∙ shift-zero c')) choice
