-- ===== src/Plugin/Choice.antt =====
-- Which processor `least_loaded_cpu` returns, and what the utilisation tests decide.
use retif.Common.{
  ℕ, ◌<◌, Bool, true, false, some, List, [], ◌∷◌, ◌++◌, length, get_elem?, get_elem?_total, All,
  ◌≡◌, ◌⊎◌, refl, sym, ap, subst, Bool-cases, inl, inr,
}
use retif.Floats.{Floats}
use retif.Plugin.Cpus.{scan_util, least_loaded_util_of, some_fits}

-- The processors index an array of this length.
abbrev pub InRange : ℕ → List ℕ → Type 0
InRange n cpus = All (λ cpu. cpu < n) cpus

module _ {V : Type 0} (values : List V) where
  -- The entry at `cpu` is there and passes the test, or is there and does not.
  pub record Reads (test : V → Bool) (b : Bool) (cpu : ℕ) : Type 0 where
    pub value : V
    pub entry : get_elem? values cpu ≡ some value
    pub result : test value ≡ b

  Reads-total :
      (test : V → Bool) (cpu : ℕ) → cpu < length values → Reads test true cpu ⊎ Reads test false cpu
  Reads-total test cpu h =
      let (v, e) = get_elem?_total values cpu h in
      elim (Bool-cases (test v)) [
        | inl t ↦ inl (record { value = v; entry = e; result = t })
        | inr f ↦ inr (record { value = v; entry = e; result = f })
      ]

  -- `best` is the last of `cpus` whose entry passes the test, or `first` if none does.
  pub data LastPassing (test : V → Bool) (first : ℕ) (cpus : List ℕ) (best : ℕ) : Type 0 where
    unchanged : best ≡ first → All (Reads test false) cpus → LastPassing test first cpus best
    replaced :
        (before after : List ℕ)
        → cpus ≡ before ++ best ∷ after
        → Reads test true best
        → All (Reads test false) after
        → LastPassing test first cpus best

  LastPassing-fails :
      {test : V → Bool} {first cpu best : ℕ} {cpus : List ℕ}
      → Reads test false cpu
      → LastPassing test first cpus best
      → LastPassing test first (cpu ∷ cpus) best
  LastPassing-fails r (unchanged e h) = unchanged e (r, h)
  LastPassing-fails {cpu = cpu} r (replaced before after e p h) =
      replaced (cpu ∷ before) after (ap (◌∷◌ cpu) e) p h

  LastPassing-passes :
      {test : V → Bool} {first cpu best : ℕ} {cpus : List ℕ}
      → Reads test true cpu
      → LastPassing test cpu cpus best
      → LastPassing test first (cpu ∷ cpus) best
  LastPassing-passes {test} {cpu = cpu} {cpus = cpus} r (unchanged e h) =
      replaced [] cpus (ap (λ c. c ∷ cpus) (sym e)) (subst (Reads test true) (sym e) r) h
  LastPassing-passes {cpu = cpu} r (replaced before after e p h) =
      replaced (cpu ∷ before) after (ap (◌∷◌ cpu) e) p h

module _ {F : Type 0} (fl : Floats F) (utils : List F) where
  scan_util-LastPassing :
      (free_max : F) (best : ℕ) (cpus : List ℕ)
      → InRange (length utils) cpus
      → (cpu : ℕ) × (scan_util fl utils free_max best cpus ≡ some cpu)
        × LastPassing utils (fl.ltb free_max) best cpus cpu
  unfolding scan_util
  scan_util-LastPassing free_max best [] h = (best, refl, unchanged refl tt)
  scan_util-LastPassing free_max best (c ∷ cpus) h =
      elim (Reads-total utils (fl.ltb free_max) c h.0) [
        | inl above ↦
            let (cpu, run, last) = scan_util-LastPassing free_max c cpus h.1 in
            (cpu, rw (above.entry, above.result) run, LastPassing-passes utils above last)
        | inr not_above ↦
            let (cpu, run, last) = scan_util-LastPassing free_max best cpus h.1 in
            (
              cpu,
              rw (not_above.entry, not_above.result) run,
              LastPassing-fails utils not_above last,
            )
      ]

  -- Over processors that index the array, `least_loaded_cpu` of the EDF and RM plugins does not fault.
  -- It returns the last processor with more free utilisation than the first one, or the first if none
  -- has more.
  pub least_loaded_util-LastPassing :
      (first : ℕ) (cpus : List ℕ)
      → InRange (length utils) (first ∷ cpus)
      → (free : F) × (cpu : ℕ) × (get_elem? utils first ≡ some free)
        × (least_loaded_util_of fl utils (first ∷ cpus) ≡ some cpu)
        × LastPassing utils (fl.ltb free) first cpus cpu
  unfolding least_loaded_util_of
  least_loaded_util-LastPassing first cpus h =
      let (free, e) = get_elem?_total utils first h.0 in
      let (cpu, run, last) = scan_util-LastPassing free first cpus h.1 in
      (free, cpu, e, rw e run, last)

  pub some_fits-cases :
      (task_util : F) (cpus : List ℕ)
      → InRange (length utils) cpus
      → ((some_fits fl utils task_util cpus ≡ some true)
          × (before : List ℕ) × (cpu : ℕ) × (after : List ℕ) × (cpus ≡ before ++ cpu ∷ after)
          × Reads utils (fl.leb task_util) true cpu)
        ⊎ ((some_fits fl utils task_util cpus ≡ some false)
            × All (Reads utils (fl.leb task_util) false) cpus)
  unfolding some_fits
  some_fits-cases task_util [] h = inr (refl, tt)
  some_fits-cases task_util (c ∷ cpus) h = elim (Reads-total utils (fl.leb task_util) c h.0) [
    | inl fits ↦ inl (rw (fits.entry, fits.result) refl, [], c, cpus, refl, fits)
    | inr small ↦ elim (some_fits-cases task_util cpus h.1) [
      | inl found ↦ inl (
        rw (small.entry, small.result) found.0,
        c ∷ found.1,
        found.2,
        found.3,
        ap (◌∷◌ c) found.4,
        found.5,
      )
      | inr none_fits ↦ inr (rw (small.entry, small.result) none_fits.0, (small, none_fits.1))
    ]
  ]
