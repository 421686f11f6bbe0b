-- ===== src/Scheduler/Started.antt =====
-- daemon/retif_plugin.c, `rtf_plugins_init`: the plugins as the daemon starts with them.
use retif.Common.{
  ℕ, replicate, zero, suc, some, List, [], ◌∷◌, length, >>=-eq-some, ◌≡◌, refl, sym, ap, ◌∙◌, subst,
  Option-cases, inl, inr, map, All,
}
use mathlib.Core.Option.{some-injective}
use retif.Common.Int.{ℤ, pos, negsuc}
use retif.Floats.{Floats}
use retif.Taskset.{taskset_init}
use retif.Plugin.{Plugin}
use retif.Scheduler.{OperationsLaws, Loaded}
use retif.Config.{ConfPlugin}
use retif.Scheduler.Loading.{
  SharedObject, Loader, number, numbers, find_and_open_plugin, plugin_of, plugins_init, Trusted,
  find_and_open_plugin-Trusted,
}

numbers-pos : (cores : List ℤ) (cpus : List ℕ) → numbers cores ≡ some cpus → map pos cpus ≡ cores
numbers-pos [] cpus e = subst (λ x. map pos x ≡ []) (some-injective _ _ e) refl
numbers-pos (pos n ∷ cores) cpus e =
    let (rest, got, same) = >>=-eq-some (numbers cores) _ e in
    subst (λ x. map pos x ≡ pos n ∷ cores) (some-injective _ _ same)
      (ap (◌∷◌ (pos n)) (numbers-pos cores rest got))
numbers-pos (negsuc n ∷ cores) cpus e = absurd (cc)

number-pos : (z : ℤ) (n : ℕ) → number z ≡ some n → pos n ≡ z
number-pos (pos m) n e = ap pos (sym (some-injective _ _ e))
number-pos (negsuc m) n e = absurd (cc)

length-map_pos : (cpus : List ℕ) → length (map pos cpus) ≡ length cpus
length-map_pos [] = refl
length-map_pos (c ∷ cpus) = ap suc (length-map_pos cpus)

length-replicate : {A : Type 0} (n : ℕ) (a : A) → length (replicate n a) ≡ n
length-replicate zero a = refl
length-replicate (suc n) a = ap suc (length-replicate n a)

All-replicate : {A : Type 0} (n : ℕ) (a : A) → All (λ x. x ≡ a) (replicate n a)
All-replicate zero a = tt
All-replicate (suc n) a = (refl, All-replicate n a)

replicate-map : {A : Type 0} (cpus : List ℕ) (a : A) → replicate (length cpus) a ≡ map (λ c. a) cpus
replicate-map [] a = refl
replicate-map (c ∷ cpus) a = ap (◌∷◌ a) (replicate-map cpus a)

below_zero : negsuc 0 ≡ pos 0 → ⊥
below_zero e = cc

module _ {F : Type 0} where
  -- The plugin of this configuration before any task: it has the configured name, processors and
  -- priorities, and arrays with an entry for each position in the list of the processors, which are all
  -- free, 0 and empty. The plugins index these arrays by the numbers of the processors.
  pub record IsFresh (fl : Floats F) (c : ConfPlugin) (p : Plugin F) : Type 0 where
    pub named : p.name ≡ c.name
    pub lowest : pos p.prio_min ≡ c.priority_min
    pub highest : pos p.prio_max ≡ c.priority_max
    pub cores : map pos p.cpulist ≡ c.cores
    pub as_many : length p.util_free_percpu ≡ length p.cpulist
    pub all_free : All (λ f. f ≡ fl.of_int (pos 1)) p.util_free_percpu
    pub uncounted : p.task_count_percpu ≡ map (λ c. pos 0) p.cpulist
    pub without_tasks : p.tasks ≡ map (λ c. taskset_init) p.cpulist

  -- The plugins of these configurations, with the identifiers from `i` on.
  pub data Started (fl : Floats F) : ℕ → List ConfPlugin → List (Loaded F) → Type 0 where
    no_more : {i : ℕ} → Started fl i [] []
    started :
        {i : ℕ} {c : ConfPlugin} {confs : List ConfPlugin} {p : Loaded F}
        {plugins : List (Loaded F)}
        → p.plg.id ≡ i
        → OperationsLaws p.calls
        → IsFresh fl c p.plg
        → Started fl (suc i) confs plugins
        → Started fl i (c ∷ confs) (p ∷ plugins)

  plugin_of-IsFresh :
      (fl : Floats F) (i : ℕ) (c : ConfPlugin) (o : SharedObject F) (p : Plugin F)
      → plugin_of fl i c o ≡ some p
      → (p.id ≡ i) × IsFresh fl c p
  unfolding plugin_of
  plugin_of-IsFresh fl i c o p run =
      let (lo, is_lo, run1) = >>=-eq-some (number c.priority_min) _ run in
      let (hi, is_hi, run2) = >>=-eq-some (number c.priority_max) _ run1 in
      let (cpus, are, run3) = >>=-eq-some (numbers c.cores) _ run2 in
      let cores = numbers-pos c.cores cpus are in
      let many : length c.cores ≡ length cpus = ap length (sym cores) ∙ length-map_pos cpus in
      subst (λ x. (x.id ≡ i) × IsFresh fl c x) (some-injective _ _ run3)
        (
          refl,
          record {
            named = refl;
            lowest = number-pos c.priority_min lo is_lo;
            highest = number-pos c.priority_max hi is_hi;
            cores = cores;
            as_many = length-replicate (length c.cores) (fl.of_int (pos 1)) ∙ many;
            all_free = All-replicate (length c.cores) (fl.of_int (pos 1));
            uncounted = ap (λ n. replicate n (pos 0)) many ∙ replicate-map cpus (pos 0);
            without_tasks =
                ap (λ n. replicate n taskset_init) many ∙ replicate-map cpus taskset_init;
          },
        )

  pub plugins_init-Started :
      (fl : Floats F) (l : Loader F) (i : ℕ) (confs : List ConfPlugin) (plugins : List (Loaded F))
      → Trusted l
      → plugins_init fl l i confs ≡ some (pos 0, plugins)
      → Started fl i confs plugins
  unfolding plugins_init
  plugins_init-Started fl l i [] plugins h run =
      subst (λ (x : ℤ × List (Loaded F)). Started fl i [] x.1) (some-injective _ _ run) no_more
  plugins_init-Started fl l i (c ∷ confs) plugins h run =
      elim (Option-cases (find_and_open_plugin l c.plugin_path)) [
        | inl fails ↦ absurd (
            below_zero (
              ap (λ (x : ℤ × List (Loaded F)). x.0)
                (some-injective _ _ (rw (fails, plugins_init) at run))))
        | inr (o, opens) ↦
            let (plg, made, run1) =
              >>=-eq-some (plugin_of fl i c o) _ (rw (opens, plugins_init) at run) in
            let ((res, rest), later, same) = >>=-eq-some (plugins_init fl l (suc i) confs) _ run1 in
            let both = some-injective _ _ same in
            let (is, fresh) = plugin_of-IsFresh fl i c o plg made in
            subst (λ (x : ℤ × List (Loaded F)). Started fl i (c ∷ confs) x.1) both
              (started is (find_and_open_plugin-Trusted l c.plugin_path o h opens) fresh (
                plugins_init-Started fl l (suc i) confs rest h
                  (later ∙ ap (λ r. some (r, rest)) (ap (λ x. x.0) both))))
      ]
