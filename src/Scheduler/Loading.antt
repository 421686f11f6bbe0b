-- ===== src/Scheduler/Loading.antt =====
-- daemon/retif_plugin.c: the shared objects of the plugins, and the plugins as the daemon starts with them.
use retif.Common.{
  ℕ, replicate, suc, Bool, Option, none, some, List, [], ◌∷◌, ◌++◌, length, ◌==◌, if◌then◌else◌,
  ◌>>=◌, ◌≡◌, refl, subst, arith, Bool-cases, inl, inr,
}
use mathlib.Core.Option.{some-injective}
use retif.Common.Int.{ℤ, pos, negsuc}
use retif.Floats.{Floats}
use retif.Taskset.{taskset_init}
use retif.Plugin.{Plugin}
use retif.Scheduler.{Operations, OperationsLaws, Loaded}
use retif.Config.{ConfPlugin}

-- What `dlopen` gives: the entry points, and the static arrays of the object as they start.
pub record SharedObject (F : Type 0) : Type 0 where
  pub calls : Operations F
  pub dist_prio : List ℕ
  pub n_per_prio : List (List ℤ)

-- The files of the system, a parameter: which are there and which can be opened. `conf_dir` is what
-- `dirname` leaves of the path of the configuration, with a slash; `install_path` is
-- PLUGIN_DEFAULT_INSTALLPATH, which the build sets.
pub record Loader (F : Type 0) : Type 0 where
  pub present : List ℕ → Bool
  pub dlopen : List ℕ → Option (SharedObject F)
  pub conf_dir : List ℕ
  pub install_path : List ℕ

-- The results -2, -1 and 0.
pub data Opened (F : Type 0) : Type 0 where
  not_found not_opened : Opened F
  opened : (object : SharedObject F) → Opened F

-- The processors and priorities of a plugin are numbers in this model. `check_cpus`
-- has refused a core below zero before; with a priority below zero the daemon goes on, and here such a
-- configuration is outside of the model and gives `none`.
abbrev pub number : ℤ → Option ℕ
number (pos n) = some n
number (negsuc n) = none

abbrev pub numbers : List ℤ → Option (List ℕ)
numbers [] = some []
numbers (c ∷ cores) = number c >>= λ n. numbers cores >>= λ rest. some (n ∷ rest)

module _ {F : Type 0} where
  unfoldable pub open_plugin_dll : Loader F → List ℕ → List ℕ → Opened F
  open_plugin_dll l path relpath =
      if l.present (path ++ relpath)
      then elim (l.dlopen (path ++ relpath)) [ none ↦ not_opened | some o ↦ opened o ]
      else not_found

  -- The object that was opened, or nothing for the result -1.
  abbrev or_fail : Opened F → Option (SharedObject F)
  or_fail not_found = none
  or_fail not_opened = none
  or_fail (opened o) = some o

  -- The default directory is tried only if there is no such file beside the configuration.
  abbrev or_installed : Loader F → List ℕ → Opened F → Option (SharedObject F)
  or_installed l path not_found = or_fail (open_plugin_dll l l.install_path path)
  or_installed l path not_opened = none
  or_installed l path (opened o) = some o

  -- A path that starts with a slash stands for itself.
  unfoldable pub find_and_open_plugin : Loader F → List ℕ → Option (SharedObject F)
  unfolding open_plugin_dll
  find_and_open_plugin l [] = none
  find_and_open_plugin l (c ∷ path) =
      if c == 47
      then or_fail (open_plugin_dll l [] (c ∷ path))
      else or_installed l (c ∷ path) (open_plugin_dll l l.conf_dir (c ∷ path))

  -- One turn of the loop before the object is opened; its static arrays come with it.
  unfoldable pub plugin_of : Floats F → ℕ → ConfPlugin → SharedObject F → Option (Plugin F)
  plugin_of fl i c o = number c.priority_min >>= λ prio_min. number c.priority_max >>= λ prio_max.
      numbers c.cores >>= λ cpulist. some (record {
        id = i;
        name = c.name;
        prio_min = prio_min;
        prio_max = prio_max;
        cpulist = cpulist;
        util_free_percpu = replicate (length c.cores) (fl.of_int (pos 1));
        task_count_percpu = replicate (length c.cores) (pos 0);
        tasks = replicate (length c.cores) taskset_init;
        dist_prio = o.dist_prio;
        n_per_prio = o.n_per_prio;
      })

  -- The plugins from the `i`-th on: the result, and the plugins that were opened.
  unfoldable pub plugins_init :
      Floats F → Loader F → ℕ → List ConfPlugin → Option (ℤ × List (Loaded F))
  unfolding find_and_open_plugin plugin_of
  plugins_init fl l i [] = some (pos 0, [])
  plugins_init fl l i (c ∷ confs) = elim (find_and_open_plugin l c.plugin_path) [
    | none ↦ some (negsuc 0, [])
    | some o ↦ plugin_of fl i c o >>= λ plg. plugins_init fl l (suc i) confs >>= λ (res, plugins).
        some (res, record { calls = o.calls; plg = plg } ∷ plugins)
  ]

  -- Each object that can be opened keeps what the scheduler relies on.
  abbrev pub Trusted : Loader F → Type 0
  Trusted l = (path : List ℕ) (o : SharedObject F) → l.dlopen path ≡ some o → OperationsLaws o.calls

  open_plugin_dll-Trusted :
      (l : Loader F) (path relpath : List ℕ) (o : SharedObject F)
      → Trusted l
      → open_plugin_dll l path relpath ≡ opened o
      → OperationsLaws o.calls
  unfolding open_plugin_dll
  open_plugin_dll-Trusted l path relpath o h e = h (path ++ relpath) o (ground arith)

  or_fail-Trusted :
      (l : Loader F) (path relpath : List ℕ) (o : SharedObject F)
      → Trusted l
      → or_fail (open_plugin_dll l path relpath) ≡ some o
      → OperationsLaws o.calls
  unfolding open_plugin_dll
  or_fail-Trusted l path relpath o h e = h (path ++ relpath) o (ground arith)

  or_installed-Trusted :
      (l : Loader F) (path : List ℕ) (o : SharedObject F)
      → Trusted l
      → or_installed l path (open_plugin_dll l l.conf_dir path) ≡ some o
      → OperationsLaws o.calls
  or_installed-Trusted l path o h e = go (open_plugin_dll l l.conf_dir path) refl e
    where
      go :
          (r : Opened F)
          → open_plugin_dll l l.conf_dir path ≡ r
          → or_installed l path r ≡ some o
          → OperationsLaws o.calls
      go not_found is e' = or_fail-Trusted l l.install_path path o h e'
      go not_opened is e' = absurd (cc)
      go (opened o') is e' =
          subst (λ x. OperationsLaws x.calls) (some-injective _ _ e')
            (open_plugin_dll-Trusted l l.conf_dir path o' h is)

  pub find_and_open_plugin-Trusted :
      (l : Loader F) (path : List ℕ) (o : SharedObject F)
      → Trusted l
      → find_and_open_plugin l path ≡ some o
      → OperationsLaws o.calls
  unfolding find_and_open_plugin
  find_and_open_plugin-Trusted l [] o h e = absurd (cc)
  find_and_open_plugin-Trusted l (c ∷ path) o h e = elim (Bool-cases (c == 47)) [
    | inl absolute ↦ or_fail-Trusted l [] (c ∷ path) o h (rw absolute at e)
    | inr relative ↦ or_installed-Trusted l (c ∷ path) o h (rw relative at e)
  ]
