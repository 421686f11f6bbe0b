-- ===== src/Scheduler/Interface.antt =====
-- `struct rtf_plugin` of daemon/retif_plugin.h.in, as the scheduler sees it: the entry points of a loaded
-- plugin beside its data, and what the scheduler relies on.
use retif.Common.{ℕ, Option, some, ◌≡◌, ◌≢◌}
use retif.Common.Int.{pos}
use retif.Plugin.{Plugin, Verdict, World}

-- The entry points of a plugin. None of the loaded plugins reads the task set that it is passed.
pub record Operations (F : Type 0) : Type 0 where
  pub accept : Plugin F → World F → ℕ → Option Verdict
  pub change : Plugin F → World F → ℕ → Option (Verdict × Plugin F)
  pub schedule : Plugin F → World F → ℕ → Option (Plugin F × World F)
  pub attach : World F → ℕ → Verdict × World F
  pub detach : World F → ℕ → Verdict × World F
  pub release : Plugin F → World F → ℕ → Option (Verdict × Plugin F × World F)

pub record Loaded (F : Type 0) : Type 0 where
  pub calls : Operations F
  pub plg : Plugin F

-- A world in which no identity changed: each task but `a` has the plugin that it had, and all have
-- their identifiers and owners.
pub record SameButPlugin {F : Type 0} (w w' : World F) (a : ℕ) : Type 0 where
  pub ids : (b : ℕ) → (w'.heap b).id ≡ (w.heap b).id
  pub owners : (b : ℕ) → (w'.heap b).ptid ≡ (w.heap b).ptid
  pub plugins : (b : ℕ) → b ≢ a → (w'.heap b).pluginid ≡ (w.heap b).pluginid
  pub next : w'.next ≡ w.next

-- `schedule` gives the task the identifier of its plugin; `schedule` and `release` change no other
-- task's plugin and no identity, no function changes the identifier of the plugin, and `attach` and
-- `detach` call the kernel and leave the tasks as they are.
pub record OperationsLaws {F : Type 0} (ops : Operations F) : Type 0 where
  pub schedule-own :
      (p p' : Plugin F) (w w' : World F) (a : ℕ)
      → ops.schedule p w a ≡ some (p', w')
      → (p'.id ≡ p.id) × ((w'.heap a).pluginid ≡ pos p.id) × SameButPlugin w w' a
  pub release-others :
      (res : Verdict) (p p' : Plugin F) (w w' : World F) (a : ℕ)
      → ops.release p w a ≡ some (res, p', w')
      → (p'.id ≡ p.id) × SameButPlugin w w' a
  pub change-id :
      (res : Verdict) (p p' : Plugin F) (w : World F) (a : ℕ)
      → ops.change p w a ≡ some (res, p')
      → p'.id ≡ p.id
  pub attach-store :
      (w : World F) (a : ℕ)
      → ((ops.attach w a).1.heap ≡ w.heap) × ((ops.attach w a).1.next ≡ w.next)
  pub detach-store :
      (w : World F) (a : ℕ)
      → ((ops.detach w a).1.heap ≡ w.heap) × ((ops.detach w a).1.next ≡ w.next)
