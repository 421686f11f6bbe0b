-- ===== src/Plugins/Stores.antt =====
-- `rtf_plg_task_attach` and `rtf_plg_task_detach` of the plugins (plugins/sched_*.c): they call the kernel
-- and leave the tasks as they are.
use retif.Common.{ℕ, ◌≡◌, arith}
use retif.Plugin.{World, Kernel, Syscall, both, detach_thread}
use retif.Edf
use retif.Rm
use retif.Rr
use retif.Fp

module _ {F : Type 0} where
  -- The tasks and the next free address are the same.
  abbrev pub SameStore : World F → World F → Type 0
  SameStore w w' = (w'.heap ≡ w.heap) × (w'.next ≡ w.next)

module _ {F : Type 0} (k : Kernel) where
  both-store : (w : World F) (s s' : Syscall) → SameStore w (both k w s s').1
  unfolding both
  both-store w s s' = ground arith

  pub detach_thread-store : (w : World F) (a : ℕ) → SameStore w (detach_thread k w a).1
  unfolding detach_thread
  detach_thread-store w a = both-store w _ _

  pub edf-attach-store : (w : World F) (a : ℕ) → SameStore w (retif.Edf.plg_task_attach k w a).1
  unfolding retif.Edf.plg_task_attach
  edf-attach-store w a = both-store w _ _

  pub rm-attach-store : (w : World F) (a : ℕ) → SameStore w (retif.Rm.plg_task_attach k w a).1
  unfolding retif.Rm.plg_task_attach
  rm-attach-store w a = both-store w _ _

  pub rr-attach-store : (w : World F) (a : ℕ) → SameStore w (retif.Rr.plg_task_attach k w a).1
  unfolding retif.Rr.plg_task_attach
  rr-attach-store w a = both-store w _ _

  pub fp-attach-store : (w : World F) (a : ℕ) → SameStore w (retif.Fp.plg_task_attach k w a).1
  unfolding retif.Fp.plg_task_attach
  fp-attach-store w a = both-store w _ _
