-- ===== src/Plugins.antt =====
-- The four plugins as shared objects: plugins/sched_EDF.c, sched_RM.c, sched_RR.c and sched_FP.c fill
-- the interface that daemon/retif_scheduler.c calls.
pub mod Fulfilled
pub mod Kept
pub mod KeptRates
pub mod Stores
use retif.Common.{some}
use retif.Floats.{Floats}
use retif.Plugin.{Kernel}
use retif.Scheduler.{Operations}
use retif.Edf
use retif.Rm
use retif.Rr
use retif.Fp

module _ {F : Type 0} (fl : Floats F) (k : Kernel) where
  unfoldable pub edf_operations : Operations F
  edf_operations = record {
    accept = retif.Edf.plg_task_accept fl;
    change = retif.Edf.plg_task_change fl;
    schedule = retif.Edf.plg_task_schedule fl;
    attach = retif.Edf.plg_task_attach k;
    detach = retif.Edf.plg_task_detach k;
    release = retif.Edf.plg_task_release k fl;
  }

  unfoldable pub rm_operations : Operations F
  rm_operations = record {
    accept = retif.Rm.plg_task_accept fl;
    change = retif.Rm.plg_task_change fl;
    schedule = retif.Rm.plg_task_schedule fl;
    attach = retif.Rm.plg_task_attach k;
    detach = retif.Rm.plg_task_detach k;
    release = retif.Rm.plg_task_release k fl;
  }

  unfoldable pub rr_operations : Operations F
  rr_operations = record {
    accept = retif.Rr.plg_task_accept;
    change = retif.Rr.plg_task_change;
    schedule = retif.Rr.plg_task_schedule k fl;
    attach = retif.Rr.plg_task_attach k;
    detach = retif.Rr.plg_task_detach k;
    release = retif.Rr.plg_task_release k;
  }

  unfoldable pub fp_operations : Operations F
  fp_operations = record {
    accept = retif.Fp.plg_task_accept;
    change = retif.Fp.plg_task_change;
    schedule = retif.Fp.plg_task_schedule k fl;
    attach = retif.Fp.plg_task_attach k;
    detach = retif.Fp.plg_task_detach k;
    release = retif.Fp.plg_task_release k;
  }
