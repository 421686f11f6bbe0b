-- ===== src/Scheduler/Attach.antt =====
-- daemon/retif_scheduler.c, `rtf_scheduler_task_attach`: the plugin of the task attaches the thread.
use retif.Common.{
  ℕ, none, some, get_elem?, get_elem?_total, ◌≡◌, ◌⊎◌, inl, inr, Option-cases, arith,
}
use retif.Common.Int.{pos}
use retif.LinkedList.Search.{list_search_elem-some}
use retif.Taskset.{taskset_search, taskset_cmp_rsvid}
use retif.Plugin.{World, error, write}
use retif.Scheduler.{Scheduler, Loaded, scheduler_task_attach}
use retif.Scheduler.Placed.{IsPlaced}

module _ {F : Type 0} where
  -- The task `a` of the identifier `rtf_id`, with the thread `pid`, goes to its plugin's `attach`.
  pub record AttachedBy (s : Scheduler F) (w : World F) (rtf_id pid : ℕ) : Type 0 where
    pub a : ℕ
    pub i : ℕ
    pub p : Loaded F
    pub is : (w.heap a).id ≡ rtf_id
    pub own : (w.heap a).pluginid ≡ pos i
    pub at : get_elem? s.plugin i ≡ some p
    pub returned :
        let r = p.calls.attach (write w a (record (w.heap a) { tid = pid })) a in
        scheduler_task_attach s w rtf_id pid ≡ some (r.0, s, r.1)

  -- Under the invariant, `rtf_scheduler_task_attach` never faults: an identifier that no task has is
  -- answered by RTF_ERROR and nothing changes; otherwise the task gets the thread, and the plugin that
  -- the task is under attaches it.
  pub scheduler_task_attach-AttachedBy :
      (s : Scheduler F) (w : World F) (rtf_id pid : ℕ)
      → IsPlaced s w
      → ((taskset_search w.heap s.taskset rtf_id ≡ none)
          × (scheduler_task_attach s w rtf_id pid ≡ some (error, s, w)))
        ⊎ AttachedBy s w rtf_id pid
  unfolding scheduler_task_attach taskset_search
  scheduler_task_attach-AttachedBy s w rtf_id pid h =
      elim (Option-cases (taskset_search w.heap s.taskset rtf_id)) [
        | inl nothing ↦ inl (nothing, ground arith)
        | inr (a, found) ↦
            let (hit, (i, own, there)) =
              list_search_elem-some (taskset_cmp_rsvid w.heap rtf_id) _ s.taskset.tasks a h.placed
                found in
            let (p, at) = get_elem?_total s.plugin i there in
            inr (record {
              a = a;
              i = i;
              p = p;
              is = ground arith;
              own = own;
              at = at;
              returned = ground arith;
            })
      ]
