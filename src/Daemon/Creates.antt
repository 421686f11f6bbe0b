-- ===== src/Daemon/Creates.antt =====
-- daemon/retif_daemon.c, `req_task_create`: the reply to a client and the task that it got.
use retif.Common.{
  ◌+◌, ℕ, ◌%◌, ◌^◌, some, ◌∷◌, get_elem?, >>=-eq-some, ◌≡◌, ◌∙◌, refl, sym, ap, subst, ◌⊎◌, inl,
  inr,
}
use mathlib.Core.Option.{some-injective}
use retif.Common.Int.{negsuc}
use retif.Floats.{Floats}
use retif.Task.{int_of_uint64}
use retif.Plugin.{World, Verdict}
use retif.Scheduler.{Scheduler, scheduler_task_create}
use retif.Scheduler.Placed.{IsPlaced}
use retif.Scheduler.Created.{Created, declined, created, scheduler_task_create-Created}
use retif.Channel.{Client, carrier_get_req, carrier_get_pid}
use retif.Daemon.{
  Daemon, Reply, task_create_ok, task_create_part, task_create_err, response, create_reply,
  req_task_create,
}

module _ {F : Type 0} (fl : Floats F) where
  -- The reply of `req_task_create` and the task set after it: an error with the response -1 and the tasks
  -- as before, or a success with the identifier of the newest task, which the client's process owns.
  pub data Replied (d : Daemon F) (w : World F) (pid : ℕ)
      : Reply F → Daemon F → World F → Type 0 where
    turned_down :
        (d' : Daemon F) (w' : World F)
        → d'.sched.taskset ≡ d.sched.taskset
        → Replied d w pid
            (record { rep_type = task_create_err; payload = response (fl.of_int (negsuc 0)) })
            d'
            w'
    fulfilled :
        (rep : Reply F) (d' : Daemon F) (w' : World F) (a id : ℕ)
        → (rep.rep_type ≡ task_create_ok) ⊎ (rep.rep_type ≡ task_create_part)
        → rep.payload ≡ response (fl.of_int (int_of_uint64 id))
        → id ≡ d.sched.last_task_id + 1
        → d'.sched.taskset.tasks.root ≡ a ∷ d.sched.taskset.tasks.root
        → (w'.heap a).id ≡ id % 2 ^ 32
        → (w'.heap a).ptid ≡ pid
        → Replied d w pid rep d' w'

  created-Replied :
      (d : Daemon F) (w w' : World F) (pid : ℕ) (res : Verdict) (s' : Scheduler F)
      → Created d.sched w pid res s' w'
      → Replied d w pid (create_reply fl res s'.last_task_id) (record d { sched = s' }) w'
  unfolding create_reply
  created-Replied d w _ pid _ _ (declined s' w' same counter) = turned_down _ w' same
  created-Replied d w _ pid _ _ (created res s' w' i (inl fine) tasks counter id owner own there) =
      rw (fine, create_reply)
        (fulfilled _ _ w' w.next s'.last_task_id (inl refl) refl counter tasks
          (id ∙ ap (λ n. n % 2 ^ 32) (sym counter)) owner)
  created-Replied d w _ pid _ _ (created res s' w' i (inr fine) tasks counter id owner own there) =
      rw (fine, create_reply)
        (fulfilled _ _ w' w.next s'.last_task_id (inr refl) refl counter tasks
          (id ∙ ap (λ n. n % 2 ^ 32) (sym counter)) owner)

  -- If the scheduler's invariant holds, the client at `cli_id` is the process `pid`, and `req_task_create`
  -- does not fault, then the reply agrees with the task set: an error has the response -1 and the task
  -- set is as before; otherwise the response is the identifier of the task that is now the first of the
  -- task set (as a float, and up to the 32 bits that a task keeps of it), which belongs to `pid`.
  pub req_task_create-Replied :
      (d d' : Daemon F) (w w' : World F) (cli_id : ℕ) (c : Client) (rep : Reply F)
      → IsPlaced d.sched w
      → get_elem? d.chann.client cli_id ≡ some c
      → req_task_create fl d w cli_id ≡ some (rep, d', w')
      → Replied d w c.pid rep d' w'
  unfolding req_task_create
  req_task_create-Replied d d' w w' cli_id c rep h at run =
      let (req, asked, run1) = >>=-eq-some (carrier_get_req d.chann cli_id) _ run in
      let (pid, owner, run2) = >>=-eq-some (carrier_get_pid d.chann cli_id) _ run1 in
      let (c', at', pid_is) = >>=-eq-some (get_elem? d.chann.client cli_id) _ owner in
      let ((res, s', w1), did, rest) =
        >>=-eq-some (scheduler_task_create fl d.sched w req.param pid) _ run2 in
      let same : pid ≡ c.pid =
        sym (some-injective _ _ pid_is) ∙ ap (λ x. x.pid) (some-injective _ _ (sym at' ∙ at)) in
      subst (λ n. Replied d w n rep d' w') same
        (subst (λ (x : Reply F × Daemon F × World F). Replied d w pid x.0 x.1 x.2)
          (some-injective _ _ rest)
          (created-Replied d w w1 pid res s'
            (scheduler_task_create-Created fl d.sched w req.param pid s' w1 res h.loaded did)))
