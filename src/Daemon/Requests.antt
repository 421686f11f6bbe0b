-- ===== src/Daemon/Requests.antt =====
-- daemon/retif_daemon.c: what becomes of a client that is gone, and which task a request creates.
use retif.Common.{
  ℕ, ◌<◌, Bool, true, some, length, get_elem?, get_elem?-lt, get_elem?-set_self, set, length-set,
  >>=-eq-some, ◌≡◌, refl, arith, subst,
}
use mathlib.Core.Option.{some-injective}
use retif.Taskset.{taskset_cmp_ppid}
use retif.Taskset.Removal.{without}
use retif.Plugin.{World}
use retif.Channel.{Client, empty}
use retif.Scheduler.{scheduler_delete}
use retif.Scheduler.Placed.{IsPlaced}
use retif.Scheduler.Delete.{scheduler_delete-without}
use retif.Daemon.{Daemon, is_failed, daemon_check_for_fail}

module _ {F : Type 0} where
  -- If the scheduler's invariant holds, a client's connection ended or failed, and no plugin faults,
  -- `rtf_daemon_check_for_fail` returns 1: the client's entry is empty with pid 0, exactly the tasks
  -- of the client's process are gone from the task set, and the invariant holds again.
  pub daemon_check_for_fail-without :
      (d d' : Daemon F) (w w' : World F) (cli_id : ℕ) (c : Client) (failed : Bool)
      → IsPlaced d.sched w
      → get_elem? d.chann.client cli_id ≡ some c
      → is_failed c.state ≡ true
      → daemon_check_for_fail d w cli_id ≡ some (failed, d', w')
      → (failed ≡ true)
        × (get_elem? d'.chann.client cli_id ≡ some (record { state = empty; pid = 0 }))
        × (d'.sched.taskset.tasks.root
            ≡ without (taskset_cmp_ppid w.heap c.pid) d.sched.taskset.tasks.root)
        × IsPlaced d'.sched w'
  unfolding daemon_check_for_fail
  daemon_check_for_fail-without d d' w w' cli_id c failed h at fails run =
      let lt = get_elem?-lt d.chann.client cli_id at in
      let client1 = set d.chann.client cli_id (record c { state = empty }) in
      let at1 : get_elem? client1 cli_id ≡ some (record c { state = empty }) =
        get_elem?-set_self d.chann.client cli_id (record c { state = empty }) lt in
      let run1 = simp (at, fails, at1, daemon_check_for_fail) at run in
      let ((sched, w1), deleted, run2) = >>=-eq-some (scheduler_delete d.sched w c.pid) _ run1 in
      let (placed, kept) = scheduler_delete-without d.sched sched w w1 c.pid h deleted in
      let lt1 : cli_id < length client1 =
        omega (arith, lt, length-set d.chann.client cli_id (record c { state = empty })) in
      subst
        (λ (x : Bool × Daemon F × World F).
          (x.0 ≡ true)
          × (get_elem? x.1.chann.client cli_id ≡ some (record { state = empty; pid = 0 }))
          × (x.1.sched.taskset.tasks.root
              ≡ without (taskset_cmp_ppid w.heap c.pid) d.sched.taskset.tasks.root)
          × IsPlaced x.1.sched x.2)
        (some-injective _ _ run2)
        (
          refl,
          get_elem?-set_self client1 cli_id (record { state = empty; pid = 0 }) lt1,
          kept,
          placed,
        )
