-- ===== src/Conductor/Rpc/Runs.antt =====
-- Each request that the conductor answers, and any sequence of them, makes changes of the relation
-- only.
use coriolis.Prelude.{All, ◌==◌, ℕ, Bool, not, ◌&&◌, List, [], ◌∷◌}
use coriolis.Constants.{is_active_execution}
use coriolis.Action.{gets}
use coriolis.Db.{Store}
use coriolis.Db.Tasks.{IsDistinct}
use coriolis.Conductor.Env.{Env}
use coriolis.Conductor.Cancel.{
  run_cancel, is_cancelling_execution, cancel_migration, cancel_replica_tasks_execution,
}
use coriolis.Conductor.Rpc.{Request, IsAllowed, handle, run}
use coriolis.Conductor.Rpc.Events.{
  Trace, nil, Trace-trans, Trace-IsDistinct, bind-Trace, require-Trace,
}
use coriolis.Conductor.Rpc.Handled.{
  set_task_host-Trace, set_task_process-Trace, cancel-Trace, task_completed-Trace,
  confirm_task_cancellation-Trace,
}
use coriolis.Conductor.Rpc.Failed.{set_task_error-Trace, delete_reservation-Trace}

module _ {fails : ℕ → Bool} where
  module _ (env : Env) where
    cancel_migration-Trace :
        (executions : ℕ) (force : Bool) (s : Store)
        → IsDistinct s.tasks
        → Trace fails s (cancel_migration env executions force s).1
    unfolding cancel_migration
    cancel_migration-Trace executions force s d = require-Trace (executions == 1) _ _ s λ _.
        bind-Trace (gets (λ u. u.status)) _ s nil λ st _.
          require-Trace (is_active_execution st) _ _ s λ _.
            require-Trace (not (is_cancelling_execution st && not force)) _ _ s λ _.
              bind-Trace (run_cancel env force) _ s (cancel-Trace env force s d)
                λ _ _. delete_reservation-Trace env _

    cancel_replica_tasks_execution-Trace :
        (force : Bool) (s : Store)
        → IsDistinct s.tasks
        → Trace fails s (cancel_replica_tasks_execution env force s).1
    unfolding cancel_replica_tasks_execution
    cancel_replica_tasks_execution-Trace force s d =
        bind-Trace (gets (λ u. u.status)) _ s nil λ st _.
          require-Trace (is_active_execution st) _ _ s λ _.
            require-Trace (not (is_cancelling_execution st && not force)) _ _ s
              λ _. cancel-Trace env force s d

    pub handle-Trace :
        (r : Request) (s : Store)
        → IsAllowed fails r
        → IsDistinct s.tasks
        → Trace fails s (handle env r s).1
    unfolding handle
    handle-Trace (Request.host i name) s h d = set_task_host-Trace i name s h
    handle-Trace (Request.process i process_id) s h d = set_task_process-Trace i process_id s
    handle-Trace (Request.completed i result) s h d = task_completed-Trace env i result s d
    handle-Trace (Request.canceled i) s h d = confirm_task_cancellation-Trace env i s d
    handle-Trace (Request.error i) s h d = set_task_error-Trace env i s h d
    handle-Trace (Request.cancel executions force) s h d =
        cancel_migration-Trace executions force s d
    handle-Trace (Request.cancel_replica force) s h d =
        cancel_replica_tasks_execution-Trace force s d

    pub run-Trace :
        (rs : List Request) (s : Store)
        → All (IsAllowed fails) rs
        → IsDistinct s.tasks
        → Trace fails s (run env rs s)
    unfolding run
    run-Trace [] s h d = nil
    run-Trace (r ∷ rs) s h d =
        let first = handle-Trace r s h.0 d in
        Trace-trans first (run-Trace rs _ h.1 (Trace-IsDistinct first d))
