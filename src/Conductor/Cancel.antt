-- ===== src/Conductor/Cancel.antt =====
-- conductor/rpc/server.py: `_cancel_tasks_execution`, `cancel_migration` and
-- `cancel_replica_tasks_execution`.
use coriolis.Prelude.{
  ◌+◌, ◌==◌, Option, ℕ, zero, suc, Bool, true, false, not, ◌&&◌, if◌then◌else◌, is_empty, List, [],
  ◌∷◌, none,
}
use coriolis.Constants.{
  TaskStatus, ExecutionStatus, is_active_task, is_active_execution, in_finalized_task_statuses,
}
use coriolis.Action.{
  gets, require, invalid_migration_state, invalid_replica_state, Action, err, pure, modify, ◌>>=◌,
  ◌>>◌, out_of_fuel,
}
use coriolis.Db.{Store, Task, set_task_status, emit, Effect}
use coriolis.Conductor.Env.{Env}
use coriolis.Conductor.Status.{set_tasks_execution_status}
use coriolis.Conductor.Advance.{sort_tasks, next_call, advance_execution_state}

-- The statuses that the `force` flag applies to.
abbrev pub is_force_cancelable : TaskStatus → Bool
is_force_cancelable TaskStatus.failed_to_cancel = true
is_force_cancelable st = is_active_task st

-- The tasks that may still be started: how deep the recursion below can go.
abbrev pub may_start : TaskStatus → Bool
may_start TaskStatus.scheduled = true
may_start TaskStatus.on_error_only = true
may_start _ = false

unfoldable pub start_weight : TaskStatus → ℕ
start_weight st = if may_start st then 1 else 0

abbrev pub waiting : List Task → ℕ
waiting [] = 0
waiting (t ∷ ts) = start_weight t.status + waiting ts

abbrev pub is_cancelling_execution : ExecutionStatus → Bool
is_cancelling_execution ExecutionStatus.cancelling = true
is_cancelling_execution _ = false

-- `_check_delete_reservation_for_transfer`, which ignores the failure of the request.
abbrev pub delete_reservation : Env → Store → Store
delete_reservation env s = if env.has_reservation then emit Effect.delete_reservation s else s

module _ (env : Env) where
  unfoldable pub send_cancellation : Task → Bool → Action Store (Unit {0})
  send_cancellation t force = do
    set_task_status t.id TaskStatus.cancelling
    n ← next_call
    (if env.cancel_sent n t.id
        then modify (emit (Effect.cancel_task t.id force))
        else set_task_status t.id TaskStatus.failed_to_cancel)

  unfoldable pub cancel_running_task : Task → Bool → Action Store (Unit {0})
  cancel_running_task t force =
      if not t.on_error
      then send_cancellation t force
      else set_task_status t.id TaskStatus.cancelling_after_completion

  -- What is done to a task according to its status, where the `force` flag does not apply.
  unfoldable pub cancel_by_status : TaskStatus → Task → Bool → Action Store (Unit {0})
  cancel_by_status TaskStatus.scheduled t force =
      if is_empty t.depends_on then set_task_status t.id TaskStatus.unscheduled else pure tt
  cancel_by_status TaskStatus.pending t force = set_task_status t.id TaskStatus.unscheduled
  cancel_by_status TaskStatus.starting t force = set_task_status t.id TaskStatus.unscheduled
  cancel_by_status TaskStatus.running t force = cancel_running_task t force
  cancel_by_status TaskStatus.failed_to_cancel t force = cancel_running_task t force
  cancel_by_status TaskStatus.on_error_only t force = set_task_status t.id TaskStatus.scheduled
  cancel_by_status _ t force = pure tt

  -- The body of the loop over the tasks.
  unfoldable pub cancel_task : Bool → Task → Action Store (Unit {0})
  cancel_task force t =
      if force && is_force_cancelable t.status
      then set_task_status t.id TaskStatus.force_canceled
      else cancel_by_status t.status t force

  unfoldable pub cancel_tasks : Bool → List Task → Action Store (Unit {0})
  cancel_tasks force [] = pure tt
  cancel_tasks force (t ∷ ts) = cancel_task force t >> cancel_tasks force ts

  -- The loop and what follows it; `cancel` is what a failed start leads to.
  unfoldable pub cancel_all : Action Store (Unit {0}) → Bool → List Task → Action Store (Unit {0})
  cancel_all cancel force tasks = do
    cancel_tasks force tasks
    started ← advance_execution_state env cancel none
    pure tt

  -- The choice that the method begins with, by the status of the execution.
  unfoldable pub cancel_execution :
      ExecutionStatus → Action Store (Unit {0}) → Bool → List Task → Action Store (Unit {0})
  cancel_execution ExecutionStatus.running cancel force tasks = do
    modify (set_tasks_execution_status env ExecutionStatus.running ExecutionStatus.cancelling)
    cancel_all cancel force tasks
  cancel_execution ExecutionStatus.cancelling cancel force tasks =
      if not force
      then (advance_execution_state env cancel none >>= λ started. pure tt)
      else cancel_all cancel force tasks
  cancel_execution st cancel force tasks =
      if in_finalized_task_statuses st then pure tt else cancel_all cancel force tasks

  -- `_cancel_tasks_execution`. A start that fails while it runs calls it again without `force`.
  unfoldable pub cancel_tasks_execution : ℕ → Bool → Action Store (Unit {0})
  cancel_tasks_execution zero force s = (err out_of_fuel, s)
  cancel_tasks_execution (suc fuel) force s =
      let again = cancel_tasks_execution fuel false in
      cancel_execution s.status again force (sort_tasks s.tasks) s

  -- As callers run it: with fuel for every task that can still be started.
  unfoldable pub run_cancel : Bool → Action Store (Unit {0})
  run_cancel force s = cancel_tasks_execution (suc (waiting s.tasks)) force s

  unfoldable pub run_advance : Option ℕ → Action Store (List ℕ)
  run_advance instance s =
      advance_execution_state env (cancel_tasks_execution (waiting s.tasks) false) instance s

  -- `cancel_migration` for a migration with `executions` executions.
  unfoldable pub cancel_migration : ℕ → Bool → Action Store (Unit {0})
  cancel_migration executions force = do
    require (executions == 1) invalid_migration_state
    st ← gets (λ s. s.status)
    require (is_active_execution st) invalid_migration_state
    require (not (is_cancelling_execution st && not force)) invalid_migration_state
    run_cancel force
    modify (delete_reservation env)

  unfoldable pub cancel_replica_tasks_execution : Bool → Action Store (Unit {0})
  cancel_replica_tasks_execution force = do
    st ← gets (λ s. s.status)
    require (is_active_execution st) invalid_replica_state
    require (not (is_cancelling_execution st && not force)) invalid_replica_state
    run_cancel force
