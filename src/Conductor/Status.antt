-- ===== src/Conductor/Status.antt =====
-- conductor/rpc/server.py: the status of an execution, and the check for deadlocks.
use coriolis.Prelude.{
  Bool, true, false, not, ◌&&◌, ◌||◌, if◌then◌else◌, any, [], ◌∷◌, Option, none, some,
}
use coriolis.Constants.{
  TaskStatus, ExecutionStatus, is_active_task, is_canceled_task, is_scheduled, is_on_error_only,
  is_finalized_execution,
}
use coriolis.Action.{Action, ok, pure, modify, ◌>>◌}
use coriolis.Db.{Store, Statuses, statuses_of, set_task_status, set_execution_status, emit, Effect}
use coriolis.Conductor.Env.{Env}

abbrev pub is_errord : TaskStatus → Bool
is_errord TaskStatus.error = true
is_errord TaskStatus.failed_to_schedule = true
is_errord _ = false

abbrev pub is_cancelling : TaskStatus → Bool
is_cancelling TaskStatus.cancelling = true
is_cancelling TaskStatus.cancelling_after_completion = true
is_cancelling _ = false

-- `_get_execution_status`, from the statuses of the execution's tasks.
unfoldable pub get_execution_status : Statuses → ExecutionStatus
get_execution_status statuses =
    let is_running = any (λ t. is_active_task t.1) statuses in
    let is_canceled = any (λ t. is_canceled_task t.1) statuses in
    let errord = any (λ t. is_errord t.1) statuses in
    let cancelling = any (λ t. is_cancelling t.1) statuses in
    let has_scheduled_tasks = any (λ t. is_scheduled t.1) statuses in
    if has_scheduled_tasks && not is_running
    then ExecutionStatus.deadlocked
    else if cancelling
    then ExecutionStatus.cancelling
    else if is_running
    then (if is_canceled then ExecutionStatus.cancelling else ExecutionStatus.running)
    else if errord
    then ExecutionStatus.error
    else if is_canceled
    then ExecutionStatus.canceled
    else ExecutionStatus.completed

abbrev pub is_awaiting : ExecutionStatus → Bool
is_awaiting ExecutionStatus.awaiting_minion_allocations = true
is_awaiting _ = false

-- `_set_tasks_execution_status`; `previous` is the status in the caller's copy of the execution.
unfoldable pub set_tasks_execution_status : Env → ExecutionStatus → ExecutionStatus → Store → Store
set_tasks_execution_status env previous st s =
    let written = set_execution_status st s in
    if is_finalized_execution st
    then (let freed =
          if is_awaiting previous then written else emit Effect.deallocate_minions written in
        if env.delete_trust_id then emit Effect.delete_trust freed else freed)
    else written

-- Statuses with a scheduled task, none of which is active.
unfoldable pub is_deadlocked : Statuses → Bool
is_deadlocked statuses =
    any (λ t. is_scheduled t.1) statuses && not (any (λ t. is_active_task t.1) statuses)

unfoldable pub strand_tasks : Statuses → Action Store (Unit {0})
strand_tasks [] = pure tt
strand_tasks ((i, st) ∷ rest) =
    (if is_scheduled st || is_on_error_only st
      then set_task_status i TaskStatus.canceled_from_deadlock
      else pure tt)
    >> strand_tasks rest

-- The statuses that are given, or those of the execution if none or an empty dictionary is given.
abbrev pub determine : Option Statuses → Store → Statuses
determine none s = statuses_of s.tasks
determine (some []) s = statuses_of s.tasks
determine (some (t ∷ given)) s = t ∷ given

-- `_check_clean_execution_deadlock`: true where it returns DEADLOCKED, false where RUNNING.
unfoldable pub check_clean_execution_deadlock : Env → Option Statuses → Action Store Bool
check_clean_execution_deadlock env given s =
    let statuses = determine given s in
    if is_deadlocked statuses
    then (do
      strand_tasks statuses
      modify (set_tasks_execution_status env s.status ExecutionStatus.deadlocked)
      pure true)
        s
    else (ok false, s)
