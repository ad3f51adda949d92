-- ===== src/Conductor/Handlers.antt =====
-- conductor/rpc/server.py: what workers report about tasks. The caller holds the locks of the
-- execution and of the task.
use coriolis.Prelude.{
  ℕ, Bool, true, false, not, ◌&&◌, ◌||◌, if◌then◌else◌, any, lookup, List, [], ◌∷◌, Option, none,
  some,
}
use coriolis.Constants.{
  TaskStatus, ExecutionStatus, is_active_task, is_finalized_task, is_os_morphing, is_scheduled,
  is_on_error_only,
}
use coriolis.Action.{
  Action, pure, raise, gets, or_raise, modify, require, ◌>>=◌, ◌>>◌, attribute_error, key_error,
  invalid_task_state, task_is_cancelling, coriolis_exception,
}
use coriolis.Db.{
  Store, Task, TaskInfo, ExecutionType, find_task, set_task_status, set_task_host_properties,
  update_transfer_action_info_for_instance, is_truthy,
}
use coriolis.Conductor.Env.{Env}
use coriolis.Conductor.Status.{set_tasks_execution_status}
use coriolis.Conductor.Cancel.{run_cancel, run_advance, delete_reservation}
use coriolis.Conductor.PostTask.{handle_post_task_actions}

-- `db_api.get_task`; the decorator reads the execution of the task, which fails for `None`.
unfoldable pub get_task : ℕ → Action Store Task
get_task task_id s = or_raise (find_task task_id s.tasks) attribute_error s

-- The status that a task gets with its host.
unfoldable pub status_with_host : TaskStatus → Action Store TaskStatus
status_with_host TaskStatus.cancelling = raise task_is_cancelling
status_with_host TaskStatus.cancelling_after_completion =
    pure TaskStatus.cancelling_after_completion
status_with_host TaskStatus.pending = pure TaskStatus.starting
status_with_host _ = raise invalid_task_state

unfoldable pub set_task_host : ℕ → ℕ → Action Store (Unit {0})
set_task_host task_id host = do
  t ← get_task task_id
  new_status ← status_with_host t.status
  set_task_host_properties task_id (some host) none
  set_task_status task_id new_status

abbrev pub accepts_process : TaskStatus → Bool
accepts_process TaskStatus.starting = true
accepts_process TaskStatus.cancelling_after_completion = true
accepts_process _ = false

unfoldable pub set_task_process : ℕ → ℕ → Action Store (Unit {0})
set_task_process task_id process_id = do
  t ← get_task task_id
  require (is_truthy t.host) invalid_task_state
  require (accepts_process t.status) invalid_task_state
  set_task_host_properties task_id none (some process_id)
  set_task_status task_id TaskStatus.running

-- The status of a task whose completion is reported; none where the report is ignored.
unfoldable pub status_completed : TaskStatus → Option TaskStatus
status_completed TaskStatus.cancelling_after_completion = some TaskStatus.canceled_after_completion
status_completed TaskStatus.cancelling = some TaskStatus.canceled_after_completion
status_completed TaskStatus.failed_to_cancel = some TaskStatus.canceled_after_completion
status_completed st = if is_finalized_task st then none else some TaskStatus.completed

-- The task info after the result is merged into it. Without a result the entry has to be there.
unfoldable pub merge_result : Task → TaskInfo → Action Store TaskInfo
merge_result t [] s = or_raise (lookup t.instance_id s.info) key_error s
merge_result t (f ∷ result) s =
    update_transfer_action_info_for_instance t.instance_id (f ∷ result) s

-- The status of a task whose cancellation is confirmed; none where it stays what it is.
unfoldable pub status_canceled : TaskStatus → Option TaskStatus
status_canceled TaskStatus.cancelling_after_completion = some TaskStatus.canceled
status_canceled TaskStatus.failed_to_cancel = some TaskStatus.canceled
status_canceled st = if is_finalized_task st then none else some TaskStatus.canceled

-- The status of a task that has failed.
unfoldable pub status_errored : TaskStatus → TaskStatus
status_errored TaskStatus.cancelling = TaskStatus.canceled
status_errored TaskStatus.cancelling_after_completion = TaskStatus.canceled
status_errored TaskStatus.force_canceled = TaskStatus.force_canceled
status_errored TaskStatus.failed_to_cancel = TaskStatus.canceled
status_errored _ = TaskStatus.error

-- `_cancel_execution_for_osmorphing_debugging`
unfoldable pub cancel_for_debugging : List Task → Action Store (Unit {0})
cancel_for_debugging [] = pure tt
cancel_for_debugging (t ∷ ts) =
    (if is_os_morphing t.task_type
      then pure tt
      else if is_active_task t.status
      then raise coriolis_exception
      else if is_scheduled t.status || is_on_error_only t.status
      then set_task_status t.id TaskStatus.canceled_for_debugging
      else pure tt)
    >> cancel_for_debugging ts

abbrev pub is_migration : ExecutionType → Bool
is_migration ExecutionType.migration = true
is_migration _ = false

module _ (env : Env) where
  unfoldable pub process_result : Task → TaskInfo → Action Store (Unit {0})
  process_result t result = do
    info ← merge_result t result
    tasks ← gets (λ s. s.tasks)
    handle_post_task_actions env t.task_type t tasks info
    started ← run_advance env (some t.instance_id)
    pure tt

  unfoldable pub complete_task : Task → TaskInfo → Option TaskStatus → Action Store (Unit {0})
  complete_task t result none = pure tt
  complete_task t result (some st) = set_task_status t.id st >> process_result t result

  unfoldable pub task_completed : ℕ → TaskInfo → Action Store (Unit {0})
  task_completed task_id result = do
    t ← get_task task_id
    complete_task t result (status_completed t.status)

  unfoldable pub confirm_canceled : Task → Option TaskStatus → Action Store (Unit {0})
  confirm_canceled t none = set_task_status t.id t.status
  confirm_canceled t (some st) =
      set_task_status t.id st >> (run_advance env none >>= λ started. pure tt)

  unfoldable pub confirm_task_cancellation : ℕ → Action Store (Unit {0})
  confirm_task_cancellation task_id = do
    t ← get_task task_id
    confirm_canceled t (status_canceled t.status)

  unfoldable pub debug_os_morphing : ℕ → TaskStatus → List Task → Action Store (Unit {0})
  debug_os_morphing task_id final_status tasks = do
    cancel_for_debugging tasks
    set_task_status task_id final_status
    modify (λ s. set_tasks_execution_status env s.status ExecutionStatus.canceled_for_debugging s)

  unfoldable pub handle_error : ℕ → Task → TaskStatus → List Task → Action Store (Unit {0})
  handle_error task_id t final_status tasks =
      if is_os_morphing t.task_type && env.debug_os_morphing_errors
      then (if any (λ u. is_active_task u.status && not (is_os_morphing u.task_type)) tasks
          then run_cancel env false
          else debug_os_morphing task_id final_status tasks)
      else run_cancel env false

  unfoldable pub set_task_error : ℕ → Action Store (Unit {0})
  set_task_error task_id = do
    t ← get_task task_id
    set_task_status task_id (status_errored t.status)
    tasks ← gets (λ s. s.tasks)
    handle_error task_id t (status_errored t.status) tasks
    modify (λ s. if is_migration s.execution_type then delete_reservation env s else s)
