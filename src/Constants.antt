-- ===== src/Constants.antt =====
-- coriolis/constants.py: the statuses of tasks and of executions, their groups, and the task
-- types. A group is a Boolean test on the status; `text` is the string that the constant holds.
use Prim.Native.String.{String}
use text.Mathlib.Text.{◌==◌ as str_eq}
use coriolis.Prelude.{
  ℕ, zero, suc, ◌==◌, ==→≡, ◌≡◌, refl, sym, ap, ◌∙◌, Bool, true, false, List, [], ◌∷◌, any,
}

pub data TaskStatus : Type 0 where
  scheduled pending starting unscheduled running completed error force_canceled failed_to_cancel
        canceled canceled_after_completion cancelling cancelling_after_completion
        canceled_for_debugging canceled_from_deadlock on_error_only failed_to_schedule :
      TaskStatus

pub data ExecutionStatus : Type 0 where
  unexecuted running completed error deadlocked canceled cancelling canceled_for_debugging
        awaiting_minion_allocations error_allocating_minions :
      ExecutionStatus

-- ACTIVE_TASK_STATUSES
abbrev pub is_active_task : TaskStatus → Bool
is_active_task TaskStatus.pending = true
is_active_task TaskStatus.starting = true
is_active_task TaskStatus.running = true
is_active_task TaskStatus.cancelling = true
is_active_task TaskStatus.cancelling_after_completion = true
is_active_task _ = false

-- CANCELED_TASK_STATUSES
abbrev pub is_canceled_task : TaskStatus → Bool
is_canceled_task TaskStatus.canceled = true
is_canceled_task TaskStatus.unscheduled = true
is_canceled_task TaskStatus.force_canceled = true
is_canceled_task TaskStatus.canceled_after_completion = true
is_canceled_task TaskStatus.canceled_for_debugging = true
is_canceled_task TaskStatus.canceled_from_deadlock = true
is_canceled_task TaskStatus.failed_to_schedule = true
is_canceled_task TaskStatus.failed_to_cancel = true
is_canceled_task _ = false

-- FINALIZED_TASK_STATUSES
abbrev pub is_finalized_task : TaskStatus → Bool
is_finalized_task TaskStatus.completed = true
is_finalized_task TaskStatus.error = true
is_finalized_task TaskStatus.unscheduled = true
is_finalized_task TaskStatus.canceled = true
is_finalized_task TaskStatus.force_canceled = true
is_finalized_task TaskStatus.canceled_for_debugging = true
is_finalized_task TaskStatus.canceled_from_deadlock = true
is_finalized_task TaskStatus.canceled_after_completion = true
is_finalized_task TaskStatus.failed_to_schedule = true
is_finalized_task TaskStatus.failed_to_cancel = true
is_finalized_task _ = false

-- ACTIVE_EXECUTION_STATUSES
abbrev pub is_active_execution : ExecutionStatus → Bool
is_active_execution ExecutionStatus.running = true
is_active_execution ExecutionStatus.cancelling = true
is_active_execution ExecutionStatus.awaiting_minion_allocations = true
is_active_execution _ = false

-- FINALIZED_EXECUTION_STATUSES
abbrev pub is_finalized_execution : ExecutionStatus → Bool
is_finalized_execution ExecutionStatus.completed = true
is_finalized_execution ExecutionStatus.canceled = true
is_finalized_execution ExecutionStatus.error = true
is_finalized_execution ExecutionStatus.canceled_for_debugging = true
is_finalized_execution ExecutionStatus.deadlocked = true
is_finalized_execution ExecutionStatus.error_allocating_minions = true
is_finalized_execution _ = false

-- The place of a status in the declaration, by which two are compared: the texts differ.
abbrev execution_code : ExecutionStatus → ℕ
execution_code ExecutionStatus.unexecuted = 0
execution_code ExecutionStatus.running = 1
execution_code ExecutionStatus.completed = 2
execution_code ExecutionStatus.error = 3
execution_code ExecutionStatus.deadlocked = 4
execution_code ExecutionStatus.canceled = 5
execution_code ExecutionStatus.cancelling = 6
execution_code ExecutionStatus.canceled_for_debugging = 7
execution_code ExecutionStatus.awaiting_minion_allocations = 8
execution_code ExecutionStatus.error_allocating_minions = 9

unfoldable pub same_execution_status : ExecutionStatus → ExecutionStatus → Bool
same_execution_status a b = execution_code a == execution_code b

abbrev from_code : ℕ → ExecutionStatus
from_code zero = ExecutionStatus.unexecuted
from_code (suc zero) = ExecutionStatus.running
from_code (suc (suc zero)) = ExecutionStatus.completed
from_code (suc (suc (suc zero))) = ExecutionStatus.error
from_code (suc (suc (suc (suc zero)))) = ExecutionStatus.deadlocked
from_code (suc (suc (suc (suc (suc zero))))) = ExecutionStatus.canceled
from_code (suc (suc (suc (suc (suc (suc zero)))))) = ExecutionStatus.cancelling
from_code (suc (suc (suc (suc (suc (suc (suc zero))))))) = ExecutionStatus.canceled_for_debugging
from_code (suc (suc (suc (suc (suc (suc (suc (suc zero)))))))) =
    ExecutionStatus.awaiting_minion_allocations
from_code _ = ExecutionStatus.error_allocating_minions

from_code-code : (a : ExecutionStatus) → from_code (execution_code a) ≡ a
from_code-code ExecutionStatus.unexecuted = refl
from_code-code ExecutionStatus.running = refl
from_code-code ExecutionStatus.completed = refl
from_code-code ExecutionStatus.error = refl
from_code-code ExecutionStatus.deadlocked = refl
from_code-code ExecutionStatus.canceled = refl
from_code-code ExecutionStatus.cancelling = refl
from_code-code ExecutionStatus.canceled_for_debugging = refl
from_code-code ExecutionStatus.awaiting_minion_allocations = refl
from_code-code ExecutionStatus.error_allocating_minions = refl

pub same_execution_status→≡ : (a b : ExecutionStatus) → same_execution_status a b ≡ true → a ≡ b
unfolding same_execution_status
same_execution_status→≡ a b h =
    sym (from_code-code a) ∙ ap from_code (==→≡ _ _ h) ∙ from_code-code b

-- The values of the constants. Both kinds of status are texts in the program.
unfoldable pub task_text : TaskStatus → String
task_text TaskStatus.scheduled = "SCHEDULED"
task_text TaskStatus.pending = "PENDING"
task_text TaskStatus.starting = "STARTING"
task_text TaskStatus.unscheduled = "UNSCHEDULED"
task_text TaskStatus.running = "RUNNING"
task_text TaskStatus.completed = "COMPLETED"
task_text TaskStatus.error = "ERROR"
task_text TaskStatus.force_canceled = "FORCE_CANCELED"
task_text TaskStatus.failed_to_cancel = "FAILED_TO_CANCEL"
task_text TaskStatus.canceled = "CANCELED"
task_text TaskStatus.canceled_after_completion = "CANCELED_AFTER_COMPLETION"
task_text TaskStatus.cancelling = "CANCELLING"
task_text TaskStatus.cancelling_after_completion = "CANCELLING_AFTER_COMPLETION"
task_text TaskStatus.canceled_for_debugging = "CANCELED_FOR_DEBUGGING"
task_text TaskStatus.canceled_from_deadlock = "STRANDED_AFTER_DEADLOCK"
task_text TaskStatus.on_error_only = "EXECUTE_ON_ERROR_ONLY"
task_text TaskStatus.failed_to_schedule = "FAILED_TO_SCHEDULE"

unfoldable pub execution_text : ExecutionStatus → String
execution_text ExecutionStatus.unexecuted = "UNEXECUTED"
execution_text ExecutionStatus.running = "RUNNING"
execution_text ExecutionStatus.completed = "COMPLETED"
execution_text ExecutionStatus.error = "ERROR"
execution_text ExecutionStatus.deadlocked = "DEADLOCKED"
execution_text ExecutionStatus.canceled = "CANCELED"
execution_text ExecutionStatus.cancelling = "CANCELLING"
execution_text ExecutionStatus.canceled_for_debugging = "CANCELED_FOR_DEBUGGING"
execution_text ExecutionStatus.awaiting_minion_allocations = "AWAITING_MINION_ALLOCATIONS"
execution_text ExecutionStatus.error_allocating_minions = "ERROR_ALLOCATING_MINIONS"

abbrev finalized_task_statuses : List TaskStatus
finalized_task_statuses =
    TaskStatus.completed ∷ TaskStatus.error ∷ TaskStatus.unscheduled ∷ TaskStatus.canceled
    ∷ TaskStatus.force_canceled ∷ TaskStatus.canceled_for_debugging
    ∷ TaskStatus.canceled_from_deadlock ∷ TaskStatus.canceled_after_completion
    ∷ TaskStatus.failed_to_schedule ∷ TaskStatus.failed_to_cancel ∷ []

-- `execution.status in constants.FINALIZED_TASK_STATUSES`: the status of an execution looked up
-- among the statuses of tasks, which compares the texts.
unfoldable pub in_finalized_task_statuses : ExecutionStatus → Bool
unfolding any task_text execution_text
in_finalized_task_statuses st =
    any (λ t. str_eq (execution_text st) (task_text t)) finalized_task_statuses

pub data TaskType : Type 0 where
  deploy_migration_source_resources deploy_migration_target_resources
        delete_migration_source_resources delete_migration_target_resources
        deploy_instance_resources finalize_instance_deployment cleanup_failed_instance_deployment
        cleanup_instance_source_storage cleanup_instance_target_storage create_instance_disks
        deploy_os_morphing_resources os_morphing delete_os_morphing_resources get_instance_info
        deploy_replica_disks delete_replica_source_disk_snapshots delete_replica_disks
        replicate_disks deploy_replica_source_resources delete_replica_source_resources
        deploy_replica_target_resources delete_replica_target_resources shutdown_instance
        deploy_replica_instance_resources finalize_replica_instance_deployment
        cleanup_failed_replica_instance_deployment create_replica_disk_snapshots
        delete_replica_target_disk_snapshots restore_replica_disk_snapshots get_optimal_flavor
        validate_migration_source_inputs validate_migration_destination_inputs
        validate_replica_source_inputs validate_replica_destination_inputs
        validate_replica_deployment_inputs update_source_replica update_destination_replica
        validate_source_minion_pool_options validate_destination_minion_pool_options
        create_source_minion_machine create_destination_minion_machine delete_source_minion_machine
        delete_destination_minion_machine set_up_source_pool_shared_resources
        set_up_destination_pool_shared_resources tear_down_source_pool_shared_resources
        tear_down_destination_pool_shared_resources attach_volumes_to_source_minion
        detach_volumes_from_source_minion attach_volumes_to_destination_minion
        detach_volumes_from_destination_minion attach_volumes_to_osmorphing_minion
        detach_volumes_from_osmorphing_minion validate_source_minion_pool_compatibility
        validate_destination_minion_pool_compatibility validate_osmorphing_minion_pool_compatibility
        release_source_minion release_destination_minion release_osmorphing_minion
        collect_osmorphing_info healthcheck_source_minion healthcheck_destination_minion
        power_on_source_minion power_off_source_minion power_on_destination_minion
        power_off_destination_minion :
      TaskType

abbrev pub is_os_morphing : TaskType → Bool
is_os_morphing TaskType.os_morphing = true
is_os_morphing _ = false

abbrev pub is_scheduled : TaskStatus → Bool
is_scheduled TaskStatus.scheduled = true
is_scheduled _ = false

abbrev pub is_completed : TaskStatus → Bool
is_completed TaskStatus.completed = true
is_completed _ = false

abbrev pub is_unscheduled : TaskStatus → Bool
is_unscheduled TaskStatus.unscheduled = true
is_unscheduled _ = false

abbrev pub is_on_error_only : TaskStatus → Bool
is_on_error_only TaskStatus.on_error_only = true
is_on_error_only _ = false
