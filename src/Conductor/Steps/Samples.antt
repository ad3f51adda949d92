-- ===== src/Conductor/Steps/Samples.antt =====
-- The theorems on the steps of the conductor, applied to the migration.
use coriolis.Prelude.{any, true, none, some, ◌≡◌, refl}
use coriolis.Constants.{in_finalized_task_statuses, TaskStatus, ExecutionStatus}
use coriolis.Action.{ok}
use coriolis.Conductor.Steps.Forced.{run_cancel-forced}
use coriolis.Conductor.Steps.Stranded.{check_clean_execution_deadlock-stranded}
use coriolis.Db.{with_status, Store, find_task}
use coriolis.Conductor.Env.{Env, Start}
use coriolis.Conductor.Status.{is_deadlocked, check_clean_execution_deadlock}
use coriolis.Conductor.Cancel.{run_cancel}
use coriolis.Conductor.Steps.Goes.{Goes}
use coriolis.Conductor.Samples.{env, migration, running, distinct, deploy, transfer}
use coriolis.Conductor.Create.{begin_tasks}
use coriolis.Conductor.Steps.Begin.{begin_tasks-Goes}

run_cancel-forced_example :
    find_task 1 (run_cancel env true running).1.tasks ≡ some (deploy TaskStatus.force_canceled)
unfolding find_task in_finalized_task_statuses
run_cancel-forced_example = run_cancel-forced env running 1 distinct refl refl refl

abbrev stuck : Store
stuck = migration TaskStatus.completed ExecutionStatus.running

check_clean_execution_deadlock-stranded_example :
    ((check_clean_execution_deadlock env none stuck).0 ≡ ok true)
    × ((check_clean_execution_deadlock env none stuck).1.status ≡ ExecutionStatus.deadlocked)
    × (find_task 2 (check_clean_execution_deadlock env none stuck).1.tasks
        ≡ some (with_status TaskStatus.canceled_from_deadlock transfer))
unfolding find_task is_deadlocked any
check_clean_execution_deadlock-stranded_example =
    check_clean_execution_deadlock-stranded env stuck 2 distinct refl refl

-- The worker for the second task is found.
abbrev lucky : Env
lucky = record env { start = λ n i. Start.accepted }

-- The migration before it begins.
abbrev fresh : Store
fresh = migration TaskStatus.scheduled ExecutionStatus.unexecuted

begin_tasks-Goes_example : Goes fresh (begin_tasks env fresh)
begin_tasks-Goes_example = begin_tasks-Goes env fresh distinct refl
