-- ===== src/Conductor/Samples.antt =====
-- A migration of one instance, and the theorems applied to it.
use coriolis.Prelude.{
  ◌⊎◌, is_empty, all, arith, ◌<◌, ◌==◌, ◌&&◌, if◌then◌else◌, ℕ, true, false, List, [], ◌∷◌, none,
  some, ◌≡◌, refl, ◌↔◌,
}
use coriolis.Constants.{TaskStatus, ExecutionStatus, TaskType}
use coriolis.Conductor.Create.{initial_status}
use coriolis.Conductor.FirstStatus.{DependsOnRunnable, initial_status-scheduled}
use coriolis.Db.{Task, Store, ExecutionType, find_task}
use coriolis.Db.Tasks.{IsDistinct}
use coriolis.Conductor.Env.{Env, Start}
use coriolis.Conductor.Advance.{Decision, decide_from_parents}
use coriolis.Conductor.Ready.{AllowsStart, decide_from_parents-start}
use coriolis.Conductor.Status.{get_execution_status}
use coriolis.Conductor.StatusLaws.{Promises, get_execution_status-Promises}
use coriolis.Conductor.Cancel.{run_cancel, run_advance}
use coriolis.Conductor.Handlers.{task_completed, confirm_task_cancellation, set_task_error}
use coriolis.Conductor.Steps.Goes.{Goes}
use coriolis.Conductor.Steps.Cancel.{run_cancel-Goes, run_advance-Goes}
use coriolis.Conductor.Rpc.{Request, run}
use coriolis.Conductor.Rpc.Hosts.{IsHosted, run-IsHosted}
use coriolis.Conductor.Rpc.Final.{run-settled, run-finalized}
use coriolis.Conductor.Rpc.Outcomes.{
  set_task_error-row, task_completed-row, confirm_task_cancellation-row,
}
use coriolis.Constants.{is_finalized_execution}

-- The second task's worker cannot be found at first.
abbrev pub start : ℕ → ℕ → Start
start n task_id = if n == 0 && task_id == 2 then Start.no_worker else Start.accepted

abbrev pub env : Env
env = record {
  start = start;
  cancel_sent = λ n i. true;
  endpoints_found = true;
  delete_trust_id = true;
  debug_os_morphing_errors = false;
  has_reservation = true;
  is_valid_export_info = λ n. true;
}

abbrev pub deploy : TaskStatus → Task
deploy st = record {
  id = 1;
  instance_id = 7;
  index = 1;
  task_type = TaskType.create_instance_disks;
  depends_on = [];
  on_error = false;
  status = st;
  host = some 5;
  process_id = some 9;
}

abbrev pub transfer : Task
transfer = record {
  id = 2;
  instance_id = 7;
  index = 2;
  task_type = TaskType.replicate_disks;
  depends_on = 1 ∷ [];
  on_error = false;
  status = TaskStatus.scheduled;
  host = none;
  process_id = none;
}

abbrev pub cleanup : Task
cleanup = record {
  id = 3;
  instance_id = 7;
  index = 3;
  task_type = TaskType.delete_migration_target_resources;
  depends_on = 1 ∷ 2 ∷ [];
  on_error = true;
  status = TaskStatus.scheduled;
  host = none;
  process_id = none;
}

abbrev pub migration : TaskStatus → ExecutionStatus → Store
migration st execution_status = record {
  execution_type = ExecutionType.migration;
  status = execution_status;
  last_execution_status = execution_status;
  tasks = deploy st ∷ transfer ∷ cleanup ∷ [];
  info = (7, []) ∷ [];
  calls = 0;
  effects = [];
}

abbrev pub running : Store
running = migration TaskStatus.running ExecutionStatus.running

pub distinct : IsDistinct running.tasks
distinct = ((refl, (refl, tt)), ((refl, tt), (tt, tt)))

positive : 0 < 6
positive = omega arith

abbrev requests : List Request
requests =
    Request.completed 1 [] ∷ Request.host 2 6 ∷ Request.process 2 8 ∷ Request.cancel 1 false ∷ []

run_cancel-Goes_example : Goes running (run_cancel env false running)
run_cancel-Goes_example = run_cancel-Goes env false running distinct

run_advance-Goes_example :
    Goes
      (migration TaskStatus.completed ExecutionStatus.running)
      (run_advance env none (migration TaskStatus.completed ExecutionStatus.running))
run_advance-Goes_example =
    run_advance-Goes env none (migration TaskStatus.completed ExecutionStatus.running) distinct

decide_from_parents-start_example :
    decide_from_parents (3 ∷ []) 3 ((1, TaskStatus.completed) ∷ (2, TaskStatus.error) ∷ [])
      ≡ Decision.start
    ↔ AllowsStart (3 ∷ []) 3 ((1, TaskStatus.completed) ∷ (2, TaskStatus.error) ∷ [])
decide_from_parents-start_example =
    decide_from_parents-start (3 ∷ []) 3 (1, TaskStatus.completed) ((2, TaskStatus.error) ∷ [])

get_execution_status-Promises_example :
    (get_execution_status ((1, TaskStatus.running) ∷ []) ≡ ExecutionStatus.running)
    ↔ Promises ((1, TaskStatus.running) ∷ []) ExecutionStatus.running
get_execution_status-Promises_example =
    get_execution_status-Promises ((1, TaskStatus.running) ∷ []) ExecutionStatus.running

run-IsHosted_example : IsHosted (run env requests running)
unfolding all
run-IsHosted_example =
    run-IsHosted env (λ _. false) requests running (tt, (positive, (tt, (tt, tt)))) distinct refl

run-settled_example :
    find_task 1 (run env requests (migration TaskStatus.completed ExecutionStatus.running)).tasks
    ≡ some (deploy TaskStatus.completed)
unfolding find_task
run-settled_example =
    run-settled env (λ _. false) requests (migration TaskStatus.completed ExecutionStatus.running) 1
      (deploy TaskStatus.completed) (tt, (positive, (tt, (tt, tt)))) distinct refl refl refl

run-finalized_example :
    is_finalized_execution
      (run env requests (migration TaskStatus.running ExecutionStatus.error)).status
    ≡ true
run-finalized_example =
    run-finalized env (λ _. false) requests (migration TaskStatus.running ExecutionStatus.error)
      (tt, (positive, (tt, (tt, tt)))) distinct refl

set_task_error-row_example :
    find_task 1 (set_task_error env 1 running).1.tasks ≡ some (deploy TaskStatus.error)
unfolding find_task
set_task_error-row_example = set_task_error-row env 1 running distinct refl

task_completed-row_example :
    find_task 1 (task_completed env 1 [] running).1.tasks ≡ some (deploy TaskStatus.completed)
unfolding find_task
task_completed-row_example = task_completed-row env 1 running distinct refl []

confirm_task_cancellation-row_example :
    find_task 1 (confirm_task_cancellation env 1 running).1.tasks
    ≡ some (deploy TaskStatus.canceled)
unfolding find_task
confirm_task_cancellation-row_example = confirm_task_cancellation-row env 1 running distinct refl

initial_status-scheduled_example :
    (initial_status (transfer ∷ []) (2 ∷ []) true false ≡ TaskStatus.scheduled) ↔ (
      (false ≡ false)
      × ((true ≡ false)
          ⊎ (is_empty {A = ℕ} (2 ∷ []) ≡ true)
          ⊎ DependsOnRunnable (transfer ∷ []) (2 ∷ [])))
initial_status-scheduled_example = initial_status-scheduled (transfer ∷ []) (2 ∷ []) true false
