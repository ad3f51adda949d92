-- ===== src/Conductor/Create.antt =====
-- conductor/rpc/server.py: `_create_task`, and `_begin_tasks`, which starts an execution.
use coriolis.Prelude.{
  length, ℕ, suc, ◌+◌, ◌==◌, Bool, true, false, not, ◌&&◌, if◌then◌else◌, any, is_empty, List, [],
  ◌∷◌, ◌++◌, none,
}
use coriolis.Constants.{TaskStatus, ExecutionStatus, TaskType, is_scheduled, is_on_error_only}
use coriolis.Action.{
  Action, pure, raise, gets, modify, require, ◌>>=◌, ◌>>◌, not_found,
  invalid_action_tasks_execution_state,
}
use coriolis.Db.{Store, Task}
use coriolis.Conductor.Env.{Env}
use coriolis.Conductor.Status.{set_tasks_execution_status}
use coriolis.Conductor.Advance.{start_task}
use coriolis.Conductor.Cancel.{waiting, cancel_tasks_execution}

-- Whether one of the dependencies is a task of the execution that does not wait for an error.
unfoldable pub has_scheduled_dependency : List Task → List ℕ → Bool
has_scheduled_dependency tasks depends_on =
    any (λ d. any (λ t. t.id == d && not (is_on_error_only t.status)) tasks) depends_on

-- The status that a new task has.
unfoldable pub initial_status : List Task → List ℕ → Bool → Bool → TaskStatus
initial_status tasks depends_on on_error on_error_only =
    if not on_error && not on_error_only
    then TaskStatus.scheduled
    else if on_error_only
    then TaskStatus.on_error_only
    else if not (is_empty depends_on)
    then (if has_scheduled_dependency tasks depends_on
        then TaskStatus.scheduled
        else TaskStatus.on_error_only)
    else TaskStatus.scheduled

-- `_create_task`, with the identifier that `uuid` gives; `tasks` are those of the execution.
unfoldable pub create_task : ℕ → ℕ → TaskType → List Task → List ℕ → Bool → Bool → Task
create_task id instance task_type tasks depends_on on_error on_error_only = record {
  id = id;
  instance_id = instance;
  index = length tasks + 1;
  task_type = task_type;
  depends_on = depends_on;
  on_error = if on_error_only then true else on_error;
  status = initial_status tasks depends_on on_error on_error_only;
  host = none;
  process_id = none;
}

module _ (env : Env) where
  -- What a failed start leads to: the cancellation of the execution.
  unfoldable pub cancel_started : Action Store (Unit {0})
  cancel_started s = cancel_tasks_execution env (suc (waiting s.tasks)) false s

  -- The loop over the tasks, with `newly_started_tasks`.
  unfoldable pub begin_each : List Task → List ℕ → Action Store (List ℕ)
  begin_each [] started = pure started
  begin_each (t ∷ ts) started =
      if is_empty t.depends_on && is_scheduled t.status
      then (start_task env cancel_started t.id >>= λ st. begin_each ts (started ++ t.id ∷ []))
      else begin_each ts started

  unfoldable pub begin_tasks : Action Store (Unit {0})
  begin_tasks = do
    require env.endpoints_found not_found
    tasks ← gets (λ s. s.tasks)
    started ← begin_each tasks []
    (if is_empty started
        then raise invalid_action_tasks_execution_state
        else modify (λ s. set_tasks_execution_status env s.status ExecutionStatus.running s))
