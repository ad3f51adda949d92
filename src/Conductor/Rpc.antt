-- ===== src/Conductor/Rpc.antt =====
-- conductor/rpc/server.py: the requests about one execution that the conductor answers, one after
-- another: each takes the execution's lock. A request that raises leaves what it has written.
pub mod Events
pub mod PostTask
pub mod Debugging
pub mod Handled
pub mod Failed
pub mod Runs
pub mod Hosts
pub mod Final
pub mod Outcomes
use coriolis.Prelude.{ℕ, ◌<◌, Bool, true, ◌≡◌, List, [], ◌∷◌}
use coriolis.Action.{Action}
use coriolis.Db.{Store, TaskInfo}
use coriolis.Conductor.Env.{Env}
use coriolis.Conductor.Cancel.{cancel_migration, cancel_replica_tasks_execution}
use coriolis.Conductor.Handlers.{
  set_task_host, set_task_process, task_completed, confirm_task_cancellation, set_task_error,
}

pub data Request : Type 0 where
  host : (task_id name : ℕ) → Request
  process : (task_id process_id : ℕ) → Request
  completed : (task_id : ℕ) (result : TaskInfo) → Request
  canceled : (task_id : ℕ) → Request
  error : (task_id : ℕ) → Request
  cancel : (executions : ℕ) (force : Bool) → Request
  cancel_replica : (force : Bool) → Request

unfoldable pub handle : Env → Request → Action Store (Unit {0})
handle env (host task_id name) = set_task_host task_id name
handle env (process task_id process_id) = set_task_process task_id process_id
handle env (completed task_id result) = task_completed env task_id result
handle env (canceled task_id) = confirm_task_cancellation env task_id
handle env (error task_id) = set_task_error env task_id
handle env (cancel executions force) = cancel_migration env executions force
handle env (cancel_replica force) = cancel_replica_tasks_execution env force

unfoldable pub run : Env → List Request → Store → Store
run env [] s = s
run env (r ∷ rs) s = run env rs (handle env r s).1

-- A worker that takes a task has a name, and `fails` holds of each task that is reported to fail.
abbrev pub IsAllowed : (ℕ → Bool) → Request → Type 0
IsAllowed fails (host task_id name) = 0 < name
IsAllowed fails (error task_id) = fails task_id ≡ true
IsAllowed fails _ = Unit {0}
