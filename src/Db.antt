-- ===== src/Db.antt =====
-- coriolis/db/api.py and db/sqlalchemy/models.py: the rows of one tasks execution, which the
-- conductor reads and writes under the execution's lock. Texts and identifiers are numbers.
-- `calls` counts the requests to other services, whose answers may differ from call to call, and
-- `effects` lists those that were sent, newest first.
pub mod Tasks
pub mod Info
use coriolis.Prelude.{
  Dict, lookup, insert, update, ℕ, suc, ◌+◌, ◌==◌, Bool, true, false, not, if◌then◌else◌, List, [],
  ◌∷◌, map, Option, none, some,
}
use coriolis.Constants.{TaskStatus, ExecutionStatus, TaskType}
use coriolis.Action.{Action, modify, ok, err, not_found}

pub record Task : Type 0 where
  pub id : ℕ
  pub instance_id : ℕ
  pub index : ℕ
  pub task_type : TaskType
  pub depends_on : List ℕ
  pub on_error : Bool
  pub status : TaskStatus
  pub host : Option ℕ
  pub process_id : Option ℕ

pub data ExecutionType : Type 0 where
  replica_execution replica_disks_delete replica_deploy migration replica_update : ExecutionType

pub data Effect : Type 0 where
  begin_task : (task_id : ℕ) → Effect
  cancel_task : (task_id : ℕ) (force : Bool) → Effect
  deallocate_minions delete_trust delete_reservation update_replica : Effect
  deallocate_minion_machine : (machine : ℕ) → Effect
  update_minion_properties : (machine properties : ℕ) → Effect
  set_transfer_result : (instance_id result : ℕ) → Effect
  update_volumes_info : (of_parent_replica : Bool) (instance_id volumes : ℕ) → Effect

-- A dictionary from the names of fields to values; 0 stands for each value that is false in Python.
abbrev pub TaskInfo : Type 0
TaskInfo = Dict ℕ

pub record Store : Type 0 where
  pub execution_type : ExecutionType
  pub status : ExecutionStatus
  pub last_execution_status : ExecutionStatus
  pub tasks : List Task
  -- `action.info`: the task info of each instance.
  pub info : Dict TaskInfo
  pub calls : ℕ
  pub effects : List Effect

-- The `.first()` row of a query by primary key.
unfoldable pub find_task : ℕ → List Task → Option Task
find_task i [] = none
find_task i (t ∷ ts) = if t.id == i then some t else find_task i ts

unfoldable pub change_task : ℕ → (Task → Task) → List Task → List Task
change_task i f [] = []
change_task i f (t ∷ ts) = if t.id == i then f t ∷ ts else t ∷ change_task i f ts

-- `task_statuses`, a dictionary from the identifiers of tasks to their statuses.
abbrev pub Statuses : Type 0
Statuses = Dict TaskStatus

abbrev pub statuses_of : List Task → Statuses
statuses_of [] = []
statuses_of (t ∷ ts) = (t.id, t.status) ∷ statuses_of ts

abbrev pub with_status : TaskStatus → Task → Task
with_status st t = record t { status = st }

-- `set_task_status`: a missing row raises NotFound.
unfoldable pub set_status : ℕ → TaskStatus → Store → Store
set_status i st s = record s { tasks = change_task i (with_status st) s.tasks }

unfoldable pub change_found : Option Task → (Store → Store) → Action Store (Unit {0})
change_found none f t = (err not_found, t)
change_found (some _) f t = (ok tt, f t)

unfoldable pub set_task_status : ℕ → TaskStatus → Action Store (Unit {0})
set_task_status i st s = change_found (find_task i s.tasks) (set_status i st) s

-- `update_transfer_action_info_for_instance`, and the value that it returns.
abbrev pub get_or_empty : Option TaskInfo → TaskInfo
get_or_empty none = []
get_or_empty (some d) = d

unfoldable pub updated_info : ℕ → TaskInfo → Dict TaskInfo → TaskInfo
updated_info i new_info info = update (get_or_empty (lookup i info)) new_info

unfoldable pub update_transfer_action_info_for_instance : ℕ → TaskInfo → Action Store TaskInfo
update_transfer_action_info_for_instance i [] s = (ok (get_or_empty (lookup i s.info)), s)
update_transfer_action_info_for_instance i (f ∷ new_info) s =
    let merged = updated_info i (f ∷ new_info) s.info in
    (ok merged, record s { info = insert i merged s.info })

-- Python's truth value of a text or a number that may be None; 0 stands for the empty text too.
abbrev pub is_truthy : Option ℕ → Bool
is_truthy none = false
is_truthy (some n) = not (n == 0)

abbrev pub with_host : Option ℕ → Option ℕ → Task → Task
with_host host process_id t = record t {
  host = if is_truthy host then host else t.host;
  process_id = if is_truthy process_id then process_id else t.process_id;
}

unfoldable pub set_task_host_properties : ℕ → Option ℕ → Option ℕ → Action Store (Unit {0})
set_task_host_properties i host process_id s =
    change_found (find_task i s.tasks)
      (λ u. record u { tasks = change_task i (with_host host process_id) u.tasks }) s

-- `set_execution_status`, which updates the status of the parent action as well.
unfoldable pub set_execution_status : ExecutionStatus → Store → Store
set_execution_status st s = record s { status = st; last_execution_status = st }

abbrev pub emit : Effect → Store → Store
emit e s = record s { effects = e ∷ s.effects }
