-- ===== src/Minions.antt =====
-- minion_manager/rpc/server.py and rpc/tasks.py, with the tables of minion pools and machines in
-- db/api.py and db/sqlalchemy/models.py. A pool keeps machines that do the work of tasks; each
-- request and each task takes the lock of its pool. Texts and identifiers are numbers.
pub mod Rows
pub mod Transfer
pub mod Select
pub mod Samples
pub mod Release
pub mod Requests
pub mod Flows
pub mod Jobs
pub mod Refresh
pub mod Updates
pub mod Allocate
use coriolis.Prelude.{
  ℕ, ◌==◌, Bool, true, false, not, if◌then◌else◌, all, is_some, select, List, [], ◌∷◌, ◌++◌, Option,
  none, some,
}
use coriolis.Action.{Action, gets, modify, require, ok, err, not_found, database_error, ◌>>=◌, ◌>>◌}

pub data MachineStatus : Type 0 where
  uninitialized healthchecking allocating deallocating error powering_off power_error
        error_deploying available in_use reserved :
      MachineStatus

pub data PowerStatus : Type 0 where
  unknown uninitialized powered_on powered_off powering_on powering_off : PowerStatus

pub data PoolStatus : Type 0 where
  unknown error deallocated validating_inputs allocating_shared_resources allocating_machines
        deallocating_machines deallocating_shared_resources allocated pool_maintenance :
      PoolStatus

-- What is done with machines that a pool no longer needs; any other text is unknown.
pub data Retention : Type 0 where
  delete poweroff unknown : Retention

pub data Platform : Type 0 where
  source destination : Platform

pub record Machine : Type 0 where
  pub id : ℕ
  pub pool_id : ℕ
  pub allocation_status : MachineStatus
  pub power_status : PowerStatus
  pub allocated_action : Option ℕ
  pub last_used_at : Option ℕ
  -- 0 if they are missing or empty
  pub connection_info : ℕ
  pub provider_properties : ℕ

pub record Pool : Type 0 where
  pub id : ℕ
  pub endpoint_id : ℕ
  pub platform : Platform
  pub is_linux : Bool
  pub status : PoolStatus
  pub shared_resources : ℕ
  pub minimum_minions : ℕ
  pub maximum_minions : ℕ
  pub minion_max_idle_time : ℕ
  pub minion_retention_strategy : Retention

abbrev pub is_available : MachineStatus → Bool
is_available MachineStatus.available = true
is_available _ = false

abbrev pub is_uninitialized : MachineStatus → Bool
is_uninitialized MachineStatus.uninitialized = true
is_uninitialized _ = false

abbrev pub is_action : ℕ → Option ℕ → Bool
is_action action none = false
is_action action (some a) = a == action

-- `get_minion_machine`: the `.first()` row of a query by primary key.
unfoldable pub find_machine : ℕ → List Machine → Option Machine
find_machine i [] = none
find_machine i (m ∷ ms) = if m.id == i then some m else find_machine i ms

unfoldable pub change_machine : ℕ → (Machine → Machine) → List Machine → List Machine
change_machine i f [] = []
change_machine i f (m ∷ ms) = if m.id == i then f m ∷ ms else m ∷ change_machine i f ms

-- `get_minion_machines(context, allocated_action_id=action)`, for an identifier that is not empty, as
-- those of actions are: an empty one would select all machines.
unfoldable pub machines_of_action : ℕ → List Machine → List Machine
machines_of_action action ms = select (λ m. is_action action m.allocated_action) ms

-- `MinionPool.minion_machines`
unfoldable pub minion_machines : ℕ → List Machine → List Machine
minion_machines pool_id ms = select (λ m. m.pool_id == pool_id) ms

abbrev pub with_allocation : Option ℕ → MachineStatus → Machine → Machine
with_allocation action status m = record m { allocated_action = action; allocation_status = status }

-- The time of use is refreshed where `used` gives one.
abbrev pub with_use : Option ℕ → Machine → Machine
with_use none m = m
with_use (some now) m = record m { last_used_at = some now }

unfoldable pub set_each : List ℕ → (Machine → Machine) → List Machine → List Machine
set_each [] f ms = ms
set_each (i ∷ is) f ms = set_each is f (change_machine i f ms)

unfoldable pub set_minion_machines_allocation_statuses :
    List ℕ → Option ℕ → MachineStatus → Option ℕ → Action (List Machine) (Unit {0})
set_minion_machines_allocation_statuses ids action status used = do
  found ← gets (λ ms. all (λ i. is_some (find_machine i ms)) ids)
  require found not_found
  modify (set_each ids (λ m. with_allocation action status (with_use used m)))

unfoldable pub set_minion_machine_allocation_status :
    ℕ → MachineStatus → Action (List Machine) (Unit {0})
set_minion_machine_allocation_status i status = do
  found ← gets (λ ms. is_some (find_machine i ms))
  require found not_found
  modify (change_machine i (λ m. record m { allocation_status = status }))

-- The identifier is the primary key, and a row that is inserted comes last in the queries that list
-- machines.
unfoldable pub add_minion_machine : Machine → Action (List Machine) (Unit {0})
add_minion_machine m ms =
    if is_some (find_machine m.id ms) then (err database_error, ms) else (ok tt, ms ++ (m ∷ []))

unfoldable pub delete_minion_machine : ℕ → Action (List Machine) (Unit {0})
delete_minion_machine i = do
  found ← gets (λ ms. is_some (find_machine i ms))
  require found not_found
  modify (select (λ m. not (m.id == i)))
