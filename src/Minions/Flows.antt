-- ===== src/Minions/Flows.antt =====
-- minion_manager/rpc/server.py and rpc/tasks.py: the linear flows that allocate and deallocate a pool,
-- and what their tasks do to the row of the pool when they are executed and reverted.
pub mod Ends
pub mod Outcomes
use coriolis.Prelude.{
  all, ℕ, zero, suc, ◌==◌, Bool, true, false, if◌then◌else◌, is_empty, List, [], ◌∷◌, ◌++◌, map,
  Option, none, some,
}
use coriolis.Action.{Result, ok, err, and_then, invalid_minion_pool_state, coriolis_exception}
use coriolis.Minions.{Machine, Pool, PoolStatus}
use coriolis.Minions.Updates.{no_values, update_fields}
use coriolis.Minions.Allocate.{MachineTask}

pub data PoolTask : Type 0 where
  -- `UpdateMinionPoolStatusTask`
  update_status : (target_status : PoolStatus) (status_to_revert_to : Option PoolStatus) → PoolTask
  validate_options allocate_shared_resources deallocate_shared_resources : PoolTask
  -- the unordered flow over the machines
  machines : List MachineTask → PoolTask

abbrev pub machines_flow : PoolStatus → Option PoolStatus → List MachineTask → List PoolTask
machines_flow st back [] = []
machines_flow st back (t ∷ ts) = PoolTask.update_status st back ∷ PoolTask.machines (t ∷ ts) ∷ []

-- `_get_minion_pool_allocation_flow`, for the new identifiers of `minimum_minions` machines.
unfoldable pub get_minion_pool_allocation_flow : List ℕ → List PoolTask
get_minion_pool_allocation_flow machine_ids =
    PoolTask.update_status PoolStatus.validating_inputs (some PoolStatus.error)
    ∷ PoolTask.validate_options
    ∷ PoolTask.update_status PoolStatus.allocating_shared_resources none
    ∷ PoolTask.allocate_shared_resources
    ∷ (machines_flow PoolStatus.allocating_machines none (map MachineTask.allocate machine_ids)
        ++ (PoolTask.update_status PoolStatus.allocated none ∷ []))

-- `_get_minion_pool_deallocation_flow`
unfoldable pub get_minion_pool_deallocation_flow : List Machine → List PoolTask
get_minion_pool_deallocation_flow ms =
    machines_flow PoolStatus.deallocating_machines (some PoolStatus.error)
      (map (λ m. MachineTask.deallocate m.id) ms)
    ++ (PoolTask.update_status PoolStatus.deallocating_shared_resources (some PoolStatus.error)
        ∷ PoolTask.deallocate_shared_resources
        ∷ PoolTask.update_status PoolStatus.deallocated none
        ∷ [])

-- A task that has been executed, with the status of the pool when it began (`_previous_status`).
pub record Executed : Type 0 where
  pub task : PoolTask
  pub previous_status : PoolStatus

-- The workers: whether they do what a task asks of them, all its machines included, the shared
-- resources that they return, and whether the revert of the deployment of a machine returns, as it
-- does if they delete the machine or there is none.
pub record Worker : Type 0 where
  pub succeeds : PoolTask → Bool
  pub resources : ℕ
  pub cleans_up : ℕ → Bool

-- `BaseRunWorkerTask._execute_task`: the failure of a task on a worker is raised.
abbrev pub if_successful : Worker → PoolTask → Pool → Result Pool
if_successful w t pool = if w.succeeds t then ok pool else err coriolis_exception

-- `AllocateSharedPoolResourcesTask.execute`: a pool that has shared resources already gets no others.
abbrev pub allocate_shared : Worker → Pool → Result Pool
allocate_shared w pool =
    if pool.shared_resources == 0
    then if_successful w PoolTask.allocate_shared_resources
        (update_fields (record no_values { shared_resources = some w.resources }) pool)
    else err invalid_minion_pool_state

-- `AllocateSharedPoolResourcesTask.revert`, after the cleanup on the worker, whose failure is logged.
abbrev pub revert_shared : Pool → Pool
revert_shared pool = update_fields (record no_values { pool_shared_resources = some 0 }) pool

-- `DeallocateSharedPoolResourcesTask.execute`
abbrev pub deallocate_shared : Worker → Pool → Result Pool
deallocate_shared w pool =
    if_successful w PoolTask.deallocate_shared_resources
      (update_fields (record no_values { shared_resources = some 0 }) pool)

-- `execute`
unfoldable pub execute : Worker → PoolTask → Pool → Result Pool
execute w (PoolTask.update_status target back) pool = ok (record pool { status = target })
execute w PoolTask.validate_options pool = if_successful w PoolTask.validate_options pool
execute w PoolTask.allocate_shared_resources pool = allocate_shared w pool
execute w PoolTask.deallocate_shared_resources pool = deallocate_shared w pool
execute w (PoolTask.machines ts) pool = if_successful w (PoolTask.machines ts) pool

abbrev pub or_else : Option PoolStatus → PoolStatus → PoolStatus
or_else none st = st
or_else (some st) _ = st

-- `revert`
unfoldable pub revert_task : Executed → Pool → Pool
revert_task e pool = elim e.task [
  | PoolTask.update_status target back ↦ record pool { status = or_else back e.previous_status }
  | PoolTask.validate_options ↦ pool
  | PoolTask.allocate_shared_resources ↦ revert_shared pool
  | PoolTask.deallocate_shared_resources ↦ pool
  | PoolTask.machines ts ↦ pool
]

-- Tasks that are executed one after another, with those before them, newest first.
unfoldable pub execute_each :
    Worker → List PoolTask → Pool → List Executed → Result (Pool × List Executed)
execute_each w [] pool done = ok (pool, done)
execute_each w (t ∷ ts) pool done =
    and_then (execute w t pool)
      λ p. execute_each w ts p (record { task = t; previous_status = pool.status } ∷ done)

unfoldable pub revert_each : List Executed → Pool → Pool
revert_each [] pool = pool
revert_each (e ∷ es) pool = revert_each es (revert_task e pool)

-- Whether the revert of a task returns. That of `AllocateMinionMachineTask` raises where the cleanup
-- fails, since `_get_minion_pool_allocation_flow` leaves `raise_on_cleanup_failure` set.
abbrev pub reverts_machine : Worker → MachineTask → Bool
reverts_machine w (MachineTask.allocate id) = w.cleans_up id
reverts_machine w _ = true

abbrev pub reverts : Worker → PoolTask → Bool
reverts w (PoolTask.machines ts) = all (reverts_machine w) ts
reverts w _ = true

-- The engine reverts the executed tasks until a revert raises.
unfoldable pub undo_each : Worker → List Executed → Pool → Pool
undo_each w [] pool = pool
undo_each w (e ∷ es) pool = elim (reverts w e.task) [
  | true ↦ undo_each w es (revert_task e pool)
  | false ↦ pool
]

-- `_run_flow`, after the tasks in `done`: if a task fails, the engine reverts it and those that were
-- executed.
unfoldable pub run_flow : Worker → List PoolTask → Pool → List Executed → Pool
run_flow w [] pool done = pool
run_flow w (t ∷ ts) pool done =
    let done' = record { task = t; previous_status = pool.status } ∷ done in
    elim (execute w t pool) [ ok p ↦ run_flow w ts p done' | err e ↦ undo_each w done' pool ]
