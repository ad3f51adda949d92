-- ===== src/Minions/Requests.antt =====
-- minion_manager/rpc/server.py: the requests about one pool, `allocate_minion_pool`,
-- `deallocate_minion_pool`, `refresh_minion_pool`, `update_minion_pool` and `delete_minion_pool`.
pub mod Guards
use coriolis.Prelude.{
  ℕ, zero, suc, ◌==◌, Bool, true, false, not, ◌||◌, if◌then◌else◌, is_empty, select, List, [], ◌∷◌,
  ◌++◌, Option, none, some, map,
}
use coriolis.Action.{
  Action, Error, Result, ok, err, pure, raise, gets, modify, require, continue, ◌>>=◌, ◌>>◌,
  invalid_minion_pool_state, not_found, coriolis_exception,
}
use mathlib.Core.Option
use coriolis.Cron.{Jobs, unregister_jobs_with_prefix}
use coriolis.Minions.{Machine, MachineStatus, Pool, PoolStatus, Retention, minion_machines}
use coriolis.Minions.Updates.{Values, update_fields}
use coriolis.Minions.Allocate.{MachineTask}
use coriolis.Minions.Refresh.{get_minion_pool_refresh_flow}
use coriolis.Minions.Flows.{
  PoolTask, get_minion_pool_allocation_flow, get_minion_pool_deallocation_flow,
}
use coriolis.Minions.Jobs.{Period, register_refresh_jobs_for_minion_pool}

-- A flow that was given to the task runner.
pub data Flow : Type 0 where
  pool_flow : List PoolTask → Flow
  refresh_flow : List MachineTask → Flow

-- The row of a pool, `none` once it is deleted, the machines of all pools, the jobs of the cron and
-- the flows that were started, newest first.
pub record Site : Type 0 where
  pub pool : Option Pool
  pub machines : List Machine
  pub jobs : Jobs
  pub flows : List Flow

-- What the requests take from elsewhere: whether the runner starts a flow, the identifiers that
-- `uuid4` gives for new machines, the time, the configured period, the names of refresh jobs, whether
-- the pool has a `maintenance_trust_id` and whether keystone deletes this trust.
pub record RequestEnv : Type 0 where
  pub starts : Flow → Bool
  pub uuids : ℕ → List ℕ
  pub now : ℕ
  pub period : Period
  pub job_name : ℕ → ℕ
  pub has_prefix : ℕ → Bool
  pub has_trust : Bool
  pub deletes_trust : Bool

abbrev pub is_deallocated : PoolStatus → Bool
is_deallocated PoolStatus.deallocated = true
is_deallocated _ = false

abbrev pub is_allocated : PoolStatus → Bool
is_allocated PoolStatus.allocated = true
is_allocated _ = false

-- `acceptable_deallocation_statuses`
abbrev pub is_deallocatable : PoolStatus → Bool
is_deallocatable PoolStatus.allocated = true
is_deallocatable PoolStatus.error = true
is_deallocatable _ = false

-- `acceptable_deletion_statuses`
abbrev pub is_deletable : PoolStatus → Bool
is_deletable PoolStatus.deallocated = true
is_deletable PoolStatus.error = true
is_deletable _ = false

-- `unused_machine_states`
abbrev pub is_unused : MachineStatus → Bool
is_unused MachineStatus.available = true
is_unused MachineStatus.error_deploying = true
is_unused MachineStatus.power_error = true
is_unused MachineStatus.error = true
is_unused _ = false

-- `_check_pool_machines_in_use`
unfoldable pub used_machines : List Machine → List Machine
used_machines ms = select (λ m. not (is_unused m.allocation_status)) ms

abbrev pub with_pool_status : PoolStatus → Pool → Pool
with_pool_status st p = record p { status = st }

abbrev pub set_pool_status : PoolStatus → Site → Site
set_pool_status st s = record s { pool = Option.map (with_pool_status st) s.pool }

-- `run_flow_in_background`
abbrev pub start_flow : RequestEnv → Flow → Action Site (Unit {0})
start_flow env f s =
    if env.starts f then (ok tt, record s { flows = f ∷ s.flows }) else (err coriolis_exception, s)

-- The handler of an exception: the status is set back, and the exception is raised again.
abbrev pub or_set_back : PoolStatus → Result (Unit {0}) → Site → Result (Unit {0}) × Site
or_set_back st (ok u) s = (ok tt, s)
or_set_back st (err e) s = (err e, set_pool_status st s)

abbrev pub try_or_set_back : PoolStatus → Action Site (Unit {0}) → Action Site (Unit {0})
try_or_set_back st body s = let (r, s') = body s in or_set_back st r s'

abbrev pub with_pool : (Pool → Action Site (Unit {0})) → Action Site (Unit {0})
with_pool body s = elim s.pool [ none ↦ (err not_found, s) | some p ↦ body p s ]

unfoldable pub allocate_minion_pool : RequestEnv → Action Site (Unit {0})
allocate_minion_pool env = with_pool λ p. do
  require (is_deallocated p.status) invalid_minion_pool_state
  try_or_set_back p.status (do
    modify (set_pool_status PoolStatus.pool_maintenance)
    start_flow env (Flow.pool_flow (get_minion_pool_allocation_flow (env.uuids p.minimum_minions)))
    modify (λ s. record s {
      jobs = register_refresh_jobs_for_minion_pool env.job_name env.period s.jobs;
    }))

-- The part of `deallocate_minion_pool` for a pool that is not deallocated.
unfoldable pub deallocate_pool : RequestEnv → Bool → Pool → Action Site (Unit {0})
deallocate_pool env force p = do
  require (is_deallocatable p.status || force) invalid_minion_pool_state
  ms ← gets (λ s. minion_machines p.id s.machines)
  require (is_empty (used_machines ms) || force) invalid_minion_pool_state
  try_or_set_back p.status (do
    modify (set_pool_status PoolStatus.pool_maintenance)
    start_flow env (Flow.pool_flow (get_minion_pool_deallocation_flow ms))
    modify (λ s. record s { jobs = unregister_jobs_with_prefix env.has_prefix s.jobs }))

unfoldable pub deallocate_minion_pool : RequestEnv → Bool → Action Site (Unit {0})
deallocate_minion_pool env force =
    with_pool λ p. if is_deallocated p.status then pure tt else deallocate_pool env force p

abbrev pub update_machines :
    Action (List Machine) (List MachineTask) → Action Site (List MachineTask)
update_machines body s = let (r, ms) = body s.machines in (r, record s { machines = ms })

-- A flow with no tasks is not started.
abbrev pub start_refresh : RequestEnv → List MachineTask → Action Site (Unit {0})
start_refresh env [] = pure tt
start_refresh env (t ∷ ts) = start_flow env (Flow.refresh_flow (t ∷ ts))

unfoldable pub refresh_minion_pool : RequestEnv → Action Site (Unit {0})
refresh_minion_pool env = with_pool λ p. do
  require (is_allocated p.status) invalid_minion_pool_state
  flow ← update_machines (get_minion_pool_refresh_flow p env.now)
  start_refresh env flow

unfoldable pub update_minion_pool : Values → Action Site (Unit {0})
update_minion_pool v = with_pool λ p. do
  require (is_deallocated p.status) invalid_minion_pool_state
  modify (λ s. record s { pool = Option.map (update_fields v) s.pool })

unfoldable pub delete_minion_pool : RequestEnv → Action Site (Unit {0})
delete_minion_pool env = with_pool λ p. do
  require (is_deletable p.status) invalid_minion_pool_state
  modify (λ s. record s { jobs = unregister_jobs_with_prefix env.has_prefix s.jobs })
  modify (λ s. record s { pool = none })
  require (not env.has_trust || env.deletes_trust) coriolis_exception

pub data PoolRequest : Type 0 where
  allocate refresh delete : PoolRequest
  deallocate : (force : Bool) → PoolRequest
  update : Values → PoolRequest

unfoldable pub handle_request : RequestEnv → PoolRequest → Action Site (Unit {0})
handle_request env PoolRequest.allocate = allocate_minion_pool env
handle_request env PoolRequest.refresh = refresh_minion_pool env
handle_request env PoolRequest.delete = delete_minion_pool env
handle_request env (PoolRequest.deallocate force) = deallocate_minion_pool env force
handle_request env (PoolRequest.update v) = update_minion_pool v
