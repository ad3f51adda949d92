-- ===== src/Minions/Transfer.antt =====
-- minion_manager/rpc/server.py: the allocation of machines from the pools that a transfer action
-- uses, `_run_machine_allocation_subflow_for_action`, and the requests for it,
-- `allocate_minion_machines_for_replica` and `allocate_minion_machines_for_migration`.
pub mod Keys
pub mod Runs
pub mod Freed
pub mod Samples
use coriolis.Prelude.{
  ℕ, ◌==◌, Bool, true, false, not, ◌&&◌, if◌then◌else◌, is_empty, is_some, Dict, lookup, insert,
  List, [], ◌∷◌, ◌++◌, Option, none, some,
}
use coriolis.Action.{
  Action, Error, Result, ok, err, pure, raise, modify, require, or_raise, continue, ◌>>=◌, ◌>>◌,
  not_found, key_error, invalid_minion_pool_state, coriolis_exception,
}
use coriolis.Minions.{Machine, Pool, PoolStatus, is_uninitialized}
use coriolis.Minions.Allocate.{Outside, Plan, make_allocation_subflow}
use coriolis.Minions.Requests.{is_allocated}
use coriolis.Minions.Release.{
  deallocate_minion_machines_for_action, cleanup_machines_with_statuses_for_action,
}

-- The properties of an action that the allocation reads; 0 is no pool.
pub record TransferAction : Type 0 where
  pub id : ℕ
  pub instances : List ℕ
  pub origin_minion_pool_id : ℕ
  pub destination_minion_pool_id : ℕ
  -- from instances to pools
  pub instance_osmorphing_minion_pool_mappings : Dict ℕ

-- The machines of one instance.
pub record MinionIds : Type 0 where
  pub origin_minion_id : Option ℕ
  pub destination_minion_id : Option ℕ
  pub osmorphing_minion_id : Option ℕ

abbrev pub no_minions : MinionIds
no_minions = record {
  origin_minion_id = none;
  destination_minion_id = none;
  osmorphing_minion_id = none;
}

pub data Role : Type 0 where
  origin destination osmorphing : Role

abbrev pub with_minion : Role → ℕ → MinionIds → MinionIds
with_minion Role.origin i m = record m { origin_minion_id = some i }
with_minion Role.destination i m = record m { destination_minion_id = some i }
with_minion Role.osmorphing i m = record m { osmorphing_minion_id = some i }

-- `instance_machine_allocations`
abbrev pub Allocations : Type 0
Allocations = Dict MinionIds

unfoldable pub no_allocations : List ℕ → Allocations
no_allocations [] = []
no_allocations (i ∷ is) = insert i no_minions (no_allocations is)

-- What the allocation takes from elsewhere: for each use of a pool what one allocation takes, and
-- whether the task runner starts the flow.
pub record Elsewhere : Type 0 where
  pub outside : Role → (pool_id : ℕ) → Outside
  pub starts : Bool

unfoldable pub find_pool : ℕ → List Pool → Option Pool
find_pool i [] = none
find_pool i (p ∷ ps) = if p.id == i then some p else find_pool i ps

unfoldable pub register_minions : Role → Dict ℕ → Allocations → Action (List Machine) Allocations
register_minions role [] a = pure a
register_minions role ((instance_id, machine) ∷ more) a = do
  m ← or_raise (lookup instance_id a) key_error
  register_minions role more (insert instance_id (with_minion role machine m) a)

module _ (o : Elsewhere) (pools : List Pool) (action : TransferAction) where
  -- The part that is the same for each pool: it must exist and be ALLOCATED.
  unfoldable pub use_pool :
      Role → (pool_id : ℕ) → List ℕ → Allocations → Action (List Machine) Allocations
  use_pool role pool_id instances a = do
    pool ← or_raise (find_pool pool_id pools) not_found
    require (is_allocated pool.status) invalid_minion_pool_state
    plan ← make_allocation_subflow (o.outside role pool_id) pool action.id instances
    register_minions role plan.allocations a

  -- Where a pool is selected.
  abbrev pub use_selected : Bool → Role → ℕ → Allocations → Action (List Machine) Allocations
  use_selected include_minions role pool_id a =
      if include_minions && not (pool_id == 0)
      then use_pool role pool_id action.instances a
      else pure a

  -- The destination machines of the instances do their OSMorphing too.
  unfoldable pub reuse_minions : List ℕ → Allocations → Action (List Machine) Allocations
  reuse_minions [] a = pure a
  reuse_minions (i ∷ is) a = do
    m ← or_raise (lookup i a) key_error
    machine ← or_raise m.destination_minion_id key_error
    reuse_minions is (insert i (with_minion Role.osmorphing machine m) a)

  unfoldable pub use_osmorphing_pools :
      Bool → Dict (List ℕ) → Allocations → Action (List Machine) Allocations
  use_osmorphing_pools include_transfer [] a = pure a
  use_osmorphing_pools include_transfer ((pool_id, instances) ∷ more) a = do
    a' ←
        (if not (action.destination_minion_pool_id == 0)
            && pool_id == action.destination_minion_pool_id
            && include_transfer
          then reuse_minions instances a
          else use_pool Role.osmorphing pool_id instances a)
    use_osmorphing_pools include_transfer more a'

-- `osmorphing_pool_instance_mappings`
unfoldable pub add_instance : ℕ → ℕ → Dict (List ℕ) → Dict (List ℕ)
add_instance pool_id i [] = (pool_id, i ∷ []) ∷ []
add_instance pool_id i ((p, is) ∷ more) =
    if p == pool_id then (p, is ++ (i ∷ [])) ∷ more else (p, is) ∷ add_instance pool_id i more

unfoldable pub instances_by_pool : Dict ℕ → Dict (List ℕ) → Dict (List ℕ)
instances_by_pool [] pools = pools
instances_by_pool ((i, pool_id) ∷ more) pools =
    instances_by_pool more (add_instance pool_id i pools)

-- `_run_machine_allocation_subflow_for_action`
unfoldable pub run_machine_allocation_subflow_for_action :
    Elsewhere
    → List Pool
    → TransferAction
    → (include_transfer include_osmorphing : Bool) → Action (List Machine) Allocations
run_machine_allocation_subflow_for_action o pools action include_transfer include_osmorphing = do
  a ←
      use_selected o pools action include_transfer Role.origin action.origin_minion_pool_id
        (no_allocations action.instances)
  b ←
      use_selected o pools action include_transfer Role.destination
        action.destination_minion_pool_id a
  c ←
      (if include_osmorphing
        then use_osmorphing_pools o pools action include_transfer
            (instances_by_pool action.instance_osmorphing_minion_pool_mappings []) b
        else pure b)
  require o.starts coriolis_exception
  pure c

-- The machines, and the actions for which an error was reported to the conductor, newest first.
pub record Board : Type 0 where
  pub machines : List Machine
  pub allocation_errors : List ℕ

abbrev pub on_machines : {A : Type 0} → Action (List Machine) A → Action Board A
on_machines body s = let (r, ms) = body s.machines in (r, record s { machines = ms })

-- The handler: what the action has of machines is removed or given back, and the error goes on.
unfoldable pub clean_up : ℕ → Error → Action Board Allocations
clean_up action e = do
  on_machines (cleanup_machines_with_statuses_for_action action is_uninitialized [])
  on_machines (deallocate_minion_machines_for_action action)
  modify (λ s. record s { allocation_errors = action ∷ s.allocation_errors })
  raise e

abbrev pub or_clean_up : ℕ → Result Allocations → Action Board Allocations
or_clean_up action (ok a) = pure a
or_clean_up action (err e) = clean_up action e

unfoldable pub allocate_minion_machines :
    Elsewhere
    → List Pool
    → TransferAction
    → (include_transfer include_osmorphing : Bool) → Action Board Allocations
allocate_minion_machines o pools action include_transfer include_osmorphing s =
    let (r, s') =
      on_machines
        (run_machine_allocation_subflow_for_action o pools action include_transfer
          include_osmorphing)
        s in
    or_clean_up action.id r s'

unfoldable pub allocate_minion_machines_for_replica :
    Elsewhere → List Pool → TransferAction → Action Board Allocations
allocate_minion_machines_for_replica o pools action =
    allocate_minion_machines o pools action true false

unfoldable pub allocate_minion_machines_for_migration :
    Elsewhere
    → List Pool
    → TransferAction
    → (include_transfer include_osmorphing : Bool) → Action Board Allocations
allocate_minion_machines_for_migration o pools action include_transfer include_osmorphing =
    allocate_minion_machines o pools action include_transfer include_osmorphing
