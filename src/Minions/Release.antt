-- ===== src/Minions/Release.antt =====
-- minion_manager/rpc/server.py: `deallocate_minion_machine`, `deallocate_minion_machines_for_action`
-- and `_cleanup_machines_with_statuses_for_action`, which give back the machines of an action.
pub mod View
pub mod Grouped
pub mod Returned
pub mod GivenBack
use coriolis.Prelude.{
  ℕ, ◌==◌, Bool, true, false, not, ◌&&◌, if◌then◌else◌, elem, select, map, Dict, List, [], ◌∷◌,
  ◌++◌, Option, none, some,
}
use coriolis.Action.{Action, ok, pure, ◌>>=◌, ◌>>◌}
use coriolis.Minions.{
  Machine, MachineStatus, is_uninitialized, find_machine, change_machine, machines_of_action,
  with_allocation, set_minion_machines_allocation_statuses, delete_minion_machine,
}

-- `pool_machine_mappings`: the machines by pool, the pools in the order of their first machines.
unfoldable pub add_to_pool : Machine → Dict (List Machine) → Dict (List Machine)
add_to_pool m [] = (m.pool_id, m ∷ []) ∷ []
add_to_pool m ((pool_id, ms) ∷ pools) =
    if pool_id == m.pool_id
    then (pool_id, ms ++ (m ∷ [])) ∷ pools
    else (pool_id, ms) ∷ add_to_pool m pools

unfoldable pub by_pool : List Machine → Dict (List Machine) → Dict (List Machine)
by_pool [] pools = pools
by_pool (m ∷ ms) pools = by_pool ms (add_to_pool m pools)

-- `deallocate_minion_machine`: a missing machine is no error, and the status does not matter.
unfoldable pub deallocate_minion_machine : ℕ → Action (List Machine) (Unit {0})
deallocate_minion_machine i ms = elim (find_machine i ms) [
  | none ↦ (ok tt, ms)
  | some m ↦ (ok tt, change_machine i (with_allocation none MachineStatus.available) ms)
]

-- The loop over the machines of one pool: rows that were never deployed are deleted, the identifiers
-- of the others are collected.
unfoldable pub sort_out : List Machine → List ℕ → Action (List Machine) (List ℕ)
sort_out [] found = pure found
sort_out (m ∷ ms) found =
    if is_uninitialized m.allocation_status
    then (do delete_minion_machine m.id; sort_out ms found)
    else sort_out ms (found ++ (m.id ∷ []))

unfoldable pub release_pool : List Machine → Action (List Machine) (Unit {0})
release_pool ms = do
  machine_ids_to_deallocate ← sort_out ms []
  set_minion_machines_allocation_statuses machine_ids_to_deallocate none MachineStatus.available
      none

unfoldable pub release_pools : Dict (List Machine) → Action (List Machine) (Unit {0})
release_pools [] = pure tt
release_pools ((pool_id, ms) ∷ pools) = do release_pool ms; release_pools pools

-- `deallocate_minion_machines_for_action`
unfoldable pub deallocate_minion_machines_for_action : ℕ → Action (List Machine) (Unit {0})
deallocate_minion_machines_for_action action ms =
    release_pools (by_pool (machines_of_action action ms) []) ms

unfoldable pub delete_each : List Machine → Action (List Machine) (Unit {0})
delete_each [] = pure tt
delete_each (m ∷ ms) = do delete_minion_machine m.id; delete_each ms

unfoldable pub delete_pools : Dict (List Machine) → Action (List Machine) (Unit {0})
delete_pools [] = pure tt
delete_pools ((pool_id, ms) ∷ pools) = do delete_each ms; delete_pools pools

-- `_cleanup_machines_with_statuses_for_action`
unfoldable pub cleanup_machines_with_statuses_for_action :
    (action : ℕ)
    → (targeted_statuses : MachineStatus → Bool) → (exclude_pools : List ℕ)
    → Action (List Machine) (Unit {0})
cleanup_machines_with_statuses_for_action action targeted exclude ms =
    delete_pools
      (by_pool
        (select (λ m. targeted m.allocation_status && not (elem m.pool_id exclude))
          (machines_of_action action ms))
        [])
      ms
