-- ===== src/Minions/Transfer/Samples.antt =====
-- An allocation that fails, and the theorem on it applied.
use coriolis.Prelude.{lookup, insert, all, true, false, select, elem, [], ◌∷◌, ◌≡◌, refl}
use coriolis.Action.{Result, err, coriolis_exception, ◌>>=◌}
use coriolis.Minions.{
  set_minion_machines_allocation_statuses, set_each, change_machine, add_minion_machine,
  delete_minion_machine, find_machine, minion_machines, machines_of_action,
}
use coriolis.Minions.Allocate.{
  plan_machines, make_allocation_subflow, is_short, select_machine, write_plan, add_each,
  revert_allocation,
}
use coriolis.Minions.Release.{
  deallocate_minion_machines_for_action, add_to_pool, by_pool,
  cleanup_machines_with_statuses_for_action, delete_each, delete_pools, release_pool, release_pools,
  sort_out,
}
use coriolis.Minions.Transfer.{
  TransferAction, Allocations, Elsewhere, Board, allocate_minion_machines,
  run_machine_allocation_subflow_for_action, use_pool, find_pool, clean_up, register_minions,
  instances_by_pool, no_allocations, use_osmorphing_pools,
}
use coriolis.Minions.Transfer.Freed.{allocate_minion_machines-freed}
use coriolis.Minions.Samples.{pool, machines, outside, instances, distinct}

-- An action with a pool at its destination, where the task runner starts no flow.
abbrev replica : TransferAction
replica = record {
  id = 8;
  instances = instances;
  origin_minion_pool_id = 0;
  destination_minion_pool_id = 1;
  instance_osmorphing_minion_pool_mappings = [];
}

abbrev no_start : Elsewhere
no_start = record { outside = λ role pool_id. outside; starts = false }

abbrev board : Board
board = record { machines = machines; allocation_errors = [] }

abbrev not_allocated : Result Allocations × Board
not_allocated = allocate_minion_machines no_start (pool ∷ []) replica true false board

fails : not_allocated.0 ≡ err coriolis_exception
unfolding allocate_minion_machines run_machine_allocation_subflow_for_action use_pool find_pool
    clean_up ◌>>=◌ make_allocation_subflow is_short select minion_machines plan_machines lookup
    select_machine elem insert write_plan set_minion_machines_allocation_statuses all find_machine
    add_each set_each change_machine register_minions revert_allocation add_to_pool by_pool
    cleanup_machines_with_statuses_for_action deallocate_minion_machines_for_action delete_each
    delete_pools release_pool release_pools sort_out instances_by_pool no_allocations
    use_osmorphing_pools add_minion_machine delete_minion_machine machines_of_action
fails = refl

allocate_minion_machines-freed_example :
    (machines_of_action 8 not_allocated.1.machines ≡ [])
    × (not_allocated.1.allocation_errors ≡ 8 ∷ [])
allocate_minion_machines-freed_example =
    allocate_minion_machines-freed no_start (pool ∷ []) replica true false board distinct fails
