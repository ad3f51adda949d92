-- ===== src/Minions/Samples.antt =====
-- A pool with three machines, and the theorems on pools and machines applied.
use coriolis.Prelude.{
  ℕ, ◌+◌, ◌≤◌, Bool, all, ◌⊎◌, ◌==◌, true, false, any, select, All, elem, List, [], ◌∷◌, none, some,
  ◌≡◌, refl, arith,
}
use coriolis.Action.{ok, err, invalid_minion_pool_state, coriolis_exception, ◌>>=◌}
use coriolis.Cron.{Time, should_run, unregister_jobs_with_prefix}
use coriolis.Minions.{
  Machine, MachineStatus, PowerStatus, Platform, Pool, PoolStatus, Retention, find_machine,
  minion_machines,
}
use coriolis.Minions.Rows.{IsFresh, IsDistinct}
use coriolis.Minions.Allocate.{Outside, no_plan, plan_machines, make_allocation_subflow}
use coriolis.Minions.Allocate.Chosen.{has_repeat, pair_up, plan_machines-pair_up}
use coriolis.Minions.Allocate.Bounds.{size, make_allocation_subflow_bounds}
use coriolis.Minions.Allocate.Untouched.{make_allocation_subflow-untouched}
use coriolis.Minions.Refresh.{count_active, get_minion_pool_refresh_flow}
use coriolis.Minions.Refresh.Minimum.{counted, get_minion_pool_refresh_flow_bounds}
use coriolis.Minions.Jobs.{Period, refresh_jobs}
use coriolis.Minions.Jobs.Due.{refresh_jobs-any}
use coriolis.Minions.Flows.{
  PoolTask, Worker, run_flow, Executed, execute, execute_each, revert_each,
  get_minion_pool_allocation_flow, get_minion_pool_deallocation_flow,
}
use coriolis.Minions.Flows.Ends.{take, allocation_fails, allocation_fails_shared}
use coriolis.Minions.Updates.{update_fields}
use coriolis.Minions.Flows.Outcomes.{run_flow-allocation, run_flow-deallocation}
use coriolis.Minions.Release.{deallocate_minion_machines_for_action}
use coriolis.Minions.Release.View.{release}
use coriolis.Minions.Release.GivenBack.{deallocate_minion_machines_for_action-given_back}
use coriolis.Minions.Requests.{Site, RequestEnv, PoolRequest, handle_request, delete_minion_pool}
use coriolis.Minions.Requests.Guards.{handle_request-busy, handle_request-unchanged}

abbrev pub pool : Pool
pool = record {
  id = 1;
  endpoint_id = 7;
  platform = Platform.destination;
  is_linux = true;
  status = PoolStatus.allocated;
  shared_resources = 5;
  minimum_minions = 1;
  maximum_minions = 4;
  minion_max_idle_time = 60;
  minion_retention_strategy = Retention.delete;
}

abbrev idle : Machine
idle = record {
  id = 11;
  pool_id = 1;
  allocation_status = MachineStatus.available;
  power_status = PowerStatus.powered_off;
  allocated_action = none;
  last_used_at = some 10;
  connection_info = 3;
  provider_properties = 4;
}

-- Machines that work for the action 9, one of which is still to be deployed.
abbrev busy : Machine
busy = record idle { id = 12; allocation_status = MachineStatus.in_use; allocated_action = some 9 }

abbrev undeployed : Machine
undeployed = record idle {
  id = 13;
  allocation_status = MachineStatus.uninitialized;
  allocated_action = some 9;
}

abbrev pub machines : List Machine
machines = busy ∷ idle ∷ undeployed ∷ []

abbrev pub outside : Outside
outside = record { uuid = λ i. i + 100; refuses = λ i. false; now = 70 }

abbrev pub instances : List ℕ
instances = 1 ∷ 2 ∷ []

pub distinct : IsDistinct machines
distinct = ((refl, (refl, tt)), ((refl, tt), (tt, tt)))

new_ids : All (λ i. IsFresh (i + 100) machines) instances
new_ids = ((refl, (refl, (refl, tt))), ((refl, (refl, (refl, tt))), tt))

plan_machines-pair_up_example :
    plan_machines outside 1 8 machines instances no_plan
    ≡ ok (pair_up outside 1 8 (idle ∷ []) instances no_plan)
unfolding select has_repeat elem
plan_machines-pair_up_example =
    plan_machines-pair_up outside 1 8 machines distinct instances new_ids

new_of_pool : All (λ i. IsFresh (i + 100) (minion_machines 1 machines)) instances
unfolding minion_machines select
new_of_pool = new_ids

three : size 1 machines ≤ 4
unfolding minion_machines select
three = omega arith

make_allocation_subflow_bounds_example :
    size 1 (make_allocation_subflow outside pool 8 instances machines).1 ≤ 4
make_allocation_subflow_bounds_example =
    make_allocation_subflow_bounds outside pool 8 instances machines distinct new_of_pool three

make_allocation_subflow-untouched_example :
    find_machine 12 (make_allocation_subflow outside pool 8 instances machines).1 ≡ some busy
unfolding find_machine
make_allocation_subflow-untouched_example =
    make_allocation_subflow-untouched outside pool 8 instances machines 12 distinct new_of_pool refl
      refl

one_counted : 1 ≤ counted 1 machines
unfolding minion_machines select count_active
one_counted = omega arith

get_minion_pool_refresh_flow_bounds_example :
    1 ≤ counted 1 (get_minion_pool_refresh_flow pool 90 machines).1
get_minion_pool_refresh_flow_bounds_example =
    get_minion_pool_refresh_flow_bounds pool 90 1 machines (omega arith) one_counted

abbrev quarter_past : Time
quarter_past = record { instant = 50; month = 11; dom = 26; hour = 12; minute = 15; dow = 0 }

refresh_jobs-any_example :
    any (λ job. should_run job 50 quarter_past) (refresh_jobs (λ m. m) (Period.minutes 90)) ≡ false
refresh_jobs-any_example =
    refresh_jobs-any (λ m. m) (Period.minutes 90) 50 quarter_past (omega arith)

abbrev empty_pool : Pool
empty_pool = record pool { status = PoolStatus.deallocated; shared_resources = 0 }

-- Workers that cannot deploy machines.
abbrev no_machines : PoolTask → Bool
no_machines (PoolTask.machines ts) = false
no_machines _ = true

abbrev able : Worker
able = record { succeeds = λ t. true; resources = 5; cleans_up = λ i. i == 21 }

abbrev unable : Worker
unable = record able { succeeds = no_machines }

run_flow-allocation_example :
    run_flow unable (get_minion_pool_allocation_flow (21 ∷ [])) empty_pool []
    ≡ record pool { status = PoolStatus.error }
unfolding get_minion_pool_allocation_flow all
run_flow-allocation_example = run_flow-allocation unable (21 ∷ []) empty_pool refl

run_flow-deallocation_example :
    run_flow able (get_minion_pool_deallocation_flow machines) pool [] ≡ empty_pool
unfolding get_minion_pool_deallocation_flow all
run_flow-deallocation_example = run_flow-deallocation able machines pool

abbrev failed : Executed
failed = record { task = PoolTask.machines []; previous_status = PoolStatus.allocating_machines }

-- What is left when the deployment of the machines fails.
abbrev allocating : Pool
allocating = record pool { status = PoolStatus.allocating_machines }

abbrev began : List Executed
began =
    record {
      task = PoolTask.update_status PoolStatus.allocating_machines none;
      previous_status = PoolStatus.allocating_shared_resources;
    }
    ∷ record {
      task = PoolTask.allocate_shared_resources;
      previous_status = PoolStatus.allocating_shared_resources;
    }
    ∷ record {
      task = PoolTask.update_status PoolStatus.allocating_shared_resources none;
      previous_status = PoolStatus.validating_inputs;
    }
    ∷ record { task = PoolTask.validate_options; previous_status = PoolStatus.validating_inputs }
    ∷ record {
      task = PoolTask.update_status PoolStatus.validating_inputs (some PoolStatus.error);
      previous_status = PoolStatus.deallocated;
    }
    ∷ []

steps :
    execute_each able (take 5 (get_minion_pool_allocation_flow (21 ∷ []))) empty_pool []
    ≡ ok (allocating, began)
unfolding get_minion_pool_allocation_flow execute_each execute update_fields
steps = refl

allocation_fails_example : (revert_each (failed ∷ began) allocating).status ≡ PoolStatus.error
allocation_fails_example = allocation_fails able 4 (21 ∷ []) empty_pool failed steps

allocation_fails_shared_example : (revert_each (failed ∷ began) allocating).shared_resources ≡ 5
allocation_fails_shared_example =
    allocation_fails_shared able 1 (21 ∷ []) empty_pool failed refl steps

abbrev service : RequestEnv
service = record {
  starts = λ f. false;
  uuids = λ n. [];
  now = 90;
  period = Period.minutes 10;
  job_name = λ m. m;
  has_prefix = λ n. true;
  has_trust = true;
  deletes_trust = false;
}

abbrev maintained : Site
maintained = record { pool = some allocating; machines = machines; jobs = []; flows = [] }

abbrev deallocated : Site
deallocated = record maintained { pool = some empty_pool }

handle_request-busy_example :
    handle_request service PoolRequest.delete maintained
    ≡ (err invalid_minion_pool_state, maintained)
handle_request-busy_example =
    handle_request-busy service PoolRequest.delete maintained allocating refl refl refl

not_deleted : (handle_request service PoolRequest.delete deallocated).0 ≡ err coriolis_exception
unfolding handle_request delete_minion_pool ◌>>=◌
not_deleted = refl

handle_request-unchanged_example :
    ((handle_request service PoolRequest.delete deallocated).1 ≡ deallocated)
    ⊎ (PoolRequest.delete ≡ PoolRequest.delete)
      × (service.has_trust ≡ true)
      × (service.deletes_trust ≡ false)
      × ((handle_request service PoolRequest.delete deallocated).1 ≡ record deallocated {
        pool = none;
        jobs = unregister_jobs_with_prefix service.has_prefix deallocated.jobs;
      })
handle_request-unchanged_example =
    handle_request-unchanged service PoolRequest.delete deallocated refl not_deleted

deallocate_minion_machines_for_action-given_back_example :
    deallocate_minion_machines_for_action 9 machines ≡ (ok tt, release busy ∷ idle ∷ [])
deallocate_minion_machines_for_action-given_back_example =
    deallocate_minion_machines_for_action-given_back 9 machines distinct
