-- ===== src/Minions/Allocate.antt =====
-- minion_manager/rpc/server.py: `_make_minion_machine_allocation_subflow_for_action`, which reserves
-- a machine of a pool for each instance of a transfer action, and adds rows for machines to create.
pub mod Chosen
pub mod Bounds
pub mod Untouched
use coriolis.Prelude.{
  ℕ, ◌+◌, ltb, ◌==◌, Bool, true, false, not, ◌||◌, if◌then◌else◌, is_empty, is_some, elem, select,
  Dict, lookup, insert, List, [], ◌∷◌, ◌++◌, map, length, Option, none, some,
}
use coriolis.Action.{
  Action, Error, Result, ok, err, pure, raise, invalid_input, invalid_minion_pool_state,
  attribute_error, database_error,
}
use coriolis.Minions.{
  Machine, MachineStatus, PowerStatus, Pool, is_available, find_machine, minion_machines,
  set_minion_machines_allocation_statuses, add_minion_machine,
}

-- The tasks that are made for one machine: the healthcheck, with a task before it that powers the
-- machine on and one after it that deploys the machine again if it is not healthy; the deployment;
-- and the two ways to scale down.
pub data MachineTask : Type 0 where
  healthcheck : (machine : ℕ) (power_on : Bool) → MachineTask
  allocate deallocate power_off : (machine : ℕ) → MachineTask

pub record Plan : Type 0 where
  -- `instance_minion_allocations`, from instances to machines
  pub allocations : Dict ℕ
  -- the keys of `existing_machines_to_allocate`
  pub existing : List ℕ
  -- `machine_db_entries_to_add`
  pub new : List Machine
  -- `allocation_subflow`
  pub tasks : List MachineTask

abbrev pub no_plan : Plan
no_plan = record { allocations = []; existing = []; new = []; tasks = [] }

abbrev pub values : Dict ℕ → List ℕ
values d = map (λ e. e.1) d

abbrev pub is_powered_off : PowerStatus → Bool
is_powered_off PowerStatus.powered_off = true
is_powered_off _ = false

-- `_select_machine`
unfoldable pub select_machine : List Machine → List ℕ → Option Machine
select_machine [] exclude = none
select_machine (m ∷ ms) exclude =
    let rest = select_machine ms exclude in
    if elem m.id exclude
    then rest
    else if not (is_available m.allocation_status)
    then rest
    else some m

-- What the code takes from elsewhere: the identifier that `uuid4` gives for the machine of an
-- instance, the rows that the database refuses, and the time.
pub record Outside : Type 0 where
  pub uuid : ℕ → ℕ
  pub refuses : ℕ → Bool
  pub now : ℕ

abbrev pub new_machine : (pool_id action id : ℕ) → Machine
new_machine pool_id action id = record {
  id = id;
  pool_id = pool_id;
  allocation_status = MachineStatus.uninitialized;
  power_status = PowerStatus.uninitialized;
  allocated_action = some action;
  last_used_at = none;
  connection_info = 0;
  provider_properties = 0;
}

abbrev pub use_machine : ℕ → Machine → Plan → Plan
use_machine instance_id m p = record {
  allocations = insert instance_id m.id p.allocations;
  existing = p.existing ++ (m.id ∷ []);
  new = p.new;
  tasks = p.tasks ++ (MachineTask.healthcheck m.id (is_powered_off m.power_status) ∷ []);
}

abbrev pub create_machine : ℕ → Machine → Plan → Plan
create_machine instance_id m p = record {
  allocations = insert instance_id m.id p.allocations;
  existing = p.existing;
  new = p.new ++ (m ∷ []);
  tasks = p.tasks ++ (MachineTask.allocate m.id ∷ []);
}

module _ (o : Outside) (pool_id action : ℕ) where
  abbrev pub plan_machine : ℕ → Option Machine → Plan → Plan
  plan_machine instance_id (some m) p = use_machine instance_id m p
  plan_machine instance_id none p =
      create_machine instance_id (new_machine pool_id action (o.uuid instance_id)) p

  -- The loop over the instances.
  unfoldable pub plan_machines : List Machine → List ℕ → Plan → Result Plan
  plan_machines ms [] p = ok p
  plan_machines ms (i ∷ is) p =
      let rest =
        plan_machines ms is (plan_machine i (select_machine ms (values p.allocations)) p) in
      if is_some (lookup i p.allocations) then err invalid_input else rest

-- The rows that are written until one is refused, for its key or another reason.
pub record Written : Type 0 where
  pub failure : Option Error
  -- `new_machine_db_entries_added`
  pub added : List ℕ
  pub rows : List Machine

unfoldable pub add_each : Outside → List Machine → List ℕ → List Machine → Written
add_each o [] added ms = record { failure = none; added = added; rows = ms }
add_each o (m ∷ new) added ms =
    let rest = add_each o new (added ++ (m.id ∷ [])) (add_minion_machine m ms).1 in
    if o.refuses m.id || is_some (find_machine m.id ms)
    then record { failure = some database_error; added = added; rows = ms }
    else rest

-- The handler of an exception. The list of added machines holds identifiers, of which it asks for
-- the attribute `id`: if it is not empty, this raises before anything is undone.
unfoldable pub revert_allocation : List ℕ → List ℕ → Error → Action (List Machine) Plan
revert_allocation existing added e ms =
    if is_empty added
    then (
      err e,
      (set_minion_machines_allocation_statuses existing none MachineStatus.available none ms).1,
    )
    else (err attribute_error, ms)

abbrev pub finish_write : Option Error → Plan → Written → Result Plan × List Machine
finish_write none p w = (ok p, w.rows)
finish_write (some e) p w = revert_allocation p.existing w.added e w.rows

abbrev pub write_new :
    Outside → Plan → Result (Unit {0}) → List Machine → Result Plan × List Machine
write_new o p (ok u) ms = let w = add_each o p.new [] ms in finish_write w.failure p w
write_new o p (err e) ms = revert_allocation p.existing [] e ms

abbrev pub mark_existing : Outside → ℕ → List ℕ → Action (List Machine) (Unit {0})
mark_existing o action [] = pure tt
mark_existing o action (i ∷ is) =
    set_minion_machines_allocation_statuses (i ∷ is) (some action) MachineStatus.reserved
      (some o.now)

-- The two writes in the `try` block.
unfoldable pub write_plan : Outside → ℕ → Plan → Action (List Machine) Plan
write_plan o action p ms =
    let (r, ms') = mark_existing o action p.existing ms in write_new o p r ms'

-- More instances than machines that are available or may still be created.
unfoldable pub is_short : Pool → List ℕ → List Machine → Bool
is_short pool instances machines =
    ltb (length (select (λ m. is_available m.allocation_status) machines) + pool.maximum_minions)
      (length instances + length machines)

abbrev pub write_planned : Outside → ℕ → Result Plan → Action (List Machine) Plan
write_planned o action (ok p) = write_plan o action p
write_planned o action (err e) = raise e

-- `_make_minion_machine_allocation_subflow_for_action`
unfoldable pub make_allocation_subflow :
    Outside → Pool → (action : ℕ) → List ℕ → Action (List Machine) Plan
make_allocation_subflow o pool action instances ms =
    let machines = minion_machines pool.id ms in
    if is_short pool instances machines
    then (err invalid_minion_pool_state, ms)
    else write_planned o action (plan_machines o pool.id action machines instances no_plan) ms
