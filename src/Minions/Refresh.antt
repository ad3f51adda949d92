-- ===== src/Minions/Refresh.antt =====
-- minion_manager/rpc/server.py: `_get_minion_pool_refresh_flow`, which scales a pool down and checks
-- the health of its machines.
pub mod Minimum
use coriolis.Prelude.{
  ℕ, ◌+◌, ◌-◌, ltb, leb, Bool, true, false, not, ◌&&◌, if◌then◌else◌, length, select, List, [], ◌∷◌,
  Option, none, some,
}
use coriolis.Action.{
  Action, Result, ok, err, and_then, pure, raise, ◌>>=◌, ◌>>◌, invalid_minion_pool_state,
}
use coriolis.Minions.{
  Machine, MachineStatus, PowerStatus, Pool, Retention, minion_machines,
  set_minion_machine_allocation_status,
}
use coriolis.Minions.Allocate.{MachineTask, is_powered_off}

-- `ignorable_machine_statuses`
abbrev pub is_ignorable : MachineStatus → Bool
is_ignorable MachineStatus.deallocating = true
is_ignorable MachineStatus.powering_off = true
is_ignorable MachineStatus.error = true
is_ignorable MachineStatus.power_error = true
is_ignorable MachineStatus.error_deploying = true
is_ignorable _ = false

-- `healthcheckable_machine_statuses`
abbrev pub is_healthcheckable : MachineStatus → Bool
is_healthcheckable MachineStatus.available = true
is_healthcheckable MachineStatus.error = true
is_healthcheckable MachineStatus.power_error = true
is_healthcheckable MachineStatus.error_deploying = true
is_healthcheckable _ = false

abbrev pub is_off : PowerStatus → Bool
is_off PowerStatus.powered_off = true
is_off PowerStatus.powering_off = true
is_off _ = false

abbrev pub is_on : PowerStatus → Bool
is_on PowerStatus.powered_on = true
is_on _ = false

-- `minion_expired`
abbrev pub has_expired : Pool → ℕ → Option ℕ → Bool
has_expired pool now none = true
has_expired pool now (some used) = leb (used + pool.minion_max_idle_time) now

-- What the loop does with a machine. One that is off already counts as scaled down, and is left.
pub data Choice : Type 0 where
  skip leave power_off deallocate healthcheck : Choice

abbrev pub scale_down : Retention → Machine → Result Choice
scale_down Retention.poweroff m = if is_off m.power_status then ok leave else ok power_off
scale_down Retention.delete m = ok deallocate
scale_down Retention.unknown m = err invalid_minion_pool_state

unfoldable pub choose : Pool → (now budget : ℕ) → Machine → Result Choice
choose pool now budget m =
    if not (is_healthcheckable m.allocation_status)
    then ok skip
    else if ltb 0 budget && has_expired pool now m.last_used_at
    then scale_down pool.minion_retention_strategy m
    else if is_on m.power_status
    then ok healthcheck
    else ok skip

-- `max_minions_to_deallocate` after a choice
abbrev pub spend : Choice → ℕ → ℕ
spend leave budget = budget - 1
spend power_off budget = budget - 1
spend deallocate budget = budget - 1
spend _ budget = budget

pub record Refresh : Type 0 where
  pub flow : List MachineTask
  pub machines_to_deallocate : List ℕ
  pub machines_to_healthcheck : List ℕ

abbrev pub no_refresh : Refresh
no_refresh = record { flow = []; machines_to_deallocate = []; machines_to_healthcheck = [] }

abbrev pub note : Choice → Machine → Refresh → Refresh
note power_off m r = record r {
  flow = MachineTask.power_off m.id ∷ r.flow;
  machines_to_deallocate = m.id ∷ r.machines_to_deallocate;
}
note deallocate m r = record r {
  flow = MachineTask.deallocate m.id ∷ r.flow;
  machines_to_deallocate = m.id ∷ r.machines_to_deallocate;
}
note healthcheck m r = record r {
  flow = MachineTask.healthcheck m.id (is_powered_off m.power_status) ∷ r.flow;
  machines_to_healthcheck = m.id ∷ r.machines_to_healthcheck;
}
note _ m r = r

-- The loop over the machines.
unfoldable pub refresh_machines : Pool → (now budget : ℕ) → List Machine → Result Refresh
refresh_machines pool now budget [] = ok no_refresh
refresh_machines pool now budget (m ∷ ms) =
    and_then (choose pool now budget m)
      λ c. and_then (refresh_machines pool now (spend c budget) ms) λ r. ok (note c m r)

-- The machines that count for the minimum. The difference is negative in the code where it stops
-- at 0 here: it is only compared with 0, and made smaller where it is greater.
unfoldable pub count_active : List Machine → ℕ
count_active ms = length (select (λ m. not (is_ignorable m.allocation_status)) ms)

abbrev pub status_for_deallocated_machines : Retention → MachineStatus
status_for_deallocated_machines Retention.poweroff = MachineStatus.powering_off
status_for_deallocated_machines _ = MachineStatus.deallocating

unfoldable pub set_all : MachineStatus → List ℕ → Action (List Machine) (Unit {0})
set_all st [] = pure tt
set_all st (i ∷ is) = do set_minion_machine_allocation_status i st; set_all st is

abbrev pub write_refresh : Pool → Result Refresh → Action (List Machine) (List MachineTask)
write_refresh pool (err e) = raise e
write_refresh pool (ok r) = do
  set_all (status_for_deallocated_machines pool.minion_retention_strategy) r.machines_to_deallocate
  set_all MachineStatus.healthchecking r.machines_to_healthcheck
  pure r.flow

-- `_get_minion_pool_refresh_flow`
unfoldable pub get_minion_pool_refresh_flow :
    Pool → (now : ℕ) → Action (List Machine) (List MachineTask)
get_minion_pool_refresh_flow pool now ms =
    let machines = minion_machines pool.id ms in
    write_refresh pool
      (refresh_machines pool now (count_active machines - pool.minimum_minions) machines) ms
