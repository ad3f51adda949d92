-- ===== src/Minions/Refresh/Minimum.antt =====
-- A refresh never brings the machines of a pool that count below its minimum.
use coriolis.Prelude.{
  ℕ, ◌+◌, ◌-◌, ◌≤◌, ◌<◌, ltb, ap, Bool, Bool-cases, true, false, not, if◌then◌else◌, length,
  is_some, select, List, [], ◌∷◌, ◌≡◌, refl, arith, inl, inr,
}
use coriolis.Action.{Action, Result, ok, err, ◌>>=◌, continue}
use coriolis.Action.Laws.{and_then-ok, ok-injective}
use coriolis.Minions.{
  Machine, MachineStatus, Pool, find_machine, change_machine, minion_machines,
  set_minion_machine_allocation_status,
}
use coriolis.Minions.Refresh.{
  Refresh, Choice, is_ignorable, is_healthcheckable, is_on, choose, spend, note, refresh_machines,
  count_active, set_all, status_for_deallocated_machines, write_refresh,
  get_minion_pool_refresh_flow,
}

-- The machines of a pool that count for its minimum.
abbrev pub counted : ℕ → List Machine → ℕ
counted pool_id ms = count_active (minion_machines pool_id ms)

module _ (pool_id i : ℕ) (st : MachineStatus) where
  active-change :
      (ms : List Machine)
      → counted pool_id ms
        ≤ counted pool_id (change_machine i (λ m. record m { allocation_status = st }) ms) + 1
  unfolding count_active minion_machines select change_machine
  active-change [] = omega arith
  active-change (m ∷ ms) = ground (arith, active-change ms)

  count_active-checked :
      (ms : List Machine)
      → is_ignorable st ≡ false
      → counted pool_id ms
        ≤ counted pool_id (change_machine i (λ m. record m { allocation_status = st }) ms)
  unfolding count_active minion_machines select change_machine
  count_active-checked [] h = omega arith
  count_active-checked (m ∷ ms) h = ground (arith, count_active-checked ms h)

set_all-count_active :
    (pool_id : ℕ) (st : MachineStatus) (is : List ℕ) (ms : List Machine)
    → counted pool_id ms ≤ counted pool_id (set_all st is ms).1 + length is
unfolding set_all set_minion_machine_allocation_status ◌>>=◌
set_all-count_active pool_id st [] ms = omega arith
set_all-count_active pool_id st (i ∷ is) ms = elim (Bool-cases (is_some (find_machine i ms))) [
  | inl q ↦ rw q (
      omega (
        arith,
        active-change pool_id i st ms,
        set_all-count_active pool_id st is
            (change_machine i (λ m. record m { allocation_status = st }) ms),
      ))
  | inr q ↦ rw q (omega arith)
]

set_all-checked :
    (pool_id : ℕ) (st : MachineStatus) (is : List ℕ) (ms : List Machine)
    → is_ignorable st ≡ false
    → counted pool_id ms ≤ counted pool_id (set_all st is ms).1
unfolding set_all set_minion_machine_allocation_status ◌>>=◌
set_all-checked pool_id st [] ms h = omega arith
set_all-checked pool_id st (i ∷ is) ms h = elim (Bool-cases (is_some (find_machine i ms))) [
  | inl q ↦ rw q (
      omega (
        arith,
        count_active-checked pool_id i st ms h,
        set_all-checked pool_id st is
            (change_machine i (λ m. record m { allocation_status = st }) ms) h,
      ))
  | inr q ↦ rw q (omega arith)
]

abbrev scales : Choice → Bool
scales Choice.power_off = true
scales Choice.deallocate = true
scales _ = false

abbrev scales_result : Result Choice → Bool
scales_result (ok c) = scales c
scales_result (err e) = false

branch :
    (checkable on : Bool)
    → scales_result (
        if not checkable
        then ok Choice.skip
        else if on
        then ok Choice.healthcheck
        else ok Choice.skip)
      ≡ false
branch checkable on = ground arith

-- A machine is scaled down only where the budget allows it.
choose-budget :
    (pool : Pool) (now budget : ℕ) (m : Machine)
    → ltb 0 budget ≡ false
    → scales_result (choose pool now budget m) ≡ false
unfolding choose
choose-budget pool now budget m q =
    rw q (branch (is_healthcheckable m.allocation_status) (is_on m.power_status))

spent :
    (pool : Pool) (now budget : ℕ) (m : Machine) {c : Choice}
    → choose pool now budget m ≡ ok c
    → scales c ≡ true
    → 0 < budget
spent pool now budget m {c} h s = elim (Bool-cases (ltb 0 budget)) [
  | inl q ↦ ground arith
  | inr q ↦
      let none_scaled = choose-budget pool now budget m q in
      let same = ap scales_result h in absurd (cc)
]

note-within :
    (c : Choice) (m : Machine) (r : Refresh) (budget : ℕ)
    → (scales c ≡ true → 0 < budget)
    → length r.machines_to_deallocate ≤ spend c budget
    → length (note c m r).machines_to_deallocate ≤ budget
note-within Choice.skip m r budget p k = k
note-within Choice.healthcheck m r budget p k = k
note-within Choice.leave m r budget p k = omega arith
note-within Choice.power_off m r budget p k = omega (arith, p refl)
note-within Choice.deallocate m r budget p k = omega (arith, p refl)

choose-within :
    (pool : Pool) (now budget : ℕ) (m : Machine) {c : Choice} (r : Refresh)
    → choose pool now budget m ≡ ok c
    → length r.machines_to_deallocate ≤ spend c budget
    → length (note c m r).machines_to_deallocate ≤ budget
choose-within pool now budget m {c} r h k =
    note-within c m r budget (λ s. spent pool now budget m h s) k

refresh_machines-within :
    (pool : Pool) (now budget : ℕ) (ms : List Machine) {r : Refresh}
    → refresh_machines pool now budget ms ≡ ok r
    → length r.machines_to_deallocate ≤ budget
unfolding refresh_machines
refresh_machines-within pool now budget [] h = ground arith
refresh_machines-within pool now budget (m ∷ ms) {r} h =
    let (c, chosen, h₁) = and_then-ok (choose pool now budget m) _ h in
    let (r', rest, h₂) = and_then-ok (refresh_machines pool now (spend c budget) ms) _ h₁ in
    rw (← ok-injective (note c m r') r h₂) (
      choose-within pool now budget m r' chosen
        (refresh_machines-within pool now (spend c budget) ms rest))

module _ (pool_id n : ℕ) where
  continue-counted :
      {A : Type 0} (r : Result (Unit {0})) (f : Unit {0} → Action (List Machine) A)
      (ms : List Machine)
      → n ≤ counted pool_id ms
      → n ≤ counted pool_id (f tt ms).1
      → n ≤ counted pool_id (continue r f ms).1
  continue-counted (ok u) f ms h k = k
  continue-counted (err e) f ms h k = h

write_refresh-count_active :
    (pool : Pool) (r : Result Refresh) (budget n : ℕ) (ms : List Machine)
    → ((q : Refresh) → r ≡ ok q → length q.machines_to_deallocate ≤ budget)
    → n + budget ≤ counted pool.id ms
    → n ≤ counted pool.id (write_refresh pool r ms).1
unfolding ◌>>=◌
write_refresh-count_active pool (err e) budget n ms p h = omega arith
write_refresh-count_active pool (ok r) budget n ms p h =
    let st = status_for_deallocated_machines pool.minion_retention_strategy in
    let down = set_all st r.machines_to_deallocate ms in
    let checked = set_all MachineStatus.healthchecking r.machines_to_healthcheck down.1 in
    let low : n ≤ counted pool.id down.1 =
      omega (arith, p r refl, set_all-count_active pool.id st r.machines_to_deallocate ms) in
    let low' : n ≤ counted pool.id checked.1 = omega (
      arith,
      set_all-checked pool.id MachineStatus.healthchecking r.machines_to_healthcheck down.1 refl,
    ) in
    continue-counted pool.id n down.0 _ down.1 low
      (continue-counted pool.id n checked.0 _ checked.1 low' low')

-- For each number up to the minimum of a pool: if so many of its machines count for the minimum
-- before a refresh, so many do after it, whether it returns or raises.
pub get_minion_pool_refresh_flow_bounds :
    (pool : Pool) (now n : ℕ) (ms : List Machine)
    → n ≤ pool.minimum_minions
    → n ≤ counted pool.id ms
    → n ≤ counted pool.id (get_minion_pool_refresh_flow pool now ms).1
unfolding get_minion_pool_refresh_flow
get_minion_pool_refresh_flow_bounds pool now n ms low h =
    let machines = minion_machines pool.id ms in
    let budget = count_active machines - pool.minimum_minions in
    write_refresh-count_active pool (refresh_machines pool now budget machines) budget n ms
      (λ q e. refresh_machines-within pool now budget machines e) (omega arith)
