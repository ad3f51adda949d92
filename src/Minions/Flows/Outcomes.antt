-- ===== src/Minions/Flows/Outcomes.antt =====
-- The row of a pool after a flow, whichever of its tasks the workers fail to do.
use coriolis.Prelude.{
  not, ◌∙◌, ℕ, Bool, Bool-cases, true, ◌&&◌, if◌then◌else◌, all, List, [], ◌∷◌, map, ◌≡◌, refl, ap,
  inl, inr,
}
use coriolis.Minions.{Machine, Pool, PoolStatus}
use coriolis.Minions.Updates.{update_fields}
use coriolis.Minions.Allocate.{MachineTask}
use coriolis.Minions.Flows.{
  PoolTask, get_minion_pool_allocation_flow, get_minion_pool_deallocation_flow, Worker, execute,
  run_flow, undo_each, reverts_machine, revert_task,
}

-- The workers do what a flow asks of them.
abbrev pub is_done : Worker → PoolTask → Bool
is_done w (PoolTask.update_status target back) = true
is_done w t = w.succeeds t

abbrev pub are_deployed : Worker → Bool
are_deployed w =
    w.succeeds PoolTask.validate_options && w.succeeds PoolTask.allocate_shared_resources

in_error :
    (p : Pool)
    → p.shared_resources ≡ 0
    → record p { status = PoolStatus.error }
      ≡ record p { status = PoolStatus.error; shared_resources = 0 }
in_error p h = ap (λ n. record p { status = PoolStatus.error; shared_resources = n }) h

reverts-allocations :
    (w : Worker) (ids : List ℕ)
    → all (reverts_machine w) (map MachineTask.allocate ids) ≡ all w.cleans_up ids
unfolding all
reverts-allocations w [] = refl
reverts-allocations w (i ∷ ids) = rw (reverts-allocations w ids) refl

reverts-deallocations :
    (w : Worker) (ms : List Machine)
    → all (reverts_machine w) (map (λ m. MachineTask.deallocate m.id) ms) ≡ true
unfolding all
reverts-deallocations w [] = refl
reverts-deallocations w (m ∷ ms) = reverts-deallocations w ms

-- The allocation of a pool without shared resources leaves it ALLOCATED if the workers do all that is
-- asked of them. Else it is in ERROR, except where it was the machines that could not be deployed and
-- the cleanup of one of them fails too: then it stays in ALLOCATING_MACHINES. In all cases the row
-- holds the shared resources if they were deployed.
pub run_flow-allocation :
    (w : Worker) (ids : List ℕ) (p : Pool)
    → p.shared_resources ≡ 0
    → run_flow w (get_minion_pool_allocation_flow ids) p [] ≡ record p {
      status =
          if all (is_done w) (get_minion_pool_allocation_flow ids)
          then PoolStatus.allocated
          else if are_deployed w && not (all w.cleans_up ids)
          then PoolStatus.allocating_machines
          else PoolStatus.error;
      shared_resources = if are_deployed w then w.resources else 0;
    }
unfolding get_minion_pool_allocation_flow run_flow execute undo_each revert_task update_fields all
run_flow-allocation w [] p h = elim (Bool-cases (w.succeeds PoolTask.validate_options)) [
  | inr v ↦ rw (run_flow, v, h) refl
  | inl v ↦ elim (Bool-cases (w.succeeds PoolTask.allocate_shared_resources)) [
    | inr s ↦ rw (run_flow, v, s, h) (in_error p h)
    | inl s ↦ rw (run_flow, v, s, h) refl
  ]
]
run_flow-allocation w (i ∷ ids) p h =
    let ts = map MachineTask.allocate (i ∷ ids) in
    elim (Bool-cases (w.succeeds PoolTask.validate_options)) [
      | inr v ↦ rw (run_flow, v, h) refl
      | inl v ↦ elim (Bool-cases (w.succeeds PoolTask.allocate_shared_resources)) [
        | inr s ↦ rw (run_flow, v, s, h) (in_error p h)
        | inl s ↦ elim (Bool-cases (w.succeeds (PoolTask.machines ts))) [
          | inr q ↦ elim (Bool-cases (all w.cleans_up (i ∷ ids))) [
            | inl c ↦
                let c' = reverts-allocations w (i ∷ ids) ∙ c in
                rw (run_flow, v, s, h, q, undo_each, c', c) refl
            | inr c ↦
                let c' = reverts-allocations w (i ∷ ids) ∙ c in
                rw (run_flow, v, s, h, q, undo_each, c', c) refl
          ]
          | inl q ↦ rw (run_flow, v, s, h, q) refl
        ]
      ]
    ]

-- The deallocation of a pool leaves it DEALLOCATED and without shared resources if the workers do all
-- that is asked of them. Else it is in ERROR and keeps the shared resources that it had.
pub run_flow-deallocation :
    (w : Worker) (ms : List Machine) (p : Pool)
    → run_flow w (get_minion_pool_deallocation_flow ms) p [] ≡ (
        if all (is_done w) (get_minion_pool_deallocation_flow ms)
        then record p { status = PoolStatus.deallocated; shared_resources = 0 }
        else record p { status = PoolStatus.error })
unfolding get_minion_pool_deallocation_flow run_flow execute undo_each revert_task update_fields all
run_flow-deallocation w [] p = elim (Bool-cases (w.succeeds PoolTask.deallocate_shared_resources)) [
  | inr s ↦ rw (run_flow, s) refl
  | inl s ↦ rw (run_flow, s) refl
]
run_flow-deallocation w (m ∷ ms) p =
    let ts = map (λ m. MachineTask.deallocate m.id) (m ∷ ms) in
    elim (Bool-cases (w.succeeds (PoolTask.machines ts))) [
      | inr q ↦ rw (run_flow, q, undo_each, reverts-deallocations w (m ∷ ms)) refl
      | inl q ↦ elim (Bool-cases (w.succeeds PoolTask.deallocate_shared_resources)) [
        | inr s ↦ rw (run_flow, q, s, undo_each, reverts-deallocations w (m ∷ ms)) refl
        | inl s ↦ rw (run_flow, q, s) refl
      ]
    ]
