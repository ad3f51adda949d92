-- ===== src/Minions/Flows/Ends.antt =====
-- How the flows of a pool end.
use coriolis.Prelude.{
  Bool-cases, inl, inr, sym, All, ℕ, zero, suc, Bool, true, false, List, [], ◌∷◌, ◌++◌, map, none,
  some, ◌≡◌, refl, ap, ◌∙◌,
}
use coriolis.Action.{ok}
use coriolis.Action.Laws.{and_then-ok, ok-injective}
use coriolis.Minions.Updates.{update_fields}
use coriolis.Minions.{Machine, Pool, PoolStatus}
use coriolis.Minions.Allocate.{MachineTask}
use coriolis.Minions.Flows.{
  PoolTask, machines_flow, get_minion_pool_allocation_flow, get_minion_pool_deallocation_flow,
  Worker, if_successful, Executed, execute, revert_task, execute_each, revert_each,
}

-- Reverting the executed tasks leaves the pool in error.
abbrev IsFailing : List Executed → Type 0
IsFailing done = (pool : Pool) → (revert_each done pool).status ≡ PoolStatus.error

IsFailing-cons : (e : Executed) (done : List Executed) → IsFailing done → IsFailing (e ∷ done)
unfolding revert_each
IsFailing-cons e done h pool = h (revert_task e pool)

execute_each-IsFailing :
    (w : Worker) (ts : List PoolTask) (p : Pool) (done : List Executed) {q : Pool}
    {done' : List Executed}
    → IsFailing done
    → execute_each w ts p done ≡ ok (q, done')
    → IsFailing done'
unfolding execute_each
execute_each-IsFailing w [] p done {q} {done'} h e pool =
    rw (← ap (λ x. x.1) (ok-injective (p, done) (q, done') e)) (h pool)
execute_each-IsFailing w (t ∷ ts) p done {q} {done'} h e pool =
    let (p', _, e') = and_then-ok (execute w t p) _ e in
    execute_each-IsFailing w ts p' (record { task = t; previous_status = p.status } ∷ done)
      (IsFailing-cons (record { task = t; previous_status = p.status }) done h) e' pool

abbrev pub take {ℓ} : {A : Type ℓ} → ℕ → List A → List A
take zero xs = []
take (suc k) [] = []
take (suc k) (x ∷ xs) = x ∷ take k xs

IsFailing-first :
    (w : Worker) (k : ℕ) (st : PoolStatus) (ts : List PoolTask) (p : Pool) {q : Pool}
    {done : List Executed}
    → execute_each w (PoolTask.update_status st (some PoolStatus.error) ∷ take k ts) p []
      ≡ ok (q, done)
    → IsFailing done
unfolding execute_each execute revert_each revert_task
IsFailing-first w k st ts p e =
    execute_each-IsFailing w (take k ts) (record p { status = st }) _ (λ pool. refl) e

-- If the allocation of a pool fails after one or more of its tasks were executed, in the task of `e`,
-- and all of them are reverted, the newest first, the pool is in ERROR.
pub allocation_fails :
    (w : Worker) (k : ℕ) (ids : List ℕ) (p : Pool) (e : Executed) {q : Pool} {done : List Executed}
    → execute_each w (take (suc k) (get_minion_pool_allocation_flow ids)) p [] ≡ ok (q, done)
    → (revert_each (e ∷ done) q).status ≡ PoolStatus.error
unfolding get_minion_pool_allocation_flow
allocation_fails w k ids p e {q} {done} h =
    IsFailing-cons e done (IsFailing-first w k PoolStatus.validating_inputs _ p h) q

-- The same for the deallocation of a pool.
pub deallocation_fails :
    (w : Worker) (k : ℕ) (ms : List Machine) (p : Pool) (e : Executed) {q : Pool}
    {done : List Executed}
    → execute_each w (take (suc k) (get_minion_pool_deallocation_flow ms)) p [] ≡ ok (q, done)
    → (revert_each (e ∷ done) q).status ≡ PoolStatus.error
unfolding get_minion_pool_deallocation_flow
deallocation_fails w k [] p e {q} {done} h =
    IsFailing-cons e done (IsFailing-first w k PoolStatus.deallocating_shared_resources _ p h) q
deallocation_fails w k (m ∷ ms) p e {q} {done} h =
    IsFailing-cons e done (IsFailing-first w k PoolStatus.deallocating_machines _ p h) q

by_task :
    (t : PoolTask) (st : PoolStatus) (p : Pool)
    → (revert_task (record { task = t; previous_status = st }) p).shared_resources
      ≡ p.shared_resources
unfolding revert_task update_fields
by_task (PoolTask.update_status target back) st p = refl
by_task PoolTask.validate_options st p = refl
by_task PoolTask.allocate_shared_resources st p = refl
by_task PoolTask.deallocate_shared_resources st p = refl
by_task (PoolTask.machines ts) st p = refl

revert_task-shared :
    (e : Executed) (p : Pool) → (revert_task e p).shared_resources ≡ p.shared_resources
unfolding revert_task
revert_task-shared e p = by_task e.task e.previous_status p

revert_each-shared :
    (done : List Executed) (p : Pool) → (revert_each done p).shared_resources ≡ p.shared_resources
unfolding revert_each
revert_each-shared [] p = refl
revert_each-shared (e ∷ done) p = revert_each-shared done (revert_task e p) ∙ revert_task-shared e p

abbrev is_quiet : PoolTask → Bool
is_quiet PoolTask.allocate_shared_resources = false
is_quiet PoolTask.deallocate_shared_resources = false
is_quiet _ = true

-- A task on a worker that has been executed has the result it should.
successful : (w : Worker) (t : PoolTask) (p : Pool) {q : Pool} → if_successful w t p ≡ ok q → q ≡ p
successful w t p {q} e = elim (Bool-cases (w.succeeds t)) [
  | inl s ↦ sym (ok-injective p q (rw s at e))
  | inr s ↦ absurd (let bad = rw s at e in cc)
]

execute-shared :
    (w : Worker) (t : PoolTask) (p : Pool) {q : Pool}
    → is_quiet t ≡ true
    → execute w t p ≡ ok q
    → q.shared_resources ≡ p.shared_resources
unfolding execute
execute-shared w (PoolTask.update_status target back) p {q} h e =
    rw (← ok-injective (record p { status = target }) q e) refl
execute-shared w PoolTask.validate_options p h e =
    rw (successful w PoolTask.validate_options p e) refl
execute-shared w PoolTask.allocate_shared_resources p h e = absurd (cc)
execute-shared w PoolTask.deallocate_shared_resources p h e = absurd (cc)
execute-shared w (PoolTask.machines ts) p h e = rw (successful w (PoolTask.machines ts) p e) refl

execute_each-shared :
    (w : Worker) (ts : List PoolTask) (p : Pool) (done : List Executed) {q : Pool}
    {done' : List Executed}
    → All (λ t. is_quiet t ≡ true) ts
    → execute_each w ts p done ≡ ok (q, done')
    → q.shared_resources ≡ p.shared_resources
unfolding execute_each
execute_each-shared w [] p done {q} {done'} a e =
    rw (← ap (λ x. x.0) (ok-injective (p, done) (q, done') e)) refl
execute_each-shared w (t ∷ ts) p done a e =
    let (p', e₁, e₂) = and_then-ok (execute w t p) _ e in
    execute_each-shared w ts p' _ a.1 e₂ ∙ execute-shared w t p a.0 e₁

All-take :
    (k : ℕ) (ts : List PoolTask)
    → All (λ t. is_quiet t ≡ true) ts
    → All (λ t. is_quiet t ≡ true) (take k ts)
All-take zero ts a = tt
All-take (suc k) [] a = tt
All-take (suc k) (t ∷ ts) a = (a.0, All-take k ts a.1)

last_tasks_quiet :
    (ids : List ℕ)
    → All
        (λ t. is_quiet t ≡ true)
        (machines_flow PoolStatus.allocating_machines none (map MachineTask.allocate ids)
          ++ (PoolTask.update_status PoolStatus.allocated none ∷ []))
last_tasks_quiet [] = (refl, tt)
last_tasks_quiet (i ∷ ids) = (refl, (refl, (refl, tt)))

deployed :
    (w : Worker) (p : Pool) {q : Pool}
    → p.shared_resources ≡ 0
    → execute w PoolTask.allocate_shared_resources p ≡ ok q
    → q.shared_resources ≡ w.resources
unfolding execute update_fields
deployed w p h e =
    rw
      (successful w PoolTask.allocate_shared_resources (record p { shared_resources = w.resources })
        (rw h at e))
      refl

after_deployment :
    (w : Worker) (k : ℕ) (ids : List ℕ) (p : Pool) {q : Pool} {done : List Executed}
    → p.shared_resources ≡ 0
    → execute_each w (take (suc (suc (suc (suc k)))) (get_minion_pool_allocation_flow ids)) p []
      ≡ ok (q, done)
    → q.shared_resources ≡ w.resources
unfolding get_minion_pool_allocation_flow execute_each
after_deployment w k ids p h run =
    let (p₁, e₁, r₁) = and_then-ok (execute w _ p) _ run in
    let (p₂, e₂, r₂) = and_then-ok (execute w _ p₁) _ r₁ in
    let (p₃, e₃, r₃) = and_then-ok (execute w _ p₂) _ r₂ in
    let (p₄, e₄, r₄) = and_then-ok (execute w _ p₃) _ r₃ in
    let none_yet =
      execute-shared w _ p₂ refl e₃
      ∙ execute-shared w _ p₁ refl e₂
      ∙ execute-shared w _ p refl e₁
      ∙ h in
    execute_each-shared w (take k _) p₄ _ (All-take k _ (last_tasks_quiet ids)) r₄
    ∙ deployed w p₃ none_yet e₄

-- If the allocation of a pool fails after its shared resources were deployed, the row of the pool
-- still holds them after all tasks are reverted.
pub allocation_fails_shared :
    (w : Worker) (k : ℕ) (ids : List ℕ) (p : Pool) (e : Executed) {q : Pool} {done : List Executed}
    → p.shared_resources ≡ 0
    → execute_each w (take (suc (suc (suc (suc k)))) (get_minion_pool_allocation_flow ids)) p []
      ≡ ok (q, done)
    → (revert_each (e ∷ done) q).shared_resources ≡ w.resources
unfolding get_minion_pool_allocation_flow
allocation_fails_shared w k ids p e {q} {done} h run =
    revert_each-shared (e ∷ done) q ∙ after_deployment w k ids p h run
