-- ===== src/Conductor/Steps/Cancel.antt =====
-- `_cancel_tasks_execution`, as steps, and enough fuel for its recursion.
use coriolis.Prelude.{
  ℕ, zero, suc, ◌≤◌, ◌<◌, Bool, Bool-cases, true, false, List, Option, none, ◌≡◌, refl, arith, inl,
  inr,
}
use coriolis.Constants.{ExecutionStatus, in_finalized_task_statuses}
use coriolis.Action.{Action, pure, ◌>>=◌}
use coriolis.Action.Laws.{modify-then}
use coriolis.Db.{Store, Task}
use coriolis.Db.Tasks.{IsDistinct}
use coriolis.Conductor.Env.{Env}
use coriolis.Conductor.Status.{set_tasks_execution_status}
use coriolis.Conductor.Advance.{sort_tasks, advance_execution_state}
use coriolis.Conductor.Cancel.{
  waiting, cancel_tasks, cancel_all, cancel_execution, cancel_tasks_execution, run_cancel,
  run_advance,
}
use coriolis.Conductor.Steps.{here}
use coriolis.Conductor.Steps.Current.{
  AreCurrent, AreCurrent-self, sort_tasks-IsDistinct, sort_tasks-AreCurrent,
}
use coriolis.Conductor.Steps.Deadlock.{
  set_tasks_execution_status-Reach, set_tasks_execution_status-tasks,
}
use coriolis.Conductor.Steps.Advance.{advance_execution_state-Goes}
use coriolis.Conductor.Steps.CancelTask.{cancel_tasks-Goes}
use coriolis.Conductor.Steps.Goes.{Goes, Goes-ok, Goes-trans, bind-Goes}
use coriolis.Conductor.Steps.Keeps.{Reach-IsDistinct, Reach-waiting-le}

module _ (env : Env) where
  module _ (cancel : Action Store (Unit {0})) (n : ℕ)
      (cancel-Goes : (u : Store)
        → IsDistinct u.tasks
        → waiting u.tasks < n
        → Goes u (cancel u)) where
    pub advance-Goes :
        (s : Store)
        → IsDistinct s.tasks
        → waiting s.tasks ≤ n
        → Goes s ((advance_execution_state env cancel none >>= λ _. pure tt) s)
    advance-Goes s d w =
        bind-Goes (advance_execution_state env cancel none) _ s
          (advance_execution_state-Goes env cancel n cancel-Goes none s d w)
          (λ _ _. Goes-ok tt here)

    cancel_all-Goes :
        (force : Bool) (ts : List Task) (s : Store)
        → AreCurrent s.tasks ts
        → IsDistinct ts
        → IsDistinct s.tasks
        → waiting s.tasks ≤ n
        → Goes s (cancel_all env cancel force ts s)
    unfolding cancel_all
    cancel_all-Goes force ts s c d ds w =
        let g = cancel_tasks-Goes env force ts s c d in
        bind-Goes (cancel_tasks env force ts) _ s g (λ _ _.
          advance-Goes _ (Reach-IsDistinct g.reach ds) (omega (arith, Reach-waiting-le g.reach)))

    cancel_execution-Goes :
        (st : ExecutionStatus) (force : Bool) (ts : List Task) (s : Store)
        → s.status ≡ st
        → AreCurrent s.tasks ts
        → IsDistinct ts
        → IsDistinct s.tasks
        → waiting s.tasks ≤ n
        → Goes s (cancel_execution env st cancel force ts s)
    unfolding cancel_execution
    cancel_execution-Goes ExecutionStatus.running force ts s p c d ds w =
        let t =
          set_tasks_execution_status env ExecutionStatus.running ExecutionStatus.cancelling s in
        let k =
          set_tasks_execution_status-tasks env ExecutionStatus.running ExecutionStatus.cancelling
            s in
        rw modify-then (
          Goes-trans _
            (set_tasks_execution_status-Reach env ExecutionStatus.running ExecutionStatus.cancelling
              s (λ q. ground arith))
            (cancel_all-Goes force ts t (rw k c) d (rw k ds) (rw k w)))
    cancel_execution-Goes ExecutionStatus.cancelling false ts s p c d ds w = advance-Goes s ds w
    cancel_execution-Goes ExecutionStatus.cancelling true ts s p c d ds w =
        cancel_all-Goes true ts s c d ds w
    cancel_execution-Goes st force ts s p c d ds w =
        elim (Bool-cases (in_finalized_task_statuses st)) [
          | inl q ↦ rw q (Goes-ok tt here)
          | inr q ↦ rw q (cancel_all-Goes force ts s c d ds w)
        ]

  pub cancel_tasks_execution-Goes :
      (n : ℕ) (force : Bool) (s : Store)
      → IsDistinct s.tasks
      → waiting s.tasks < n
      → Goes s (cancel_tasks_execution env n force s)
  unfolding cancel_tasks_execution
  cancel_tasks_execution-Goes zero force s d w = absurd (omega arith)
  cancel_tasks_execution-Goes (suc n) force s d w =
      cancel_execution-Goes (cancel_tasks_execution env n false) n
        (cancel_tasks_execution-Goes n false) s.status force (sort_tasks s.tasks) s refl
        (sort_tasks-AreCurrent s.tasks s.tasks (AreCurrent-self s.tasks d))
        (sort_tasks-IsDistinct s.tasks d) d (omega arith)

  -- If the identifiers of the tasks are distinct, a cancellation makes only steps of the relation,
  -- whether it returns or raises, and its recursion does not run out of fuel.
  pub run_cancel-Goes :
      (force : Bool) (s : Store) → IsDistinct s.tasks → Goes s (run_cancel env force s)
  unfolding run_cancel
  run_cancel-Goes force s d =
      cancel_tasks_execution-Goes (suc (waiting s.tasks)) force s d (omega arith)

  -- If the identifiers of the tasks are distinct, advancing an execution makes only steps of the
  -- relation, whether it returns or raises, and the cancellation to which failed starts lead does
  -- not run out of fuel.
  pub run_advance-Goes :
      (instance : Option ℕ) (s : Store) → IsDistinct s.tasks → Goes s (run_advance env instance s)
  unfolding run_advance
  run_advance-Goes instance s d =
      advance_execution_state-Goes env (cancel_tasks_execution env (waiting s.tasks) false)
        (waiting s.tasks) (cancel_tasks_execution-Goes (waiting s.tasks) false) instance s d
        (omega arith)
