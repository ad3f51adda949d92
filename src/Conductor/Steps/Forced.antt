-- ===== src/Conductor/Steps/Forced.antt =====
-- What a forced cancellation does to the tasks that it finds.
use mathlib.Core.Option.{some-injective}
use coriolis.Prelude.{
  subst, ◌<◌, ◌≤◌, ℕ, ◌==◌, ==→≡, ==_refl, Bool-cases, true, false, if◌then◌else◌, List, [], ◌∷◌,
  none, some, ◌≡◌, refl, ◌∙◌, arith, inl, inr,
}
use coriolis.Constants.{TaskStatus, ExecutionStatus, in_finalized_task_statuses}
use coriolis.Action.{Action, pure, ◌>>=◌}
use coriolis.Action.Laws.{bind-eq, modify-then}
use coriolis.Db.{Store, Task, find_task, set_status, with_status}
use coriolis.Db.Tasks.{IsDistinct, IsFresh, find-change, set_task_status-found}
use coriolis.Conductor.Env.{Env}
use coriolis.Conductor.Status.{set_tasks_execution_status}
use coriolis.Conductor.Advance.{advance_execution_state, insert_task, sort_tasks}
use coriolis.Conductor.Cancel.{
  is_force_cancelable, cancel_task, cancel_tasks, cancel_all, cancel_execution,
  cancel_tasks_execution, run_cancel, waiting,
}
use coriolis.Conductor.Steps.CancelTask.{AreCurrent-touched, cancel_task-Handled, cancel_tasks-Goes}
use coriolis.Conductor.Steps.Current.{
  AreCurrent, AreCurrent-self, sort_tasks-IsFresh, sort_tasks-AreCurrent, sort_tasks-IsDistinct,
}
use coriolis.Conductor.Steps.Cancel.{advance-Goes, cancel_tasks_execution-Goes}
use coriolis.Conductor.Steps.Deadlock.{set_tasks_execution_status-tasks}
use coriolis.Conductor.Steps.Goes.{Goes, bind-Reach}
use coriolis.Conductor.Steps.Keeps.{Reach-IsDistinct, Reach-waiting-le}
use coriolis.Conductor.Steps.Settled.{Reach-settled}

find-insert_task :
    (i : ℕ) (t : Task) (us : List Task)
    → IsFresh t.id us
    → find_task i (insert_task t us) ≡ (if t.id == i then some t else find_task i us)
unfolding find_task
find-insert_task i t [] f = refl
find-insert_task i t (u ∷ us) f = ground (arith, find-insert_task i t us f.1, ==→≡ t.id i)

find-sort_tasks :
    (i : ℕ) (ts : List Task) → IsDistinct ts → find_task i (sort_tasks ts) ≡ find_task i ts
unfolding find_task sort_tasks
find-sort_tasks i [] d = refl
find-sort_tasks i (t ∷ ts) d =
    rw
      (
        find-insert_task i t (sort_tasks ts) (sort_tasks-IsFresh t.id ts d.0),
        find-sort_tasks i ts d.1,
      )
      refl

forced-row :
    (env : Env) (u : Task) (s : Store)
    → find_task u.id s.tasks ≡ some u
    → is_force_cancelable u.status ≡ true
    → find_task u.id (cancel_task env true u s).1.tasks
      ≡ some (with_status TaskStatus.force_canceled u)
unfolding cancel_task set_status
forced-row env u s e h =
    rw (h, set_task_status-found u.id TaskStatus.force_canceled s e)
      (rw (find-change u.id u.id TaskStatus.force_canceled s.tasks e, ==_refl u.id) refl)

module _ (env : Env) (i : ℕ) {t : Task} (cancelable : is_force_cancelable t.status ≡ true) where
  cancel_tasks-forced :
      (ts : List Task) (s : Store)
      → AreCurrent s.tasks ts
      → IsDistinct ts
      → find_task i ts ≡ some t
      → find_task i (cancel_tasks env true ts s).1.tasks
        ≡ some (with_status TaskStatus.force_canceled t)
  unfolding cancel_tasks find_task
  cancel_tasks-forced [] s c d e = absurd (cc)
  cancel_tasks-forced (u ∷ us) s c d e =
      let h = cancel_task-Handled env true u s c.0 in
      let s' = (cancel_task env true u s).1 in
      let same = (λ (q : (u.id == i) ≡ true). some-injective u t (rw (q, if◌then◌else◌) at e)) in
      let c' = AreCurrent-touched u.id s s' us h.touches d.0 c.1 in
      rw (bind-eq (cancel_task env true u) (λ _. cancel_tasks env true us) s h.done)
        (elim (Bool-cases (u.id == i)) [
          | inl q ↦
              Reach-settled i (cancel_tasks-Goes env true us s' c' d.1).reach
                (subst (λ v. find_task i s'.tasks ≡ some (with_status TaskStatus.force_canceled v))
                  (same q)
                  (subst
                    (λ j. find_task j s'.tasks ≡ some (with_status TaskStatus.force_canceled u))
                    (==→≡ u.id i q) (forced-row env u s c.0 (rw (same q) cancelable))))
                refl
          | inr q ↦ cancel_tasks-forced us s' c' d.1 (rw (q, if◌then◌else◌) at e)
        ])

  cancel_all-forced :
      (cancel : Action Store (Unit {0})) (n : ℕ)
      → ((u : Store) → IsDistinct u.tasks → waiting u.tasks < n → Goes u (cancel u))
      → (ts : List Task) (s : Store) → AreCurrent s.tasks ts
      → IsDistinct ts
      → IsDistinct s.tasks
      → waiting s.tasks ≤ n
      → find_task i ts ≡ some t
      → find_task i (cancel_all env cancel true ts s).1.tasks
        ≡ some (with_status TaskStatus.force_canceled t)
  unfolding cancel_all
  cancel_all-forced cancel n k ts s c d ds w e =
      let g = cancel_tasks-Goes env true ts s c d in
      Reach-settled i
        (bind-Reach (cancel_tasks env true ts)
          (λ _. advance_execution_state env cancel none >>= λ started. pure tt) s
          (λ _.
            (advance-Goes env cancel n k (cancel_tasks env true ts s).1
              (Reach-IsDistinct g.reach ds) (omega (arith, Reach-waiting-le g.reach))).reach))
        (cancel_tasks-forced ts s c d e) refl

  cancel_execution-forced :
      (st : ExecutionStatus) (cancel : Action Store (Unit {0})) (n : ℕ)
      → ((u : Store) → IsDistinct u.tasks → waiting u.tasks < n → Goes u (cancel u))
      → (ts : List Task) (s : Store) → in_finalized_task_statuses st ≡ false
      → AreCurrent s.tasks ts
      → IsDistinct ts
      → IsDistinct s.tasks
      → waiting s.tasks ≤ n
      → find_task i ts ≡ some t
      → find_task i (cancel_execution env st cancel true ts s).1.tasks
        ≡ some (with_status TaskStatus.force_canceled t)
  unfolding cancel_execution
  cancel_execution-forced ExecutionStatus.running cancel n k ts s q c d ds w e =
      let running = ExecutionStatus.running in
      let cancelling = ExecutionStatus.cancelling in
      let same = set_tasks_execution_status-tasks env running cancelling s in
      rw modify-then (
        cancel_all-forced cancel n k ts (set_tasks_execution_status env running cancelling s)
          (rw same c) d (rw same ds) (rw same w) e)
  cancel_execution-forced ExecutionStatus.cancelling cancel n k ts s q c d ds w e =
      cancel_all-forced cancel n k ts s c d ds w e
  cancel_execution-forced st cancel n k ts s q c d ds w e =
      rw q (cancel_all-forced cancel n k ts s c d ds w e)

-- If the identifiers of the tasks are distinct and the status of the execution passes the early
-- return, a forced cancellation leaves each task FORCE_CANCELED that was active or FAILED_TO_CANCEL
-- when it began, with the rest of the task's row unchanged.
pub run_cancel-forced :
    (env : Env) (s : Store) (i : ℕ) {t : Task}
    → IsDistinct s.tasks
    → in_finalized_task_statuses s.status ≡ false
    → find_task i s.tasks ≡ some t
    → is_force_cancelable t.status ≡ true
    → find_task i (run_cancel env true s).1.tasks ≡ some (with_status TaskStatus.force_canceled t)
unfolding run_cancel cancel_tasks_execution
run_cancel-forced env s i d q e h =
    cancel_execution-forced env i h s.status (cancel_tasks_execution env (waiting s.tasks) false)
      (waiting s.tasks) (cancel_tasks_execution-Goes env (waiting s.tasks) false)
      (sort_tasks s.tasks) s q (sort_tasks-AreCurrent s.tasks s.tasks (AreCurrent-self s.tasks d))
      (sort_tasks-IsDistinct s.tasks d) d (omega arith) (find-sort_tasks i s.tasks d ∙ e)
