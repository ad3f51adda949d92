-- ===== src/Conductor/Steps/Deadlock.antt =====
-- The writes to an execution's status, and the check for deadlocks, as steps.
use coriolis.Prelude.{
  Bool-cases, true, false, ◌||◌, List, [], ◌∷◌, Option, ◌≡◌, refl, arith, inl, inr,
}
use coriolis.Constants.{
  TaskStatus, ExecutionStatus, is_scheduled, is_on_error_only, is_finalized_execution,
}
use coriolis.Db.{Store, Task, Statuses, set_execution_status, statuses_of}
use coriolis.Db.Tasks.{IsDistinct}
use coriolis.Conductor.Env.{Env}
use coriolis.Conductor.Status.{
  set_tasks_execution_status, is_deadlocked, strand_tasks, determine,
  check_clean_execution_deadlock,
}
use coriolis.Conductor.Cancel.{may_start}
use coriolis.Conductor.Steps.{Reach, IsAside, aside, here, Reach-Step, strand}
use coriolis.Conductor.Steps.Current.{AreCurrent, AreCurrent-self, AreCurrent-set}
use coriolis.Conductor.Steps.Goes.{Goes, Goes-ok, set-then-Goes, bind-Goes}
use coriolis.Action.Laws.{pure-then, modify-then}

-- A write to the execution's own row, with what the minion manager and keystone are asked to do.
pub set_tasks_execution_status-Reach :
    (env : Env) (previous st : ExecutionStatus) (s : Store)
    → (is_finalized_execution s.status ≡ true → is_finalized_execution st ≡ true)
    → Reach s (set_tasks_execution_status env previous st s)
unfolding set_tasks_execution_status set_execution_status
set_tasks_execution_status-Reach env previous st s h = Reach-Step (aside kept)
  where
    kept : IsAside s (set_tasks_execution_status env previous st s)
    kept = ground arith

pub set_tasks_execution_status-tasks :
    (env : Env) (previous st : ExecutionStatus) (s : Store)
    → (set_tasks_execution_status env previous st s).tasks ≡ s.tasks
unfolding set_tasks_execution_status set_execution_status
set_tasks_execution_status-tasks env previous st s = ground arith

strandable :
    (st : TaskStatus) → (is_scheduled st || is_on_error_only st) ≡ true → may_start st ≡ true
strandable st h = ground arith

strand_tasks-Goes :
    (ts : List Task) (s : Store)
    → AreCurrent s.tasks ts
    → IsDistinct ts
    → Goes s (strand_tasks (statuses_of ts) s)
unfolding strand_tasks
strand_tasks-Goes [] s c d = Goes-ok tt here
strand_tasks-Goes (t ∷ ts) s c d =
    elim (Bool-cases (is_scheduled t.status || is_on_error_only t.status)) [
      | inl e ↦ rw e (
          set-then-Goes t TaskStatus.canceled_from_deadlock (λ _. strand_tasks (statuses_of ts)) s
            c.0 (strand (strandable t.status e))
            (strand_tasks-Goes ts _ (AreCurrent-set t _ s ts d.0 c) d.1))
      | inr e ↦ rw (e, pure-then) (strand_tasks-Goes ts s c.1 d.1)
    ]

pub check_clean_execution_deadlock-Goes :
    (env : Env) (given : Option Statuses) (s : Store)
    → IsDistinct s.tasks
    → determine given s ≡ statuses_of s.tasks
    → Goes s (check_clean_execution_deadlock env given s)
unfolding check_clean_execution_deadlock
check_clean_execution_deadlock-Goes env given s d e =
    elim (Bool-cases (is_deadlocked (determine given s))) [
      | inl h ↦ rw h (
          bind-Goes _ _ s (rw e (strand_tasks-Goes s.tasks s (AreCurrent-self s.tasks d) d)) (λ _ _.
            rw modify-then (
              Goes-ok true (
                set_tasks_execution_status-Reach env s.status ExecutionStatus.deadlocked _
                  (λ _. refl)))))
      | inr h ↦ rw h (Goes-ok false here)
    ]
