-- ===== src/Conductor/Rpc/Outcomes.antt =====
-- The status of a task at the end of a request that reports on it.
use coriolis.Prelude.{
  not, ◌&&◌, ◌⊎◌, if◌then◌else◌, ℕ, ==_refl, Bool, true, false, none, some, ◌≡◌, refl, arith, inl,
  inr,
}
use coriolis.Constants.{TaskStatus, is_finalized_task}
use coriolis.Action.{Action, pure, ◌>>=◌}
use coriolis.Db.{
  Store, Task, TaskInfo, find_task, set_status, with_status, set_task_status, change_found,
}
use coriolis.Db.Tasks.{IsDistinct, find-change, find_task-id, find_self, IsDistinct-change}
use coriolis.Conductor.Env.{Env}
use coriolis.Conductor.Cancel.{run_advance}
use coriolis.Conductor.Handlers.{
  status_completed, status_canceled, status_errored, process_result, get_task, task_completed,
  complete_task, confirm_task_cancellation, confirm_canceled, set_task_error,
}
use coriolis.Conductor.Steps.Settled.{is_settled}
use coriolis.Conductor.Steps.Current.{set_task_status-then}
use coriolis.Conductor.Rpc.Events.{Trace}
use coriolis.Conductor.Rpc.Failed.{after_error-Trace}
use coriolis.Conductor.Rpc.Handled.{process_result-Trace, advance-Trace}
use coriolis.Conductor.Rpc.Final.{Trace-settled}

errored-settled : (st : TaskStatus) → is_settled (status_errored st) ≡ true
unfolding status_errored
errored-settled st = ground arith

completed-settled :
    (st : TaskStatus) {u : TaskStatus} → status_completed st ≡ some u → is_settled u ≡ true
unfolding status_completed
completed-settled st e = ground arith

canceled-settled :
    (st : TaskStatus) {u : TaskStatus} → status_canceled st ≡ some u → is_settled u ≡ true
unfolding status_canceled
canceled-settled st e = ground arith

-- A cancellation of the task is under way, or was given up.
abbrev pub is_being_canceled : TaskStatus → Bool
is_being_canceled TaskStatus.cancelling = true
is_being_canceled TaskStatus.cancelling_after_completion = true
is_being_canceled TaskStatus.failed_to_cancel = true
is_being_canceled _ = false

abbrev pub is_force_canceled : TaskStatus → Bool
is_force_canceled TaskStatus.force_canceled = true
is_force_canceled _ = false

abbrev pub after_error : TaskStatus → TaskStatus
after_error st =
    if is_being_canceled st
    then TaskStatus.canceled
    else if is_force_canceled st
    then st
    else TaskStatus.error

abbrev pub after_completion : TaskStatus → TaskStatus
after_completion st =
    if is_being_canceled st
    then TaskStatus.canceled_after_completion
    else if is_finalized_task st
    then st
    else TaskStatus.completed

abbrev pub after_cancellation : TaskStatus → TaskStatus
after_cancellation st =
    if is_finalized_task st && not (is_being_canceled st) then st else TaskStatus.canceled

errored-after : (st : TaskStatus) → status_errored st ≡ after_error st
unfolding status_errored
errored-after st = ground arith

completed-after :
    (st : TaskStatus)
    → (status_completed st ≡ some (after_completion st))
      ⊎ ((status_completed st ≡ none) × (after_completion st ≡ st))
unfolding status_completed
completed-after st = ground arith

canceled-after :
    (st : TaskStatus)
    → (status_canceled st ≡ some (after_cancellation st))
      ⊎ ((status_canceled st ≡ none) × (after_cancellation st ≡ st))
unfolding status_canceled
canceled-after st = ground arith

module _ (env : Env) (i : ℕ) (s : Store) {t : Task} (d : IsDistinct s.tasks)
    (e : find_task i s.tasks ≡ some t) where
  -- Once a task's status is set to a settled one, the statements that follow keep it.
  set-settled :
      {B : Type 0} (st : TaskStatus) (k : Unit {0} → Action Store B)
      → is_settled st ≡ true
      → Trace (λ _. false) (set_status t.id st s) (k tt (set_status t.id st s)).1
      → find_task i ((set_task_status t.id st >>= k) s).1.tasks ≡ some (with_status st t)
  unfolding set_status
  set-settled st k h r =
      let same = find_task-id i s.tasks e in
      let found = find_self i s.tasks e in
      let changed : find_task i (set_status t.id st s).tasks ≡ some (with_status st t) =
        rw (find-change t.id i st s.tasks found, same, ==_refl i) refl in
      rw (set_task_status-then t.id st k s found) (Trace-settled i refl r changed h)

  same-status : find_task i (set_task_status t.id t.status s).1.tasks ≡ some t
  unfolding set_task_status change_found set_status
  same-status =
      let same = find_task-id i s.tasks e in
      let found = find_self i s.tasks e in
      rw found (rw (find-change t.id i t.status s.tasks found, same, ==_refl i) refl)

  -- When a task is reported to have failed, then at the end of the request it is CANCELED if its
  -- cancellation was under way or given up, still FORCE_CANCELED if it was so, and else in ERROR, also
  -- where it was over already. Nothing else in its row changes.
  pub set_task_error-row :
      find_task i (set_task_error env i s).1.tasks ≡ some (with_status (after_error t.status) t)
  unfolding set_status
  set_task_error-row = rw (← errored-after t.status) (
      Trace-settled i refl (after_error-Trace {fails = λ _. false} env i t s d e)
        (rw (find-change i i (status_errored t.status) s.tasks e, ==_refl i) refl)
        (errored-settled t.status))

  -- When a task is reported to be completed, then at the end of the request it is
  -- CANCELED_AFTER_COMPLETION if its cancellation was under way or given up, what it was if it was
  -- over otherwise, and else COMPLETED. Nothing else in its row changes.
  pub task_completed-row :
      (result : TaskInfo)
      → find_task i (task_completed env i result s).1.tasks
        ≡ some (with_status (after_completion t.status) t)
  unfolding task_completed get_task complete_task set_status ◌>>=◌
  task_completed-row result = elim (completed-after t.status) [
    | inl h ↦
        rw (e, h)
          (set-settled (after_completion t.status) (λ _. process_result env t result)
            (completed-settled t.status h)
            (process_result-Trace env t result _
              (IsDistinct-change t.id (after_completion t.status) s.tasks d)))
    | inr (h, k) ↦ rw (e, h) (rw k e)
  ]

  -- When the cancellation of a task is confirmed, then at the end of the request it is what it was if
  -- it was over, other than by a cancellation that was given up, and else CANCELED. Nothing else in
  -- its row changes.
  pub confirm_task_cancellation-row :
      find_task i (confirm_task_cancellation env i s).1.tasks
      ≡ some (with_status (after_cancellation t.status) t)
  unfolding confirm_task_cancellation get_task confirm_canceled set_status ◌>>=◌
  confirm_task_cancellation-row = elim (canceled-after t.status) [
    | inl h ↦
        rw (e, h)
          (set-settled (after_cancellation t.status)
            (λ _. run_advance env none >>= λ started. pure tt) (canceled-settled t.status h)
            (advance-Trace env none _
              (IsDistinct-change t.id (after_cancellation t.status) s.tasks d)))
    | inr (h, k) ↦ rw (e, h) (rw k same-status)
  ]
