-- ===== src/Conductor/Rpc/Failed.antt =====
-- A report that a task has failed makes changes of the relation only.
use coriolis.Prelude.{
  ==_refl, ℕ, Bool, Bool-cases, true, false, not, ◌&&◌, if◌then◌else◌, any, Option-cases, some, ◌≡◌,
  refl, sym, arith, inl, inr,
}
use coriolis.Constants.{ExecutionStatus, is_active_task, is_os_morphing}
use coriolis.Action.{◌>>=◌}
use coriolis.Db.{Store, Task, Effect, find_task, with_status, set_status, set_task_status}
use coriolis.Db.Tasks.{find-change, IsDistinct-change, IsDistinct, set_task_status-found}
use coriolis.Conductor.Env.{Env}
use coriolis.Conductor.Cancel.{run_cancel, delete_reservation}
use coriolis.Conductor.Rpc.PostTask.{if-Trace, Trace-emit}
use coriolis.Conductor.Handlers.{
  get_task, status_errored, cancel_for_debugging, debug_os_morphing, handle_error, set_task_error,
  is_migration,
}
use coriolis.Conductor.Rpc.Debugging.{cancel_for_debugging-Stopped}
use coriolis.Conductor.Steps.Current.{AreCurrent-self}
use coriolis.Conductor.Steps.Deadlock.{set_tasks_execution_status-Reach}
use coriolis.Conductor.Rpc.Events.{
  Reported, own, row, Trace, nil, Trace-trans, Trace-Event, bind-Trace,
}
use coriolis.Conductor.Rpc.Handled.{set-Trace, cancel-Trace}

module _ {fails : ℕ → Bool} where
  module _ (env : Env) where
    debug_os_morphing-Trace :
        (i : ℕ) (t : Task) (s : Store)
        → IsDistinct s.tasks
        → find_task i s.tasks ≡ some t
        → is_os_morphing t.task_type ≡ true
        → Trace fails s (debug_os_morphing env i t.status s.tasks s).1
    unfolding debug_os_morphing
    debug_os_morphing-Trace i t s d e m =
        let stopped =
          cancel_for_debugging-Stopped i t m s.tasks s (AreCurrent-self s.tasks d) d e in
        bind-Trace (cancel_for_debugging s.tasks) _ s stopped.trace λ _ _.
          bind-Trace (set_task_status i t.status) _ _
            (set-Trace i t t.status _ stopped.kept Reported.same)
            λ _ _. Trace-Event (
              own (
                set_tasks_execution_status-Reach env _ ExecutionStatus.canceled_for_debugging _
                  (λ _. refl)))

    handle_error-Trace :
        (i : ℕ) (t u : Task) (s : Store)
        → IsDistinct s.tasks
        → find_task i s.tasks ≡ some u
        → t.task_type ≡ u.task_type
        → Trace fails s (handle_error env i t u.status s.tasks s).1
    unfolding handle_error
    handle_error-Trace i t u s d e k =
        if-Trace (is_os_morphing t.task_type && env.debug_os_morphing_errors) _ _ s
          (λ h.
            if-Trace
              (any (λ v. is_active_task v.status && not (is_os_morphing v.task_type)) s.tasks)
              (run_cancel env false) (debug_os_morphing env i u.status s.tasks) s
              (λ _. cancel-Trace env false s d)
              (λ _. debug_os_morphing-Trace i u s d e (rw (sym k) (ground arith))))
          (λ _. cancel-Trace env false s d)

    pub delete_reservation-Trace : (s : Store) → Trace fails s (delete_reservation env s)
    delete_reservation-Trace s = elim (Bool-cases env.has_reservation) [
      | inl h ↦ rw h (Trace-emit Effect.delete_reservation s)
      | inr h ↦ rw h nil
    ]

    delete_for_migration-Trace :
        (s : Store)
        → Trace fails s (if is_migration s.execution_type then delete_reservation env s else s)
    delete_for_migration-Trace s = elim (Bool-cases (is_migration s.execution_type)) [
      | inl h ↦ rw h (delete_reservation-Trace s)
      | inr h ↦ rw h nil
    ]

    -- What follows the write of the status.
    pub after_error-Trace :
        (i : ℕ) (t : Task) (s : Store)
        → IsDistinct s.tasks
        → find_task i s.tasks ≡ some t
        → Trace fails (set_status i (status_errored t.status) s) (set_task_error env i s).1
    unfolding set_task_error set_status get_task ◌>>=◌
    after_error-Trace i t s d e =
        let st = status_errored t.status in
        let found : find_task i (set_status i st s).tasks ≡ some (with_status st t) =
          rw (find-change i i st s.tasks e, ==_refl i) refl in
        rw (e, set_task_status-found i st s e)
          (bind-Trace (handle_error env i t st (set_status i st s).tasks) _ (set_status i st s)
            (handle_error-Trace i t (with_status st t) (set_status i st s)
              (IsDistinct-change i st s.tasks d) found refl)
            λ _ _. delete_for_migration-Trace _)

    pub set_task_error-Trace :
        (i : ℕ) (s : Store)
        → fails i ≡ true
        → IsDistinct s.tasks
        → Trace fails s (set_task_error env i s).1
    unfolding set_task_error set_status get_task ◌>>=◌
    set_task_error-Trace i s h d = elim (Option-cases (find_task i s.tasks)) [
      | inl e ↦ rw e nil
      | inr (t, e) ↦
          Trace-trans
            (Trace-Event (row i t (with_status (status_errored t.status)) e (Reported.fail h)))
            (after_error-Trace i t s d e)
    ]
