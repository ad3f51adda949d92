-- ===== src/Conductor/Steps/CancelTask.antt =====
-- The loop of `_cancel_tasks_execution` over the tasks: each turn touches one row.
use coriolis.Prelude.{
  ℕ, ◌==◌, Bool, Bool-cases, true, false, ◌&&◌, is_empty, List, [], ◌∷◌, some, ◌≡◌, refl, ◌∙◌,
  arith, inl, inr,
}
use coriolis.Constants.{TaskStatus}
use coriolis.Action.{Result, ok, ◌>>=◌}
use coriolis.Db.{Store, Task, find_task, with_status, set_status, set_task_status, Effect}
use coriolis.Db.Tasks.{IsFresh, IsDistinct, find-change, set_task_status-found}
use coriolis.Conductor.Env.{Env}
use coriolis.Conductor.Advance.{next_call}
use coriolis.Conductor.Cancel.{
  is_force_cancelable, send_cancellation, cancel_running_task, cancel_by_status, cancel_task,
  cancel_tasks,
}
use coriolis.Conductor.Steps.{Move, Reach, change, here, next, Reach-Step, is_cancelable}
use coriolis.Conductor.Steps.Current.{AreCurrent}
use coriolis.Conductor.Steps.Goes.{Goes, Goes-ok, bind-Goes}
use coriolis.Conductor.Steps.Start.{called, called-Step, emit-Step, set_status-same}

-- Only the row of the task `i` differs.
abbrev pub Touches : ℕ → Store → Store → Type 0
Touches i s u = (j : ℕ) → (i == j) ≡ false → find_task j u.tasks ≡ find_task j s.tasks

Touches-set :
    (i : ℕ) (st : TaskStatus) (s : Store) {t : Task}
    → find_task i s.tasks ≡ some t
    → Touches i s (set_status i st s)
unfolding set_status
Touches-set i st s e j h = rw (find-change i j st s.tasks e, h)

pub AreCurrent-touched :
    (i : ℕ) (s u : Store) (ts : List Task)
    → Touches i s u
    → IsFresh i ts
    → AreCurrent s.tasks ts
    → AreCurrent u.tasks ts
AreCurrent-touched i s u [] h f c = tt
AreCurrent-touched i s u (t ∷ ts) h f c =
    (h t.id (ground (arith, f.0)) ∙ c.0, AreCurrent-touched i s u ts h f.1 c.1)

-- What the loop does to one task.
pub record Handled (i : ℕ) (s : Store) (o : Result (Unit {0}) × Store) : Type 0 where
  pub done : o.0 ≡ ok tt
  pub goes : Goes s o
  pub touches : Touches i s o.1

Handled-none : (i : ℕ) (s : Store) → Handled i s (ok tt, s)
Handled-none i s = record { done = refl; goes = Goes-ok tt here; touches = λ j h. refl }

Handled-set :
    (t : Task) (st : TaskStatus) (s : Store)
    → find_task t.id s.tasks ≡ some t
    → Move s t st
    → Handled t.id s (set_task_status t.id st s)
Handled-set t st s e m = rw (set_task_status-found t.id st s e) (record {
  done = refl;
  goes = Goes-ok tt (Reach-Step (change t st e m));
  touches = Touches-set t.id st s e;
})

module _ (env : Env) where
  sent-Handled :
      (t : Task) (force : Bool) (s : Store)
      → find_task t.id s.tasks ≡ some t
      → is_cancelable t.status ≡ true
      → t.on_error ≡ false
      → Handled t.id s (send_cancellation env t force s)
  unfolding send_cancellation next_call ◌>>=◌ set_status set_task_status
  sent-Handled t force s e p q =
      rw (set_task_status-found t.id TaskStatus.cancelling s e)
        (elim (Bool-cases (env.cancel_sent s.calls t.id)) [
          | inl c ↦ rw c (record {
            done = refl;
            goes = Goes-ok tt (next asked (emit-Step (Effect.cancel_task t.id force) _));
            touches = Touches-set t.id TaskStatus.cancelling s e;
          })
          | inr c ↦
              rw (c, set_task_status-found t.id TaskStatus.failed_to_cancel u found)
                (record {
                  done = refl;
                  goes = Goes-ok tt (
                      next asked (
                        change (with_status TaskStatus.cancelling t) TaskStatus.failed_to_cancel
                          found (Move.lose refl)));
                  touches = λ j h.
                      Touches-set t.id TaskStatus.failed_to_cancel u found j h
                      ∙ Touches-set t.id TaskStatus.cancelling s e j h;
                })
        ])
    where
      u : Store
      u = called (set_status t.id TaskStatus.cancelling s)

      asked : Reach s u
      asked = next (next here (change t TaskStatus.cancelling e (Move.request p q))) (called-Step _)

      found : find_task t.id u.tasks ≡ some (with_status TaskStatus.cancelling t)
      found = set_status-same t TaskStatus.cancelling s e

  cancel_running_task-Handled :
      (t : Task) (force : Bool) (s : Store)
      → find_task t.id s.tasks ≡ some t
      → is_cancelable t.status ≡ true
      → Handled t.id s (cancel_running_task env t force s)
  unfolding cancel_running_task
  cancel_running_task-Handled t force s e p = elim (Bool-cases t.on_error) [
    | inl q ↦ simp q (Handled-set t _ s e (Move.spare p q))
    | inr q ↦ simp q (sent-Handled t force s e p q)
  ]

  cancel_by_status-Handled :
      (st : TaskStatus) (t : Task) (force : Bool) (s : Store)
      → find_task t.id s.tasks ≡ some t
      → t.status ≡ st
      → Handled t.id s (cancel_by_status env st t force s)
  unfolding cancel_by_status
  cancel_by_status-Handled TaskStatus.scheduled t force s e p =
      elim (Bool-cases (is_empty t.depends_on)) [
        | inl q ↦ rw q (Handled-set t _ s e (Move.unschedule p))
        | inr q ↦ rw q (Handled-none t.id s)
      ]
  cancel_by_status-Handled TaskStatus.pending t force s e p =
      Handled-set t _ s e (Move.revoke (inl p))
  cancel_by_status-Handled TaskStatus.starting t force s e p =
      Handled-set t _ s e (Move.revoke (inr p))
  cancel_by_status-Handled TaskStatus.running t force s e p =
      cancel_running_task-Handled t force s e (rw p)
  cancel_by_status-Handled TaskStatus.failed_to_cancel t force s e p =
      cancel_running_task-Handled t force s e (rw p)
  cancel_by_status-Handled TaskStatus.on_error_only t force s e p =
      Handled-set t _ s e (Move.release p)
  cancel_by_status-Handled _ t force s e p = Handled-none t.id s

  pub cancel_task-Handled :
      (force : Bool) (t : Task) (s : Store)
      → find_task t.id s.tasks ≡ some t
      → Handled t.id s (cancel_task env force t s)
  unfolding cancel_task
  cancel_task-Handled force t s e = elim (Bool-cases (force && is_force_cancelable t.status)) [
    | inl q ↦ rw q (Handled-set t _ s e (Move.force (ground arith)))
    | inr q ↦ rw q (cancel_by_status-Handled t.status t force s e refl)
  ]

  pub cancel_tasks-Goes :
      (force : Bool) (ts : List Task) (s : Store)
      → AreCurrent s.tasks ts
      → IsDistinct ts
      → Goes s (cancel_tasks env force ts s)
  unfolding cancel_tasks
  cancel_tasks-Goes force [] s c d = Goes-ok tt here
  cancel_tasks-Goes force (t ∷ ts) s c d =
      let h = cancel_task-Handled force t s c.0 in
      bind-Goes (cancel_task env force t) _ s h.goes (λ _ _.
        cancel_tasks-Goes force ts (cancel_task env force t s).1
          (AreCurrent-touched t.id s (cancel_task env force t s).1 ts h.touches d.0 c.1) d.1)
