-- ===== src/Conductor/Steps/Stranded.antt =====
-- What the deadlock check does to an execution that is deadlocked.
use mathlib.Core.Option.{some-injective}
use coriolis.Prelude.{
  ℕ, ◌==◌, ==→≡, ==_refl, Bool-cases, true, ◌||◌, if◌then◌else◌, List, [], ◌∷◌, none, some, ◌≡◌,
  refl, ◌∙◌, subst, arith, inl, inr,
}
use coriolis.Constants.{TaskStatus, ExecutionStatus, is_scheduled, is_on_error_only}
use coriolis.Action.{ok, pure, modify, ◌>>=◌, ◌>>◌}
use coriolis.Action.Laws.{bind-eq, pure-then}
use coriolis.Db.{Store, Task, find_task, set_status, statuses_of, with_status, set_execution_status}
use coriolis.Db.Tasks.{IsDistinct, IsFresh, find-change}
use coriolis.Conductor.Env.{Env}
use coriolis.Conductor.Status.{
  is_deadlocked, strand_tasks, check_clean_execution_deadlock, set_tasks_execution_status,
}
use coriolis.Conductor.Steps.Current.{
  AreCurrent, AreCurrent-self, AreCurrent-set, set_task_status-then,
}
use coriolis.Conductor.Steps.Deadlock.{set_tasks_execution_status-tasks}

-- A task after the check: one that could still have been started never will be.
abbrev pub stranded : Task → Task
stranded t =
    if is_scheduled t.status || is_on_error_only t.status
    then with_status TaskStatus.canceled_from_deadlock t
    else t

-- The loop returns, and changes no other rows.
strand_tasks-others :
    (i : ℕ) (ts : List Task) (s : Store)
    → AreCurrent s.tasks ts
    → IsDistinct ts
    → ((strand_tasks (statuses_of ts) s).0 ≡ ok tt)
      × (IsFresh i ts → find_task i (strand_tasks (statuses_of ts) s).1.tasks ≡ find_task i s.tasks)
unfolding strand_tasks set_status
strand_tasks-others i [] s c d = (refl, λ f. refl)
strand_tasks-others i (t ∷ ts) s c d =
    elim (Bool-cases (is_scheduled t.status || is_on_error_only t.status)) [
      | inl q ↦
          let st = TaskStatus.canceled_from_deadlock in
          let s' = set_status t.id st s in
          let rest = strand_tasks-others i ts s' (AreCurrent-set t st s ts d.0 c) d.1 in
          rw (q, set_task_status-then t.id st (λ _. strand_tasks (statuses_of ts)) s c.0)
            (rest.0, λ f. rest.1 f.1 ∙ rw (find-change t.id i st s.tasks c.0, f.0) refl)
      | inr q ↦
          let rest = strand_tasks-others i ts s c.1 d.1 in
          rw (q, pure-then) (rest.0, λ f. rest.1 f.1)
    ]

strand_tasks-head :
    (u : Task) (us : List Task) (s : Store)
    → AreCurrent s.tasks (u ∷ us)
    → IsDistinct (u ∷ us)
    → find_task u.id (strand_tasks (statuses_of (u ∷ us)) s).1.tasks ≡ some (stranded u)
unfolding strand_tasks set_status
strand_tasks-head u us s c d =
    elim (Bool-cases (is_scheduled u.status || is_on_error_only u.status)) [
      | inl q ↦
          let st = TaskStatus.canceled_from_deadlock in
          let rest =
            strand_tasks-others u.id us (set_status u.id st s) (AreCurrent-set u st s us d.0 c)
              d.1 in
          rw (q, set_task_status-then u.id st (λ _. strand_tasks (statuses_of us)) s c.0)
            (rest.1 d.0 ∙ rw (find-change u.id u.id st s.tasks c.0, ==_refl u.id) refl)
      | inr q ↦ rw (q, pure-then) ((strand_tasks-others u.id us s c.1 d.1).1 d.0 ∙ c.0)
    ]

strand_tasks-row :
    (i : ℕ) (ts : List Task) (s : Store) {t : Task}
    → AreCurrent s.tasks ts
    → IsDistinct ts
    → find_task i ts ≡ some t
    → find_task i (strand_tasks (statuses_of ts) s).1.tasks ≡ some (stranded t)
unfolding strand_tasks set_status find_task
strand_tasks-row i [] s c d e = absurd (cc)
strand_tasks-row i (u ∷ us) s {t} c d e = elim (Bool-cases (u.id == i)) [
  | inl q ↦
      subst (λ v. find_task i (strand_tasks (statuses_of (u ∷ us)) s).1.tasks ≡ some (stranded v))
        (some-injective u t (rw (q, if◌then◌else◌) at e))
        (subst
          (λ j. find_task j (strand_tasks (statuses_of (u ∷ us)) s).1.tasks ≡ some (stranded u))
          (==→≡ u.id i q) (strand_tasks-head u us s c d))
  | inr q ↦ elim (Bool-cases (is_scheduled u.status || is_on_error_only u.status)) [
    | inl p ↦
        let st = TaskStatus.canceled_from_deadlock in
        rw (p, set_task_status-then u.id st (λ _. strand_tasks (statuses_of us)) s c.0)
          (strand_tasks-row i us (set_status u.id st s) (AreCurrent-set u st s us d.0 c) d.1
            (rw (q, if◌then◌else◌) at e))
    | inr p ↦ rw (p, pure-then) (strand_tasks-row i us s c.1 d.1 (rw (q, if◌then◌else◌) at e))
  ]
]

set_tasks_execution_status-status :
    (env : Env) (previous st : ExecutionStatus) (s : Store)
    → (set_tasks_execution_status env previous st s).status ≡ st
unfolding set_tasks_execution_status set_execution_status
set_tasks_execution_status-status env previous st s = ground arith

check-eq :
    (env : Env) (s : Store)
    → IsDistinct s.tasks
    → is_deadlocked (statuses_of s.tasks) ≡ true
    → check_clean_execution_deadlock env none s ≡ (
      ok true,
      set_tasks_execution_status env s.status ExecutionStatus.deadlocked
          (strand_tasks (statuses_of s.tasks) s).1,
    )
unfolding check_clean_execution_deadlock ◌>>=◌
check-eq env s d h =
    let st = ExecutionStatus.deadlocked in
    let done = (strand_tasks-others 0 s.tasks s (AreCurrent-self s.tasks d) d).0 in
    rw
      (
        h,
        bind-eq (strand_tasks (statuses_of s.tasks))
            (λ _. modify (set_tasks_execution_status env s.status st) >> pure true) s done,
      )
      refl

-- If the identifiers of the tasks are distinct, a task is scheduled and none is active, then the
-- deadlock check finds a deadlock, sets the execution's status to DEADLOCKED, and each task that
-- could still have been started, and no other, gets the status of a stranded task.
pub check_clean_execution_deadlock-stranded :
    (env : Env) (s : Store) (i : ℕ) {t : Task}
    → IsDistinct s.tasks
    → is_deadlocked (statuses_of s.tasks) ≡ true
    → find_task i s.tasks ≡ some t
    → ((check_clean_execution_deadlock env none s).0 ≡ ok true)
      × ((check_clean_execution_deadlock env none s).1.status ≡ ExecutionStatus.deadlocked)
      × (find_task i (check_clean_execution_deadlock env none s).1.tasks ≡ some (stranded t))
check_clean_execution_deadlock-stranded env s i d h e =
    let st = ExecutionStatus.deadlocked in
    let s' = (strand_tasks (statuses_of s.tasks) s).1 in
    rw (check-eq env s d h, set_tasks_execution_status-tasks env s.status st s')
      (
        refl,
        set_tasks_execution_status-status env s.status st s',
        strand_tasks-row i s.tasks s (AreCurrent-self s.tasks d) d e,
      )
