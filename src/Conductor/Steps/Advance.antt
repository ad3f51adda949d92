-- ===== src/Conductor/Steps/Advance.antt =====
-- `_advance_execution_state`, as steps.
use coriolis.Prelude.{
  ℕ, ◌≤◌, ◌<◌, Bool, Bool-cases, true, false, if◌then◌else◌, List, [], ◌∷◌, Option, none, some, ◌≡◌,
  ◌≢◌, refl, arith, inl, inr,
}
use coriolis.Constants.{
  ExecutionStatus, is_active_execution, is_finalized_execution, same_execution_status,
}
use coriolis.Action.{Action, ok, pure, modify, ◌>>=◌}
use coriolis.Action.Laws.{pure-then, bind-ok}
use coriolis.Db.{Store, Task, Statuses, statuses_of}
use coriolis.Db.Tasks.{IsDistinct}
use coriolis.Conductor.Env.{Env}
use coriolis.Conductor.Status.{
  get_execution_status, is_deadlocked, strand_tasks, determine, check_clean_execution_deadlock,
}
use coriolis.Conductor.Advance.{
  on_error_ids, sort_tasks, tasks_to_process, visit_tasks, refresh_status, finish_advance,
  advance_execution_state,
}
use coriolis.Conductor.Cancel.{waiting}
use coriolis.Conductor.Steps.{here}
use coriolis.Conductor.Steps.Current.{
  AreCurrent-self, sort_tasks-IsDistinct, sort_tasks-AreCurrent, tasks_to_process-IsDistinct,
  tasks_to_process-AreCurrent,
}
use coriolis.Conductor.Steps.Deadlock.{
  set_tasks_execution_status-Reach, check_clean_execution_deadlock-Goes,
}
use coriolis.Conductor.Steps.Goes.{Goes, Goes-ok, bind-Goes, require-Goes}
use coriolis.Conductor.Steps.Visits.{Visited, visit_tasks-Goes}

determine-some :
    (statuses : Statuses) (s : Store)
    → statuses ≡ statuses_of s.tasks
    → determine (some statuses) s ≡ statuses_of s.tasks
determine-some [] s e = refl
determine-some (x ∷ xs) s e = e

active-not_finalized :
    (st : ExecutionStatus) → is_active_execution st ≡ true → is_finalized_execution st ≡ false
active-not_finalized st h = ground arith

stranded-true : (g : Store → Store) (t : Store) → ((modify g >>= λ _. pure true) t).0 ≢ ok false
unfolding ◌>>=◌
stranded-true g t q = cc

module _ (env : Env) where
  -- The check writes nothing where it finds no deadlock.
  check-false :
      (given : Option Statuses) (s : Store)
      → (check_clean_execution_deadlock env given s).0 ≡ ok false
      → (check_clean_execution_deadlock env given s).1 ≡ s
  unfolding check_clean_execution_deadlock
  check-false given s h = elim (Bool-cases (is_deadlocked (determine given s))) [
    | inl e ↦
        let (_, _, q) =
          bind-ok (strand_tasks (determine given s)) _ s (rw (e, if◌then◌else◌) at h) in
        absurd (stranded-true _ _ q)
    | inr e ↦ rw e
  ]

  refresh_status-Goes :
      (previous : ExecutionStatus) (s : Store)
      → is_finalized_execution s.status ≡ false
      → Goes s (refresh_status env previous s)
  unfolding refresh_status
  refresh_status-Goes previous s h =
      elim (Bool-cases
        (same_execution_status (get_execution_status (statuses_of s.tasks)) previous)) [
          | inl e ↦ rw e (Goes-ok tt here)
          | inr e ↦ rw e (Goes-ok tt (set_tasks_execution_status-Reach env previous _ s (λ f. cc)))
        ]

  refresh-then-Goes :
      (previous : ExecutionStatus) (started : List ℕ) (s : Store)
      → is_finalized_execution s.status ≡ false
      → Goes s ((refresh_status env previous >>= λ _. pure started) s)
  refresh-then-Goes previous started s h =
      bind-Goes (refresh_status env previous) _ s (refresh_status-Goes previous s h)
        (λ _ _. Goes-ok started here)

  finish_advance-Goes :
      (previous : ExecutionStatus) (statuses : Statuses) (started : List ℕ) (s : Store)
      → IsDistinct s.tasks
      → statuses ≡ statuses_of s.tasks
      → is_finalized_execution s.status ≡ false
      → Goes s (finish_advance env previous (statuses, started) s)
  unfolding finish_advance
  finish_advance-Goes previous statuses [] s d e h =
      bind-Goes (check_clean_execution_deadlock env (some statuses)) _ s
        (check_clean_execution_deadlock-Goes env (some statuses) s d (determine-some statuses s e))
        (λ dead q. after dead q)
    where
      after :
          (dead : Bool)
          → (check_clean_execution_deadlock env (some statuses) s).0 ≡ ok dead
          → Goes (check_clean_execution_deadlock env (some statuses) s).1 (
              (if dead
                  then pure {A = List ℕ} []
                  else (refresh_status env previous >>= λ _. pure []))
                (check_clean_execution_deadlock env (some statuses) s).1)
      after true q = Goes-ok [] here
      after false q = rw (check-false (some statuses) s q) (refresh-then-Goes previous [] s h)
  finish_advance-Goes previous statuses (i ∷ is) s d e h =
      rw pure-then (refresh-then-Goes previous (i ∷ is) s h)

  module _ (cancel : Action Store (Unit {0})) (n : ℕ)
      (cancel-Goes : (u : Store)
        → IsDistinct u.tasks
        → waiting u.tasks < n
        → Goes u (cancel u)) where
    pub advance_execution_state-Goes :
        (instance : Option ℕ) (s : Store)
        → IsDistinct s.tasks
        → waiting s.tasks ≤ n
        → Goes s (advance_execution_state env cancel instance s)
    unfolding advance_execution_state
    advance_execution_state-Goes instance s d w = elim (Bool-cases (is_active_execution s.status)) [
      | inr e ↦ rw e (
          bind-Goes (check_clean_execution_deadlock env none) _ s
            (check_clean_execution_deadlock-Goes env none s d refl) (λ _ _. Goes-ok _ here))
      | inl e ↦ rw e (
          require-Goes _ _ _ s (λ q. cc)
            λ _.
              require-Goes _ _ _ s (λ q. cc)
                λ _. bind-Goes (visit_tasks env cancel _ _ _) _ s loop.goes λ locals q.
                  let a = loop.agrees locals q in
                  finish_advance-Goes s.status locals.0 locals.1 _ a.distinct a.statuses_agree
                    (rw a.status_kept (active-not_finalized s.status e)))
    ]
      where
        tasks : List Task
        tasks = tasks_to_process instance s.tasks

        loop : Visited env cancel n cancel-Goes (on_error_ids s.tasks) s.status [] s (
            visit_tasks env cancel
              (on_error_ids s.tasks)
              (sort_tasks tasks)
              (statuses_of s.tasks, [])
              s)
        loop =
            visit_tasks-Goes env cancel n cancel-Goes (on_error_ids s.tasks) s.status
              (sort_tasks tasks) _ s
              (record {
                statuses_agree = refl;
                on_error_agree = refl;
                status_kept = refl;
                current = sort_tasks-AreCurrent s.tasks tasks (
                    tasks_to_process-AreCurrent instance s.tasks s.tasks
                      (AreCurrent-self s.tasks d));
                distinct = d;
                distinct_left =
                    sort_tasks-IsDistinct tasks (tasks_to_process-IsDistinct instance s.tasks d);
                bound = w;
              })
