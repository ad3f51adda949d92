-- ===== src/Conductor/Steps/Begin.antt =====
-- `_begin_tasks`, as steps.
use mathlib.Core.Bool.{true≢false}
use coriolis.Prelude.{
  ℕ, suc, Bool-cases, true, false, ◌&&◌, is_empty, List, [], ◌∷◌, ◌++◌, some, ◌≡◌, refl, sym, ◌∙◌,
  arith, inl, inr,
}
use coriolis.Constants.{TaskStatus, ExecutionStatus, is_scheduled, is_finalized_execution}
use coriolis.Action.{ok, ◌>>=◌, not_found, invalid_action_tasks_execution_state}
use coriolis.Action.Laws.{bind-eq, bind-ok}
use coriolis.Db.{Store, Task, Statuses, Effect, emit, find_task, set_status}
use coriolis.Db.Tasks.{IsDistinct, IsDistinct-change}
use coriolis.Conductor.Env.{Env}
use coriolis.Conductor.Advance.{Decision, decide, start_task}
use coriolis.Conductor.Cancel.{waiting}
use coriolis.Conductor.Create.{cancel_started, begin_each, begin_tasks}
use coriolis.Conductor.Steps.{here}
use coriolis.Conductor.Steps.Cancel.{cancel_tasks_execution-Goes}
use coriolis.Conductor.Steps.Current.{AreCurrent, AreCurrent-self, AreCurrent-set}
use coriolis.Conductor.Steps.Deadlock.{set_tasks_execution_status-Reach}
use coriolis.Conductor.Steps.Goes.{Goes, Goes-ok, Goes-err, bind-Goes, require-Goes}
use coriolis.Conductor.Steps.Start.{called, start_task-Goes, start_task-ok}

no_deps-ready :
    (on_error : List ℕ) (statuses : Statuses) (i : ℕ) (deps : List ℕ)
    → is_empty deps ≡ true
    → decide on_error statuses i deps ≡ some Decision.start
unfolding decide
no_deps-ready on_error statuses i [] h = refl
no_deps-ready on_error statuses i (d ∷ deps) h = absurd (cc)

module _ (env : Env) where
  cancel_started-Goes : (s : Store) → IsDistinct s.tasks → Goes s (cancel_started env s)
  unfolding cancel_started
  cancel_started-Goes s d =
      cancel_tasks_execution-Goes env (suc (waiting s.tasks)) false s d (omega arith)

  first_started-Goes :
      (t : Task) (s : Store)
      → (is_empty t.depends_on && is_scheduled t.status) ≡ true
      → find_task t.id s.tasks ≡ some t
      → IsDistinct s.tasks
      → Goes s (start_task env (cancel_started env) t.id s)
  first_started-Goes t s q e d =
      start_task-Goes env (cancel_started env) (waiting s.tasks)
        (λ u du w. cancel_started-Goes u du) t s (ground arith)
        (no_deps-ready _ _ t.id t.depends_on (ground arith)) e d (omega arith)

  begin_each-Goes :
      (ts : List Task) (started : List ℕ) (s : Store)
      → AreCurrent s.tasks ts
      → IsDistinct ts
      → IsDistinct s.tasks
      → Goes s (begin_each env ts started s)
  unfolding begin_each set_status
  begin_each-Goes [] started s c d ds = Goes-ok started here
  begin_each-Goes (t ∷ ts) started s c d ds =
      elim (Bool-cases (is_empty t.depends_on && is_scheduled t.status)) [
        | inl q ↦ rw q (
            bind-Goes (start_task env (cancel_started env) t.id) _ s
              (first_started-Goes t s q c.0 ds)
              λ a h.
                let eq = start_task-ok env (cancel_started env) t s c.0 h in
                let pending = TaskStatus.pending in
                rw eq (
                  begin_each-Goes ts (started ++ t.id ∷ [])
                    (emit (Effect.begin_task t.id) (called (set_status t.id pending s)))
                    (AreCurrent-set t pending s ts d.0 c) d.1
                    (IsDistinct-change t.id pending s.tasks ds)))
        | inr q ↦ rw q (begin_each-Goes ts started s c.1 d.1 ds)
      ]

  -- Starts that return leave the status of the execution alone.
  begin_each-status :
      (ts : List Task) (started : List ℕ) (s : Store) {a : List ℕ}
      → AreCurrent s.tasks ts
      → IsDistinct ts
      → (begin_each env ts started s).0 ≡ ok a
      → (begin_each env ts started s).1.status ≡ s.status
  unfolding begin_each set_status
  begin_each-status [] started s c d h = refl
  begin_each-status (t ∷ ts) started s c d h =
      elim (Bool-cases (is_empty t.depends_on && is_scheduled t.status)) [
        | inl q ↦
            let m = start_task env (cancel_started env) t.id in
            let k = λ (_ : TaskStatus). begin_each env ts (started ++ t.id ∷ []) in
            let (b, hm, h') = bind-ok m k s (rw q at h) in
            let eq = start_task-ok env (cancel_started env) t s c.0 hm in
            let pending = TaskStatus.pending in
            rw (q, bind-eq m k s hm, eq)
              (begin_each-status ts (started ++ t.id ∷ [])
                (emit (Effect.begin_task t.id) (called (set_status t.id pending s)))
                (AreCurrent-set t pending s ts d.0 c) d.1 (rw eq at h'))
        | inr q ↦ rw q (begin_each-status ts started s c.1 d.1 (rw q at h))
      ]

  -- If the identifiers of the tasks are distinct and the execution is not over, beginning it makes
  -- only steps of the relation, whether it returns or raises, and the cancellation to which a
  -- failed start leads does not run out of fuel.
  pub begin_tasks-Goes :
      (s : Store)
      → IsDistinct s.tasks
      → is_finalized_execution s.status ≡ false
      → Goes s (begin_tasks env s)
  unfolding begin_tasks ◌>>=◌
  begin_tasks-Goes s d f =
      require-Goes env.endpoints_found not_found _ s (λ e. cc)
        λ _.
          let c = AreCurrent-self s.tasks d in
          let g = begin_each-Goes s.tasks [] s c d d in
          bind-Goes (begin_each env s.tasks []) _ s g λ started h.
            let u = (begin_each env s.tasks [] s).1 in
            let same = begin_each-status s.tasks [] s c d h in
            elim (Bool-cases (is_empty started)) [
              | inl q ↦ rw q (Goes-err invalid_action_tasks_execution_state here (λ e. cc))
              | inr q ↦ rw q (
                  Goes-ok tt (
                    set_tasks_execution_status-Reach env u.status ExecutionStatus.running u
                      (λ over. absurd (true≢false (sym over ∙ rw (same, f) refl)))))
            ]
