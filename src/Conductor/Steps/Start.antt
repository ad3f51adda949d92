-- ===== src/Conductor/Steps/Start.antt =====
-- Starting a task, as steps.
use coriolis.Prelude.{ℕ, suc, ◌≤◌, ◌<◌, true, some, ◌≡◌, refl, ◌∙◌, arith, ==_refl}
use coriolis.Constants.{TaskStatus, is_scheduled}
use coriolis.Action.{Action, ok, ◌>>=◌, no_worker_service, rpc_error}
use coriolis.Db.{set_task_status, Store, Task, find_task, with_status, set_status, emit, Effect}
use coriolis.Db.Tasks.{IsDistinct, find-change, set_task_status-found}
use coriolis.Conductor.Env.{Env, Start, no_worker, cast_failed, accepted}
use coriolis.Conductor.Advance.{next_call, finish_start, start_task}
use coriolis.Conductor.Cancel.{waiting, start_weight}
use coriolis.Conductor.Steps.{Move, Step, IsReady, change, aside, here, next, Reach-Step}
use coriolis.Conductor.Steps.Goes.{Goes, Goes-ok, Goes-err, Goes-trans, bind-Goes, set-then-Goes}
use coriolis.Action.Laws.{modify-then, bind-ok, then-raise}
use coriolis.Conductor.Steps.Keeps.{Step-IsDistinct, Step-waiting-le, waiting-change-lt}

abbrev pub called : Store → Store
called s = record s { calls = suc s.calls }

pub called-Step : (s : Store) → Step s (called s)
called-Step s = aside (record { tasks_kept = refl; info_kept = refl; finalized_kept = λ h. h })

pub emit-Step : (e : Effect) (s : Store) → Step s (emit e s)
emit-Step e s = aside (record { tasks_kept = refl; info_kept = refl; finalized_kept = λ h. h })

pub scheduled-eq : (st : TaskStatus) → is_scheduled st ≡ true → st ≡ TaskStatus.scheduled
scheduled-eq st h = ground arith

pub set_status-same :
    (t : Task) (st : TaskStatus) (s : Store)
    → find_task t.id s.tasks ≡ some t
    → find_task t.id (set_status t.id st s).tasks ≡ some (with_status st t)
unfolding set_status
set_status-same t st s e = rw (find-change t.id t.id st s.tasks e, ==_refl t.id)

pub waiting-start :
    (t : Task) (s : Store) {n : ℕ}
    → t.status ≡ TaskStatus.scheduled
    → find_task t.id s.tasks ≡ some t
    → waiting s.tasks ≤ n
    → waiting (set_status t.id TaskStatus.pending s).tasks < n
unfolding set_status start_weight
waiting-start t s p e h =
    omega (arith, waiting-change-lt t.id TaskStatus.pending s.tasks e (rw p (omega arith)))

module _ (env : Env) (cancel : Action Store (Unit {0})) where
  -- The request that a start sends, after the task is marked.
  pub start_task-eq :
      (t : Task) (s : Store)
      → find_task t.id s.tasks ≡ some t
      → start_task env cancel t.id s
        ≡ finish_start env cancel t.id
            (env.start s.calls t.id)
            (called (set_status t.id TaskStatus.pending s))
  unfolding start_task next_call set_status ◌>>=◌
  start_task-eq t s e = rw (set_task_status-found t.id TaskStatus.pending s e)

  module _ (n : ℕ)
      (cancel-Goes : (u : Store)
        → IsDistinct u.tasks
        → waiting u.tasks < n
        → Goes u (cancel u)) where
    finish_start-Goes :
        (t : Task) (o : Start) (s : Store)
        → t.status ≡ TaskStatus.pending
        → find_task t.id s.tasks ≡ some t
        → IsDistinct s.tasks
        → waiting s.tasks < n
        → Goes s (finish_start env cancel t.id o s)
    unfolding finish_start
    finish_start-Goes t no_worker s p e d h =
        let failed : Step s (set_status t.id TaskStatus.failed_to_schedule s) =
          change t TaskStatus.failed_to_schedule e (Move.no_worker p) in
        set-then-Goes t TaskStatus.failed_to_schedule _ s e (Move.no_worker p) (
          bind-Goes cancel _ _
            (cancel-Goes _ (Step-IsDistinct failed d) (omega (arith, Step-waiting-le failed)))
            (λ _ _. Goes-err no_worker_service here (λ q. cc)))
    finish_start-Goes t cast_failed s p e d h =
        bind-Goes cancel _ s (cancel-Goes s d h) (λ _ _. Goes-err rpc_error here (λ q. cc))
    finish_start-Goes t accepted s p e d h =
        rw modify-then (Goes-ok _ (Reach-Step (emit-Step (Effect.begin_task t.id) s)))

    pub start_task-Goes :
        (t : Task) (s : Store)
        → t.status ≡ TaskStatus.scheduled
        → IsReady s t
        → find_task t.id s.tasks ≡ some t
        → IsDistinct s.tasks
        → waiting s.tasks ≤ n
        → Goes s (start_task env cancel t.id s)
    start_task-Goes t s p r e d h =
        let marked : Step s (set_status t.id TaskStatus.pending s) =
          change t TaskStatus.pending e (Move.start p r) in
        rw (start_task-eq t s e) (
          Goes-trans _ (next (next here marked) (called-Step _)) (
            finish_start-Goes (with_status TaskStatus.pending t) (env.start s.calls t.id) _ refl
              (set_status-same t TaskStatus.pending s e) (Step-IsDistinct marked d)
              (waiting-start t s p e h)))

  -- A start that returns has sent the task to a worker.
  finish_start-ok :
      (i : ℕ) (o : Start) (s : Store) {a : TaskStatus}
      → (finish_start env cancel i o s).0 ≡ ok a
      → finish_start env cancel i o s ≡ (ok TaskStatus.pending, emit (Effect.begin_task i) s)
  unfolding finish_start
  finish_start-ok i no_worker s h =
      let (_, _, q) = bind-ok (set_task_status i TaskStatus.failed_to_schedule) _ s h in
      absurd (then-raise cancel no_worker_service _ q)
  finish_start-ok i cast_failed s h = absurd (then-raise cancel rpc_error s h)
  finish_start-ok i accepted s h = modify-then _ _ s

  pub start_task-ok :
      (t : Task) (s : Store) {a : TaskStatus}
      → find_task t.id s.tasks ≡ some t
      → (start_task env cancel t.id s).0 ≡ ok a
      → start_task env cancel t.id s ≡ (
        ok TaskStatus.pending,
        emit (Effect.begin_task t.id) (called (set_status t.id TaskStatus.pending s)),
      )
  start_task-ok t s {a} e h =
      let eq = start_task-eq t s e in
      eq ∙ finish_start-ok t.id (env.start s.calls t.id) _ {a = a} (rw eq at h)
