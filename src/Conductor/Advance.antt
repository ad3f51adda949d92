-- ===== src/Conductor/Advance.antt =====
-- conductor/rpc/server.py: `_advance_execution_state`. The cancellation to which a failed start
-- leads is an argument here; Conductor/Cancel.antt ties the recursion.
use coriolis.Prelude.{
  lookup, insert, ℕ, suc, ◌==◌, leb, false, not, ◌&&◌, if◌then◌else◌, all, any, select, elem,
  is_empty, List, [], ◌∷◌, ◌++◌, Option, none, some,
}
use coriolis.Constants.{
  TaskStatus, ExecutionStatus, is_active_execution, is_finalized_task, is_scheduled, is_completed,
  is_unscheduled, same_execution_status,
}
use coriolis.Action.{
  Action, Error, ok, pure, raise, gets, or_raise, modify, require, ◌>>=◌, ◌>>◌, not_found,
  key_error, no_worker_service, rpc_error, invalid_action_tasks_execution_state,
}
use coriolis.Db.{Store, Task, Statuses, statuses_of, set_task_status, emit, Effect}
use coriolis.Conductor.Env.{Env, Start, no_worker, cast_failed, accepted}
use coriolis.Conductor.Status.{
  get_execution_status, set_tasks_execution_status, check_clean_execution_deadlock,
}

-- `sorted(tasks, key=lambda t: t.index)`, which is stable.
abbrev pub insert_task : Task → List Task → List Task
insert_task t [] = t ∷ []
insert_task t (u ∷ us) = if leb t.index u.index then t ∷ u ∷ us else u ∷ insert_task t us

unfoldable pub sort_tasks : List Task → List Task
sort_tasks [] = []
sort_tasks (t ∷ ts) = insert_task t (sort_tasks ts)

-- The `instance` argument: None and the empty text select every task.
unfoldable pub tasks_to_process : Option ℕ → List Task → List Task
tasks_to_process none tasks = tasks
tasks_to_process (some i) tasks = if i == 0 then tasks else select (λ t. t.instance_id == i) tasks

abbrev pub on_error_ids : List Task → List ℕ
on_error_ids [] = []
on_error_ids (t ∷ ts) = let rest = on_error_ids ts in if t.on_error then t.id ∷ rest else rest

-- `{dep_id: task_statuses[dep_id] for dep_id in task_deps[task.id]}`, none for a KeyError.
unfoldable pub parent_statuses : Statuses → List ℕ → Option Statuses
parent_statuses statuses [] = some []
parent_statuses statuses (d ∷ deps) = elim (lookup d statuses) [
  | none ↦ none
  | some st ↦ elim (parent_statuses statuses deps) [
    | none ↦ none
    | some rest ↦ some ((d, st) ∷ rest)
  ]
]

pub data Decision : Type 0 where
  start unschedule wait : Decision

-- What becomes of a scheduled task with the given parents.
unfoldable pub decide_from_parents : List ℕ → ℕ → Statuses → Decision
decide_from_parents on_error task_id parents =
    if all (λ p. is_unscheduled p.1) parents
    then unschedule
    else if not (all (λ p. is_finalized_task p.1) parents)
    then wait
    else if not (elem task_id on_error)
    then (if all (λ p. is_completed p.1) parents then start else unschedule)
    else (let non_error_parents = select (λ p. not (elem p.0 on_error)) parents in
        if is_empty non_error_parents && any (λ p. is_completed p.1) parents
        then start
        else if any (λ p. is_completed p.1) non_error_parents
        then start
        else unschedule)

unfoldable pub decide : List ℕ → Statuses → ℕ → List ℕ → Option Decision
decide on_error statuses task_id [] = some start
decide on_error statuses task_id (d ∷ deps) = elim (parent_statuses statuses (d ∷ deps)) [
  | none ↦ none
  | some parents ↦ some (decide_from_parents on_error task_id parents)
]

-- The number of the request that is sent next.
unfoldable pub next_call : Action Store ℕ
next_call = do n ← gets (λ s. s.calls); modify (λ s. record s { calls = suc s.calls }); pure n

-- The local variables of the loop: `task_statuses` and `started_tasks`.
abbrev pub Locals : Type 0
Locals = Statuses × List ℕ

module _ (env : Env) where
  -- The end of the method: the status is written if it has changed.
  unfoldable pub refresh_status : ExecutionStatus → Action Store (Unit {0})
  refresh_status previous s =
      let latest = get_execution_status (statuses_of s.tasks) in
      if same_execution_status latest previous
      then (ok tt, s)
      else (ok tt, set_tasks_execution_status env previous latest s)

  unfoldable pub finish_advance : ExecutionStatus → Locals → Action Store (List ℕ)
  finish_advance previous (statuses, started) = do
    deadlocked ←
        (if is_empty started
          then check_clean_execution_deadlock env (some statuses)
          else pure false)
    (if deadlocked then pure [] else (refresh_status previous >> pure started))

module _ (env : Env) (cancel : Action Store (Unit {0})) where
  -- The `except` clause of `_start_task`: the execution is cancelled, and the exception goes on.
  abbrev pub cancel_and_raise : Error → Action Store TaskStatus
  cancel_and_raise e = cancel >> raise e

  -- What follows the request, `_get_worker_service_rpc_for_task` included.
  unfoldable pub finish_start : ℕ → Start → Action Store TaskStatus
  finish_start task_id no_worker = do
    set_task_status task_id TaskStatus.failed_to_schedule
    cancel_and_raise no_worker_service
  finish_start task_id cast_failed = cancel_and_raise rpc_error
  finish_start task_id accepted = do
    modify (emit (Effect.begin_task task_id))
    pure TaskStatus.pending

  unfoldable pub start_task : ℕ → Action Store TaskStatus
  start_task task_id = do
    set_task_status task_id TaskStatus.pending
    n ← next_call
    finish_start task_id (env.start n task_id)

  unfoldable pub carry_out : Task → Locals → Decision → Action Store Locals
  carry_out t (statuses, started) Decision.start = do
    st ← start_task t.id
    pure (insert t.id st statuses, started ++ t.id ∷ [])
  carry_out t (statuses, started) unschedule = do
    set_task_status t.id TaskStatus.unscheduled
    pure (insert t.id TaskStatus.unscheduled statuses, started)
  carry_out t locals wait = pure locals

  unfoldable pub consider : List ℕ → Task → Locals → TaskStatus → Action Store Locals
  consider on_error t (statuses, started) st =
      if is_scheduled st
      then (or_raise (decide on_error statuses t.id t.depends_on) key_error
          >>= carry_out t (statuses, started))
      else pure (statuses, started)

  -- The body of the `for` loop.
  unfoldable pub visit_task : List ℕ → Task → Locals → Action Store Locals
  visit_task on_error t (statuses, started) = do
    st ← or_raise (lookup t.id statuses) key_error
    consider on_error t (statuses, started) st

  unfoldable pub visit_tasks : List ℕ → List Task → Locals → Action Store Locals
  visit_tasks on_error [] locals = pure locals
  visit_tasks on_error (t ∷ ts) locals = do
    locals' ← visit_task on_error t locals
    visit_tasks on_error ts locals'

  -- `_advance_execution_state`, for a copy of the execution that is up to date.
  unfoldable pub advance_execution_state : Option ℕ → Action Store (List ℕ)
  advance_execution_state instance s =
      let tasks = tasks_to_process instance s.tasks in
      if not (is_active_execution s.status)
      then (check_clean_execution_deadlock env none >> pure []) s
      else (do
        require (not (is_empty tasks)) invalid_action_tasks_execution_state
        require env.endpoints_found not_found
        locals ← visit_tasks (on_error_ids s.tasks) (sort_tasks tasks) (statuses_of s.tasks, [])
        finish_advance env s.status locals)
          s
