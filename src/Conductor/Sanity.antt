-- ===== src/Conductor/Sanity.antt =====
-- conductor/rpc/server.py: `_check_execution_tasks_sanity`, which checks the tasks of an execution
-- before it begins. The names of task info fields are numbers.
pub mod Fields
pub mod Rounds
pub mod Stuck
pub mod Ends
pub mod Samples
use coriolis.Prelude.{
  length, ℕ, zero, suc, ◌==◌, Bool, true, false, not, ◌&&◌, ◌||◌, if◌then◌else◌, all, any, select,
  elem, is_empty, Dict, lookup, insert, List, [], ◌∷◌, ◌++◌, Option, none, some,
}
use coriolis.Constants.{TaskType, is_scheduled, is_on_error_only}
use coriolis.Action.{
  Result, ok, err, and_then, not_found, task_parameters, task_dependency, invalid_task_state,
  execution_deadlock, task_fields_conflict, out_of_fuel,
}
use coriolis.Db.{Task, TaskInfo, get_or_empty}

-- What a task runner class (coriolis/tasks/) says about the task info.
pub record Runner : Type 0 where
  pub required : List ℕ
  pub returned : List ℕ

-- `dep_id in tasks_to_process`
abbrev pub is_left : List Task → ℕ → Bool
is_left left d = any (λ u. u.id == d) left

-- Whether a task that is left is queued next.
unfoldable pub queue : List Task → List ℕ → Task → Result Bool
queue left processed t =
    if is_scheduled t.status || is_on_error_only t.status
    then (if is_empty t.depends_on
        then ok true
        else if any (λ d. not (is_left left d) && not (elem d processed)) t.depends_on
        then err task_dependency
        else ok (all (λ d. elem d processed) t.depends_on))
    else err invalid_task_state

-- The loop that gathers `queued_tasks`.
unfoldable pub gather : List Task → List ℕ → List Task → Result (List Task)
gather left processed [] = ok []
gather left processed (t ∷ ts) =
    and_then (queue left processed t)
      λ queued. and_then (gather left processed ts) λ rest. ok (if queued then t ∷ rest else rest)

-- `modified_fields_by_queued_tasks`, with the identifiers of the tasks.
abbrev pub Modified : Type 0
Modified = Dict (List ℕ)

abbrev pub ids_of : Option (List ℕ) → List ℕ
ids_of none = []
ids_of (some ids) = ids

unfoldable pub add_fields : ℕ → List ℕ → Modified → Modified
add_fields task_id [] m = m
add_fields task_id (f ∷ fields) m =
    add_fields task_id fields (insert f (ids_of (lookup f m) ++ task_id ∷ []) m)

-- `len(tasks) > 1`
abbrev pub is_shared : List ℕ → Bool
is_shared [] = false
is_shared (i ∷ []) = false
is_shared (i ∷ j ∷ ids) = true

abbrev pub names : Modified → List ℕ
names [] = []
names ((f, ids) ∷ m) = f ∷ names m

-- The tasks that were not queued: the others are popped by their identifiers.
abbrev pub remaining : List Task → List Task → List Task
remaining queued left = select (λ t. not (is_left queued t.id)) left

abbrev pub register : List Task → List ℕ → List ℕ
register [] processed = processed
register (t ∷ queued) processed = register queued (t.id ∷ processed)

abbrev pub info_keys : TaskInfo → List ℕ
info_keys [] = []
info_keys ((f, v) ∷ info) = f ∷ info_keys info

abbrev pub met : List ℕ → Option Runner → Result (List ℕ)
met keys none = err not_found
met keys (some r) = if all (λ p. elem p keys) r.required then ok r.returned else err task_parameters

module _ (runner : TaskType → Option Runner) where
  -- `_check_task_cls_param_requirements`
  unfoldable pub check_requirements : List ℕ → Task → Result (List ℕ)
  check_requirements keys t = met keys (runner t.task_type)

  unfoldable pub collect_fields : List ℕ → List Task → Modified → Result Modified
  collect_fields keys [] m = ok m
  collect_fields keys (t ∷ queued) m =
      and_then (check_requirements keys t)
        λ fields. collect_fields keys queued (add_fields t.id fields m)

  -- The checks on the tasks that are queued.
  unfoldable pub check_queued : List ℕ → List Task → Result Modified
  check_queued keys [] = err execution_deadlock
  check_queued keys (t ∷ queued) =
      and_then (collect_fields keys (t ∷ queued) [])
        λ m. if any (λ e. is_shared e.1) m then err task_fields_conflict else ok m

  -- One turn of the `while` loop: the tasks that it processes, and the fields that they return.
  unfoldable pub round : List ℕ → List ℕ → List Task → Result (List Task × Modified)
  round keys processed left =
      and_then (gather left processed left)
        λ queued. and_then (check_queued keys queued) λ m. ok (queued, m)

  -- The `while` loop for one instance.
  unfoldable pub check_rounds : ℕ → List ℕ → List ℕ → List Task → Result (Unit {0})
  check_rounds fuel keys processed [] = ok tt
  check_rounds zero keys processed (t ∷ left) = err out_of_fuel
  check_rounds (suc fuel) keys processed (t ∷ left) =
      and_then (round keys processed (t ∷ left)) λ r.
        check_rounds fuel (keys ++ names r.1) (register r.0 processed) (remaining r.0 (t ∷ left))

  -- With fuel for as many turns as there are tasks.
  unfoldable pub check_instance : TaskInfo → List Task → Result (Unit {0})
  check_instance info tasks = check_rounds (length tasks) (info_keys info) [] tasks

  -- The loop over the instances, each of which is in `instances`.
  unfoldable pub check_execution_tasks_sanity :
      List ℕ → Dict TaskInfo → List Task → Result (Unit {0})
  check_execution_tasks_sanity [] info tasks = ok tt
  check_execution_tasks_sanity (i ∷ instances) info tasks =
      and_then
        (check_instance (get_or_empty (lookup i info)) (select (λ t. t.instance_id == i) tasks))
        λ _. check_execution_tasks_sanity instances info tasks
