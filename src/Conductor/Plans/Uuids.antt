-- ===== src/Conductor/Plans/Uuids.antt =====
-- conductor/rpc/server.py: the tasks of an execution for all its instances, with the identifiers
-- that `uuid` gives.
use coriolis.Prelude.{ℕ, ◌+◌, length, map, lookup, insert, Dict, List, [], ◌∷◌, ◌++◌}
use coriolis.Db.{Task, TaskInfo, get_or_empty}
use coriolis.Conductor.Plans.Info.{Given, ExecutionKind, create_tasks, prepare_info}

-- A task of an instance in the execution: identifiers come from `uuid`, and tasks are counted
-- from those before.
abbrev pub with_uuids : (uuid : ℕ → ℕ) → (before : ℕ) → Task → Task
with_uuids uuid before t = record t {
  id = uuid t.id;
  depends_on = map uuid t.depends_on;
  index = before + t.index;
}

-- The loop over the instances, with the options of each.
module _ (uuid : (instance : ℕ) → ℕ → ℕ) (kind : ℕ → ExecutionKind) where
  -- The tasks of the execution.
  unfoldable pub create_all : List ℕ → List Task → List Task
  create_all [] tasks = tasks
  create_all (i ∷ instances) tasks =
      create_all instances
        (tasks ++ map (with_uuids (uuid i) (length tasks)) (create_tasks i (kind i) []).1)

-- The task info of the instances, with what is given for each.
module _ (kind : ℕ → ExecutionKind) where
  unfoldable pub prepare_all : (ℕ → Given) → List ℕ → Dict TaskInfo → Dict TaskInfo
  prepare_all given [] info = info
  prepare_all given (i ∷ instances) info =
      prepare_all given instances
        (insert i (prepare_info (given i) (kind i) (get_or_empty (lookup i info))) info)
