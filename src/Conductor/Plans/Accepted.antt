-- ===== src/Conductor/Plans/Accepted.antt =====
-- The tasks of an execution for all its instances pass the check that is made before it begins.
use coriolis.Prelude.{
  ℕ, ◌==◌, ==_refl, true, select, elem, All, lookup, Dict, List, [], ◌∷◌, Option, ◌≡◌, refl, arith,
}
use coriolis.Constants.{TaskType}
use coriolis.Action.{Result, ok}
use coriolis.Db.{Task, TaskInfo, get_or_empty}
use coriolis.Conductor.Sanity.{Runner, check_instance, check_execution_tasks_sanity, info_keys}
use coriolis.Conductor.Plans.Info.{Given, ExecutionKind, create_tasks, prepare_info, needed}
use coriolis.Conductor.Plans.Uuids.{create_all, prepare_all}
use coriolis.Conductor.Plans.Instances.{
  of_instance, AreDistinct, All-elem, create_all-own, prepare_all-own,
}
use coriolis.Conductor.Plans.Options.{IsAllowed}
use coriolis.Conductor.Plans.Rename.{check_instance-renamed}
use coriolis.Conductor.Plans.Checked.{create_tasks-checked}
use coriolis.Tasks.{get_task_runner_class}

module _ (runner : TaskType → Option Runner) (info : Dict TaskInfo) (tasks : List Task) where
  abbrev check_one : ℕ → Result (Unit {0})
  check_one i = check_instance runner (get_or_empty (lookup i info)) (select (of_instance i) tasks)

  sanity-each :
      (is : List ℕ)
      → All (λ i. check_one i ≡ ok tt) is
      → check_execution_tasks_sanity runner is info tasks ≡ ok tt
  unfolding check_execution_tasks_sanity
  sanity-each [] h = refl
  sanity-each (i ∷ is) h = rw h.0 (sanity-each is h.1)

All-each : (P : ℕ → Type 0) (xs : List ℕ) → ((i : ℕ) → elem i xs ≡ true → P i) → All P xs
unfolding elem
All-each P [] h = tt
All-each P (x ∷ xs) h = (h x (rw (==_refl x) refl), All-each P xs (λ i e. h i (ground (arith, e))))

-- Whether the task info has the fields that the tasks of an execution need.
abbrev pub IsReady : ExecutionKind → TaskInfo → Type 0
IsReady e info = All (λ f. elem f (info_keys info) ≡ true) (needed e)

-- The tasks of an execution can be created for each instance, and pass the check that is made before
-- it begins, if identifiers of tasks are distinct, the replication count of a migration is in the
-- range that the API accepts, and the task info of each instance has the fields that earlier
-- executions leave: for all options of an execution, a deployment or an update of a replica, of the
-- deletion of its disks or of a migration, and any number of instances.
pub create_all-checked :
    (uuid : ℕ → ℕ → ℕ) (kind : ℕ → ExecutionKind) (given : ℕ → Given) (instances : List ℕ)
    (info : Dict TaskInfo)
    → AreDistinct instances
    → ((i a b : ℕ) → (uuid i a == uuid i b) ≡ (a == b))
    → All (λ i. IsAllowed (kind i)) instances
    → All (λ i. IsReady (kind i) (get_or_empty (lookup i info))) instances
    → All (λ i. (create_tasks i (kind i) []).0 ≡ ok tt) instances
      × (check_execution_tasks_sanity get_task_runner_class instances
            (prepare_all kind given instances info)
            (create_all uuid kind instances [])
          ≡ ok tt)
unfolding select
create_all-checked uuid kind given instances info d u a r =
    let infos = prepare_all kind given instances info in
    let tasks = create_all uuid kind instances [] in
    let one = λ (i : ℕ) (e : elem i instances ≡ true).
      create_tasks-checked (given i) i (kind i) (get_or_empty (lookup i info))
        (All-elem (λ j. IsAllowed (kind j)) instances i a e)
        (All-elem (λ j. IsReady (kind j) (get_or_empty (lookup j info))) instances i r e) in
    let checked : (i : ℕ)
        → elem i instances ≡ true
        → check_one get_task_runner_class infos tasks i ≡ ok tt =
      λ i e.
        let (k, own) = create_all-own uuid kind i instances [] d e refl in
        rw (own, prepare_all-own kind i given instances info d e)
          (check_instance-renamed (uuid i) (u i) k get_task_runner_class
            (prepare_info (given i) (kind i) (get_or_empty (lookup i info)))
            (create_tasks i (kind i) []).1 (one i e).1) in
    (
      All-each (λ i. (create_tasks i (kind i) []).0 ≡ ok tt) instances (λ i e. (one i e).0),
      sanity-each get_task_runner_class infos tasks instances
          (All-each (λ i. check_one get_task_runner_class infos tasks i ≡ ok tt) instances checked),
    )
