-- ===== src/Conductor/Plans/Samples.antt =====
-- The tasks of a migration and of a deployment, and the theorems on them applied.
use coriolis.Prelude.{
  ℕ, ◌+◌, ◌*◌, ◌==◌, if◌then◌else◌, arith, All, Dict, List, lookup, all, elem, [], ◌∷◌, ◌≡◌, refl,
  true, false,
}
use coriolis.Action.{ok}
use coriolis.Db.{TaskInfo}
use coriolis.Conductor.PostTask.{volumes_info}
use coriolis.Conductor.Sanity.{check_execution_tasks_sanity}
use coriolis.Conductor.Plans.Info.{Given, ExecutionKind, create_tasks}
use coriolis.Conductor.Plans.Uuids.{create_all, prepare_all}
use coriolis.Conductor.Plans.Accepted.{create_all-checked}
use coriolis.Conductor.Plans.CleanedUp.{is_freed, create_tasks-freed}
use coriolis.Tasks.{get_task_runner_class}
use coriolis.Tasks.Fields.{export_info}

abbrev given : Given
given = record { source = 51; target = 52; scripts = 53; clone = 1 }

-- A replica that has been executed.
abbrev executed : TaskInfo
executed = (volumes_info, 61) ∷ (export_info, 62) ∷ []

abbrev clone_deploy : ExecutionKind
clone_deploy = ExecutionKind.replica_deploy true false true true

-- Two instances, of which the second has been replicated before.
abbrev uuid : ℕ → ℕ → ℕ
uuid i n = i * 100 + n

uuid-injective : (i a b : ℕ) → (uuid i a == uuid i b) ≡ (a == b)
uuid-injective i a b = ground arith

abbrev kind : ℕ → ExecutionKind
kind i = if i == 7 then clone_deploy else ExecutionKind.replica_execution true false true

abbrev infos : Dict TaskInfo
infos = (7, executed) ∷ []

abbrev instances : List ℕ
instances = 6 ∷ 7 ∷ []

create_all-checked_example :
    All (λ i. (create_tasks i (kind i) []).0 ≡ ok tt) instances
    × (check_execution_tasks_sanity get_task_runner_class instances
          (prepare_all kind (λ i. given) instances infos)
          (create_all uuid kind instances [])
        ≡ ok tt)
unfolding elem lookup
create_all-checked_example =
    create_all-checked uuid kind (λ i. given) instances infos (refl, (refl, tt)) uuid-injective
      (tt, (tt, tt)) (tt, ((refl, (refl, tt)), tt))

-- A migration with a machine of a pool for its destination, which is replicated twice.
abbrev two_syncs : ExecutionKind
two_syncs = ExecutionKind.migration false true false true false true 2

create_tasks-freed_example :
    all (is_freed (create_tasks 7 two_syncs []).1) (create_tasks 7 two_syncs []).1 ≡ true
unfolding elem
create_tasks-freed_example = create_tasks-freed 7 two_syncs refl
