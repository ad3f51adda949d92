-- ===== src/Conductor/Plans/Info.antt =====
-- conductor/rpc/server.py: the task info of an instance when the tasks of an execution are created,
-- and the kinds of execution.
use coriolis.Prelude.{ℕ, Bool, not, ◌&&◌, if◌then◌else◌, lookup, insert, update, List, [], ◌∷◌}
use coriolis.Action.{Action}
use coriolis.Db.{Task, TaskInfo}
use coriolis.Conductor.PostTask.{
  Side, origin, destination, osmorphing, volumes_info, clone_disks, minion_machine_id,
  minion_provider_properties, value_or_empty,
}
use coriolis.Conductor.Plans.{
  execute_replica_tasks, deploy_replica_instances, delete_replica_disks, update_replica,
}
use coriolis.Conductor.Plans.Migration.{migrate_instances}
use coriolis.Tasks.Fields.{
  source_environment, target_environment, export_info, user_scripts, minion_connection_info,
  destination_minion_backup_writer_connection_info,
}

-- The fields of a machine, which are None until the machine is allocated.
abbrev pub minion_fields : Side → TaskInfo
minion_fields destination =
    (minion_machine_id destination, 0)
    ∷ (minion_provider_properties destination, 0)
    ∷ (minion_connection_info destination, 0)
    ∷ (destination_minion_backup_writer_connection_info, 0)
    ∷ []
minion_fields side =
    (minion_machine_id side, 0)
    ∷ (minion_provider_properties side, 0)
    ∷ (minion_connection_info side, 0)
    ∷ []

abbrev pub with_minion_fields : Bool → Side → TaskInfo → TaskInfo
with_minion_fields uses_pool side info =
    if uses_pool then update info (minion_fields side) else info

-- What the request and the action give for the task info.
pub record Given : Type 0 where
  pub source : ℕ
  pub target : ℕ
  pub scripts : ℕ
  pub clone : ℕ

abbrev pub environments : Given → TaskInfo
environments g = (source_environment, g.source) ∷ (target_environment, g.target) ∷ []

-- A kind of execution, with its options for the instance.
pub data ExecutionKind : Type 0 where
  replica_execution : (origin_pool destination_pool shutdown_instances : Bool) → ExecutionKind
  replica_deploy : (clones skip_os_morphing osmorphing_pool instance_flavor : Bool) → ExecutionKind
  migration :
      (origin_pool destination_pool osmorphing_pool : Bool)
      → (shutdown_instances skip_os_morphing instance_flavor : Bool) → (replication_count : ℕ)
      → ExecutionKind
  replica_disks_delete : ExecutionKind
  replica_update : (updated : TaskInfo) → ExecutionKind

unfoldable pub create_tasks : ℕ → ExecutionKind → Action (List Task) (Unit {0})
create_tasks i (replica_execution o d s) = execute_replica_tasks i o d s
create_tasks i (replica_deploy c k p f) = deploy_replica_instances i c k p f
create_tasks i (migration o d p s k f n) = migrate_instances i o d p s k f n
create_tasks i replica_disks_delete = delete_replica_disks i
create_tasks i (replica_update updated) = update_replica i

-- The task info for the new tasks, from the one that the action had for the instance.
unfoldable pub prepare_info : Given → ExecutionKind → TaskInfo → TaskInfo
prepare_info g (replica_execution o d s) info = with_minion_fields d destination (
    with_minion_fields o origin (
      update (insert volumes_info (value_or_empty (lookup volumes_info info)) info)
        (environments g)))
prepare_info g (replica_deploy c k p f) info =
    with_minion_fields (not k && p) osmorphing
      (update (insert user_scripts g.scripts (insert clone_disks g.clone info)) (environments g))
prepare_info g (migration o d p s k f n) info = with_minion_fields (not k && p) osmorphing (
    with_minion_fields d destination (
      with_minion_fields o origin (
        (volumes_info, 0)
        ∷ (source_environment, g.source)
        ∷ (target_environment, g.target)
        ∷ (user_scripts, g.scripts)
        ∷ (clone_disks, 0)
        ∷ [])))
prepare_info g replica_disks_delete info = insert target_environment g.target info
prepare_info g (replica_update updated) info = update info updated

-- The fields that earlier executions must have left in the task info.
abbrev pub needed : ExecutionKind → List ℕ
needed (replica_execution o d s) = []
needed (replica_deploy c k p f) = export_info ∷ volumes_info ∷ []
needed (migration o d p s k f n) = []
needed replica_disks_delete = volumes_info ∷ source_environment ∷ []
needed (replica_update updated) = volumes_info ∷ source_environment ∷ target_environment ∷ []
