-- ===== src/Conductor/Plans/CleanedUp.antt =====
-- What a task of an execution reserves, another one of its tasks frees, also after an error.
use coriolis.Prelude.{
  ℕ, ◌==◌, Bool, ◌&&◌, ◌||◌, true, false, all, any, select, elem, lookup, insert, update, List, [],
  ◌≡◌, refl,
}
use coriolis.Constants.{TaskType}
use coriolis.Action.{◌>>=◌}
use coriolis.Db.{Task, TaskInfo}
use coriolis.Conductor.Create.{create_task, initial_status, has_scheduled_dependency}
use coriolis.Conductor.Sanity.{
  gather, queue, round, check_queued, collect_fields, check_requirements, add_fields, check_rounds,
  check_instance,
}
use coriolis.Conductor.Plans.{
  call_create, execute_replica_tasks, os_morphing_tasks, deploy_replica_instances,
  delete_replica_disks, update_replica,
}
use coriolis.Conductor.Plans.Migration.{sync_tasks, migrate_instances}
use coriolis.Conductor.Plans.Options.{every, IsAllowed, replica_plans, migration_plans, by_options}
use coriolis.Conductor.Plans.Info.{ExecutionKind, create_tasks, prepare_info}
use coriolis.Tasks.{get_task_runner_class}

-- What there is to free, by number: the temporary resources at the source, at the target and for
-- the OSMorphing, volumes attached to a machine, a machine of a pool, the new instance, and the disks
-- of a migration; 0 is nothing. The disks and snapshots of replicas are kept or restored.
abbrev pub reserves : TaskType → ℕ
reserves TaskType.deploy_replica_source_resources = 1
reserves TaskType.deploy_migration_source_resources = 1
reserves TaskType.deploy_replica_target_resources = 2
reserves TaskType.deploy_migration_target_resources = 2
reserves TaskType.deploy_os_morphing_resources = 3
reserves TaskType.attach_volumes_to_destination_minion = 4
reserves TaskType.attach_volumes_to_osmorphing_minion = 5
reserves TaskType.validate_source_minion_pool_compatibility = 6
reserves TaskType.validate_destination_minion_pool_compatibility = 7
reserves TaskType.validate_osmorphing_minion_pool_compatibility = 8
reserves TaskType.deploy_instance_resources = 9
reserves TaskType.deploy_replica_instance_resources = 9
reserves TaskType.create_instance_disks = 10
reserves _ = 0

abbrev pub frees : TaskType → ℕ
frees TaskType.delete_replica_source_resources = 1
frees TaskType.delete_migration_source_resources = 1
frees TaskType.delete_replica_target_resources = 2
frees TaskType.delete_migration_target_resources = 2
frees TaskType.delete_os_morphing_resources = 3
frees TaskType.detach_volumes_from_destination_minion = 4
frees TaskType.detach_volumes_from_osmorphing_minion = 5
frees TaskType.release_source_minion = 6
frees TaskType.release_destination_minion = 7
frees TaskType.release_osmorphing_minion = 8
frees TaskType.cleanup_failed_instance_deployment = 9
frees TaskType.cleanup_failed_replica_instance_deployment = 9
frees TaskType.cleanup_instance_target_storage = 10
frees _ = 0

-- A task frees what another reserves: it is one that runs after errors, and depends on that task.
abbrev pub is_freed_by : Task → Task → Bool
is_freed_by t u = reserves t.task_type == frees u.task_type && u.on_error && elem t.id u.depends_on

abbrev pub is_freed : List Task → Task → Bool
is_freed tasks t = reserves t.task_type == 0 || any (is_freed_by t) tasks

module _ (i : ℕ) where
  abbrev is_clean : ExecutionKind → Bool
  is_clean e = let tasks = (create_tasks i e []).1 in all (is_freed tasks) tasks

  is_clean-replicas : replica_plans is_clean ≡ true
  unfolding check_instance create_tasks prepare_info create_task initial_status
      has_scheduled_dependency gather queue round check_queued collect_fields check_requirements
      add_fields check_rounds call_create execute_replica_tasks os_morphing_tasks
      deploy_replica_instances sync_tasks migrate_instances delete_replica_disks update_replica
      get_task_runner_class all any select elem lookup insert update ◌>>=◌ every
  is_clean-replicas = refl

  is_clean-both_pools : migration_plans is_clean true true ≡ true
  unfolding check_instance create_tasks prepare_info create_task initial_status
      has_scheduled_dependency gather queue round check_queued collect_fields check_requirements
      add_fields check_rounds call_create execute_replica_tasks os_morphing_tasks
      deploy_replica_instances sync_tasks migrate_instances delete_replica_disks update_replica
      get_task_runner_class all any select elem lookup insert update ◌>>=◌ every
  is_clean-both_pools = refl

  is_clean-origin_pool : migration_plans is_clean true false ≡ true
  unfolding check_instance create_tasks prepare_info create_task initial_status
      has_scheduled_dependency gather queue round check_queued collect_fields check_requirements
      add_fields check_rounds call_create execute_replica_tasks os_morphing_tasks
      deploy_replica_instances sync_tasks migrate_instances delete_replica_disks update_replica
      get_task_runner_class all any select elem lookup insert update ◌>>=◌ every
  is_clean-origin_pool = refl

  is_clean-destination_pool : migration_plans is_clean false true ≡ true
  unfolding check_instance create_tasks prepare_info create_task initial_status
      has_scheduled_dependency gather queue round check_queued collect_fields check_requirements
      add_fields check_rounds call_create execute_replica_tasks os_morphing_tasks
      deploy_replica_instances sync_tasks migrate_instances delete_replica_disks update_replica
      get_task_runner_class all any select elem lookup insert update ◌>>=◌ every
  is_clean-destination_pool = refl

  is_clean-no_pool : migration_plans is_clean false false ≡ true
  unfolding check_instance create_tasks prepare_info create_task initial_status
      has_scheduled_dependency gather queue round check_queued collect_fields check_requirements
      add_fields check_rounds call_create execute_replica_tasks os_morphing_tasks
      deploy_replica_instances sync_tasks migrate_instances delete_replica_disks update_replica
      get_task_runner_class all any select elem lookup insert update ◌>>=◌ every
  is_clean-no_pool = refl

  is_clean-migrations : (o d : Bool) → migration_plans is_clean o d ≡ true
  is_clean-migrations true true = is_clean-both_pools
  is_clean-migrations true false = is_clean-origin_pool
  is_clean-migrations false true = is_clean-destination_pool
  is_clean-migrations false false = is_clean-no_pool

  is_clean-update : (updated : TaskInfo) → is_clean (ExecutionKind.replica_update updated) ≡ true
  unfolding check_instance create_tasks prepare_info create_task initial_status
      has_scheduled_dependency gather queue round check_queued collect_fields check_requirements
      add_fields check_rounds call_create execute_replica_tasks os_morphing_tasks
      deploy_replica_instances sync_tasks migrate_instances delete_replica_disks update_replica
      get_task_runner_class all any select elem lookup insert update ◌>>=◌ every
  is_clean-update updated = refl

  -- Among the tasks of an execution for an instance, with options as the API accepts them, there is for
  -- each that reserves resources, a machine, volumes, disks or the new instance one that frees these
  -- same things, depends on it, and also runs after errors.
  pub create_tasks-freed :
      (e : ExecutionKind)
      → IsAllowed e
      → all (is_freed (create_tasks i e []).1) (create_tasks i e []).1 ≡ true
  create_tasks-freed = by_options is_clean is_clean-replicas is_clean-migrations is_clean-update
