-- ===== src/Tasks.antt =====
-- coriolis/tasks: what the class of each task type requires of the task info and returns, and
-- `get_task_runner_class` of tasks/factory.py. What the tasks do is not modelled.
pub mod Fields
pub mod Replica
pub mod Migration
pub mod OsMorphing
pub mod MinionPool
use coriolis.Prelude.{Option, some}
use coriolis.Constants.{TaskType}
use coriolis.Conductor.PostTask.{destination, origin, osmorphing}
use coriolis.Conductor.Sanity.{Runner}
use coriolis.Tasks.Replica.{
  cleanup_failed_replica_instance_deployment_task, create_replica_disk_snapshots_task,
  delete_replica_disks_task, delete_replica_source_disk_snapshots_task,
  delete_replica_source_resources_task, delete_replica_target_disk_snapshots_task,
  delete_replica_target_resources_task, deploy_replica_disks_task,
  deploy_replica_instance_resources_task, deploy_replica_source_resources_task,
  deploy_replica_target_resources_task, finalize_replica_instance_deployment_task,
  get_instance_info_task, replicate_disks_task, restore_replica_disk_snapshots_task,
  shutdown_instance_task, update_destination_replica_task, update_source_replica_task,
  validate_replica_deployment_parameters_task, validate_replica_execution_destination_inputs_task,
  validate_replica_execution_source_inputs_task,
}
use coriolis.Tasks.Migration.{
  cleanup_failed_instance_deployment_task, cleanup_instance_source_storage_task,
  cleanup_instance_target_storage_task, create_instance_disks_task,
  delete_migration_source_resources_task, delete_migration_target_resources_task,
  deploy_instance_resources_task, deploy_migration_source_resources_task,
  deploy_migration_target_resources_task, finalize_instance_deployment_task,
  get_optimal_flavor_task, validate_migration_destination_inputs_task,
  validate_migration_source_inputs_task,
}
use coriolis.Tasks.OsMorphing.{
  delete_osmorphing_resources_task, deploy_osmorphing_resources_task, osmorphing_task,
}
use coriolis.Tasks.MinionPool.{
  attach_volumes_to_destination_minion_task, attach_volumes_to_osmorphing_minion_task,
  attach_volumes_to_source_minion_task, base_create_minion_machine_task,
  base_delete_minion_machine_task, base_healthcheck_minion_machine_task,
  base_power_cycle_minion_task, base_set_up_pool_supporting_resources_task,
  base_tear_down_pool_supporting_resources_task, base_validate_minion_pool_options_task,
  collect_osmorphing_info_task, release_minion_task, validate_minion_compatibility_task,
}

-- `get_task_runner_class` and the table `_TASKS_MAP`.
unfoldable pub get_task_runner_class : TaskType → Option Runner
get_task_runner_class TaskType.deploy_migration_source_resources =
    some deploy_migration_source_resources_task
get_task_runner_class TaskType.deploy_migration_target_resources =
    some deploy_migration_target_resources_task
get_task_runner_class TaskType.delete_migration_source_resources =
    some delete_migration_source_resources_task
get_task_runner_class TaskType.delete_migration_target_resources =
    some delete_migration_target_resources_task
get_task_runner_class TaskType.deploy_instance_resources = some deploy_instance_resources_task
get_task_runner_class TaskType.finalize_instance_deployment = some finalize_instance_deployment_task
get_task_runner_class TaskType.create_instance_disks = some create_instance_disks_task
get_task_runner_class TaskType.cleanup_failed_instance_deployment =
    some cleanup_failed_instance_deployment_task
get_task_runner_class TaskType.cleanup_instance_target_storage =
    some cleanup_instance_target_storage_task
get_task_runner_class TaskType.cleanup_instance_source_storage =
    some cleanup_instance_source_storage_task
get_task_runner_class TaskType.get_optimal_flavor = some get_optimal_flavor_task
get_task_runner_class TaskType.validate_migration_source_inputs =
    some validate_migration_source_inputs_task
get_task_runner_class TaskType.validate_migration_destination_inputs =
    some validate_migration_destination_inputs_task
get_task_runner_class TaskType.deploy_os_morphing_resources = some deploy_osmorphing_resources_task
get_task_runner_class TaskType.os_morphing = some osmorphing_task
get_task_runner_class TaskType.delete_os_morphing_resources = some delete_osmorphing_resources_task
get_task_runner_class TaskType.get_instance_info = some get_instance_info_task
get_task_runner_class TaskType.replicate_disks = some replicate_disks_task
get_task_runner_class TaskType.shutdown_instance = some shutdown_instance_task
get_task_runner_class TaskType.deploy_replica_disks = some deploy_replica_disks_task
get_task_runner_class TaskType.delete_replica_source_disk_snapshots =
    some delete_replica_source_disk_snapshots_task
get_task_runner_class TaskType.delete_replica_disks = some delete_replica_disks_task
get_task_runner_class TaskType.deploy_replica_target_resources =
    some deploy_replica_target_resources_task
get_task_runner_class TaskType.delete_replica_target_resources =
    some delete_replica_target_resources_task
get_task_runner_class TaskType.deploy_replica_source_resources =
    some deploy_replica_source_resources_task
get_task_runner_class TaskType.delete_replica_source_resources =
    some delete_replica_source_resources_task
get_task_runner_class TaskType.deploy_replica_instance_resources =
    some deploy_replica_instance_resources_task
get_task_runner_class TaskType.finalize_replica_instance_deployment =
    some finalize_replica_instance_deployment_task
get_task_runner_class TaskType.cleanup_failed_replica_instance_deployment =
    some cleanup_failed_replica_instance_deployment_task
get_task_runner_class TaskType.create_replica_disk_snapshots =
    some create_replica_disk_snapshots_task
get_task_runner_class TaskType.delete_replica_target_disk_snapshots =
    some delete_replica_target_disk_snapshots_task
get_task_runner_class TaskType.restore_replica_disk_snapshots =
    some restore_replica_disk_snapshots_task
get_task_runner_class TaskType.validate_replica_source_inputs =
    some validate_replica_execution_source_inputs_task
get_task_runner_class TaskType.validate_replica_destination_inputs =
    some validate_replica_execution_destination_inputs_task
get_task_runner_class TaskType.validate_replica_deployment_inputs =
    some validate_replica_deployment_parameters_task
get_task_runner_class TaskType.update_source_replica = some update_source_replica_task
get_task_runner_class TaskType.update_destination_replica = some update_destination_replica_task
get_task_runner_class TaskType.validate_source_minion_pool_options =
    some base_validate_minion_pool_options_task
get_task_runner_class TaskType.validate_destination_minion_pool_options =
    some base_validate_minion_pool_options_task
get_task_runner_class TaskType.create_source_minion_machine = some base_create_minion_machine_task
get_task_runner_class TaskType.create_destination_minion_machine =
    some base_create_minion_machine_task
get_task_runner_class TaskType.delete_source_minion_machine = some base_delete_minion_machine_task
get_task_runner_class TaskType.delete_destination_minion_machine =
    some base_delete_minion_machine_task
get_task_runner_class TaskType.set_up_source_pool_shared_resources =
    some base_set_up_pool_supporting_resources_task
get_task_runner_class TaskType.set_up_destination_pool_shared_resources =
    some base_set_up_pool_supporting_resources_task
get_task_runner_class TaskType.tear_down_source_pool_shared_resources =
    some base_tear_down_pool_supporting_resources_task
get_task_runner_class TaskType.tear_down_destination_pool_shared_resources =
    some base_tear_down_pool_supporting_resources_task
get_task_runner_class TaskType.attach_volumes_to_source_minion =
    some attach_volumes_to_source_minion_task
get_task_runner_class TaskType.detach_volumes_from_source_minion =
    some attach_volumes_to_source_minion_task
get_task_runner_class TaskType.attach_volumes_to_destination_minion =
    some attach_volumes_to_destination_minion_task
get_task_runner_class TaskType.detach_volumes_from_destination_minion =
    some attach_volumes_to_destination_minion_task
get_task_runner_class TaskType.attach_volumes_to_osmorphing_minion =
    some attach_volumes_to_osmorphing_minion_task
get_task_runner_class TaskType.detach_volumes_from_osmorphing_minion =
    some attach_volumes_to_osmorphing_minion_task
get_task_runner_class TaskType.validate_source_minion_pool_compatibility =
    some (validate_minion_compatibility_task origin)
get_task_runner_class TaskType.validate_destination_minion_pool_compatibility =
    some (validate_minion_compatibility_task destination)
get_task_runner_class TaskType.validate_osmorphing_minion_pool_compatibility =
    some (validate_minion_compatibility_task osmorphing)
get_task_runner_class TaskType.release_source_minion = some (release_minion_task origin)
get_task_runner_class TaskType.release_destination_minion = some (release_minion_task destination)
get_task_runner_class TaskType.release_osmorphing_minion = some (release_minion_task osmorphing)
get_task_runner_class TaskType.collect_osmorphing_info = some collect_osmorphing_info_task
get_task_runner_class TaskType.healthcheck_source_minion = some base_healthcheck_minion_machine_task
get_task_runner_class TaskType.healthcheck_destination_minion =
    some base_healthcheck_minion_machine_task
get_task_runner_class TaskType.power_on_source_minion = some base_power_cycle_minion_task
get_task_runner_class TaskType.power_off_source_minion = some base_power_cycle_minion_task
get_task_runner_class TaskType.power_on_destination_minion = some base_power_cycle_minion_task
get_task_runner_class TaskType.power_off_destination_minion = some base_power_cycle_minion_task
