-- ===== src/Tasks/Migration.antt =====
-- tasks/migration_tasks.py: what the classes require of the task info and return.
use coriolis.Prelude.{[], ◌∷◌}
use coriolis.Conductor.Sanity.{Runner}
use coriolis.Tasks.Fields.{export_info, instance_deployment_info, target_environment}
use coriolis.Tasks.Replica.{
  cleanup_failed_replica_instance_deployment_task, delete_replica_disks_task,
  delete_replica_source_disk_snapshots_task, delete_replica_source_resources_task,
  delete_replica_target_resources_task, deploy_replica_disks_task,
  deploy_replica_instance_resources_task, deploy_replica_source_resources_task,
  deploy_replica_target_resources_task, finalize_replica_instance_deployment_task,
  validate_replica_execution_destination_inputs_task, validate_replica_execution_source_inputs_task,
}

abbrev pub get_optimal_flavor_task : Runner
get_optimal_flavor_task = record {
  required = export_info ∷ target_environment ∷ [];
  returned = instance_deployment_info ∷ [];
}

abbrev pub deploy_migration_source_resources_task : Runner
deploy_migration_source_resources_task = deploy_replica_source_resources_task

abbrev pub deploy_migration_target_resources_task : Runner
deploy_migration_target_resources_task = deploy_replica_target_resources_task

abbrev pub create_instance_disks_task : Runner
create_instance_disks_task = deploy_replica_disks_task

abbrev pub cleanup_instance_target_storage_task : Runner
cleanup_instance_target_storage_task = delete_replica_disks_task

abbrev pub cleanup_instance_source_storage_task : Runner
cleanup_instance_source_storage_task = delete_replica_source_disk_snapshots_task

abbrev pub finalize_instance_deployment_task : Runner
finalize_instance_deployment_task = finalize_replica_instance_deployment_task

abbrev pub cleanup_failed_instance_deployment_task : Runner
cleanup_failed_instance_deployment_task = cleanup_failed_replica_instance_deployment_task

abbrev pub validate_migration_source_inputs_task : Runner
validate_migration_source_inputs_task = validate_replica_execution_source_inputs_task

abbrev pub validate_migration_destination_inputs_task : Runner
validate_migration_destination_inputs_task = validate_replica_execution_destination_inputs_task

abbrev pub delete_migration_source_resources_task : Runner
delete_migration_source_resources_task = delete_replica_source_resources_task

abbrev pub delete_migration_target_resources_task : Runner
delete_migration_target_resources_task = delete_replica_target_resources_task

abbrev pub deploy_instance_resources_task : Runner
deploy_instance_resources_task = deploy_replica_instance_resources_task
