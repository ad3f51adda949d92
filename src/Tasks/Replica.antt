-- ===== src/Tasks/Replica.antt =====
-- tasks/replica_tasks.py: what the classes require of the task info and return.
use coriolis.Prelude.{[], ◌∷◌}
use coriolis.Conductor.PostTask.{clone_disks, transfer_result, volumes_info}
use coriolis.Conductor.Sanity.{Runner}
use coriolis.Tasks.Fields.{
  export_info, instance_deployment_info, source_environment, source_resources,
  source_resources_connection_info, target_environment, target_resources,
  target_resources_connection_info,
}

abbrev pub get_instance_info_task : Runner
get_instance_info_task = record { required = source_environment ∷ []; returned = export_info ∷ [] }

abbrev pub shutdown_instance_task : Runner
shutdown_instance_task = record { required = source_environment ∷ []; returned = [] }

abbrev pub replicate_disks_task : Runner
replicate_disks_task = record {
  required =
      export_info ∷ volumes_info ∷ source_environment ∷ source_resources
      ∷ source_resources_connection_info ∷ target_resources_connection_info ∷ [];
  returned = volumes_info ∷ [];
}

abbrev pub deploy_replica_disks_task : Runner
deploy_replica_disks_task = record {
  required = export_info ∷ volumes_info ∷ target_environment ∷ [];
  returned = volumes_info ∷ [];
}

abbrev pub delete_replica_source_disk_snapshots_task : Runner
delete_replica_source_disk_snapshots_task = record {
  required = volumes_info ∷ source_environment ∷ [];
  returned = volumes_info ∷ [];
}

abbrev pub delete_replica_disks_task : Runner
delete_replica_disks_task = record {
  required = volumes_info ∷ target_environment ∷ [];
  returned = volumes_info ∷ [];
}

abbrev pub deploy_replica_source_resources_task : Runner
deploy_replica_source_resources_task = record {
  required = source_environment ∷ export_info ∷ [];
  returned = source_resources ∷ source_resources_connection_info ∷ [];
}

abbrev pub delete_replica_source_resources_task : Runner
delete_replica_source_resources_task = record {
  required = source_environment ∷ source_resources ∷ [];
  returned = source_resources ∷ source_resources_connection_info ∷ [];
}

abbrev pub deploy_replica_target_resources_task : Runner
deploy_replica_target_resources_task = record {
  required = export_info ∷ volumes_info ∷ target_environment ∷ [];
  returned = volumes_info ∷ target_resources ∷ target_resources_connection_info ∷ [];
}

abbrev pub delete_replica_target_resources_task : Runner
delete_replica_target_resources_task = record {
  required = target_resources ∷ target_environment ∷ [];
  returned = target_resources ∷ target_resources_connection_info ∷ [];
}

abbrev pub deploy_replica_instance_resources_task : Runner
deploy_replica_instance_resources_task = record {
  required = export_info ∷ target_environment ∷ clone_disks ∷ volumes_info ∷ [];
  returned = instance_deployment_info ∷ [];
}

abbrev pub finalize_replica_instance_deployment_task : Runner
finalize_replica_instance_deployment_task = record {
  required = target_environment ∷ instance_deployment_info ∷ [];
  returned = transfer_result ∷ [];
}

abbrev pub cleanup_failed_replica_instance_deployment_task : Runner
cleanup_failed_replica_instance_deployment_task = record {
  required = target_environment ∷ instance_deployment_info ∷ [];
  returned = instance_deployment_info ∷ [];
}

abbrev pub create_replica_disk_snapshots_task : Runner
create_replica_disk_snapshots_task = record {
  required = target_environment ∷ export_info ∷ volumes_info ∷ [];
  returned = volumes_info ∷ [];
}

abbrev pub delete_replica_target_disk_snapshots_task : Runner
delete_replica_target_disk_snapshots_task = record {
  required = target_environment ∷ export_info ∷ volumes_info ∷ [];
  returned = volumes_info ∷ [];
}

abbrev pub restore_replica_disk_snapshots_task : Runner
restore_replica_disk_snapshots_task = record {
  required = target_environment ∷ export_info ∷ volumes_info ∷ [];
  returned = volumes_info ∷ [];
}

abbrev pub validate_replica_execution_source_inputs_task : Runner
validate_replica_execution_source_inputs_task = record {
  required = source_environment ∷ [];
  returned = [];
}

abbrev pub validate_replica_execution_destination_inputs_task : Runner
validate_replica_execution_destination_inputs_task = record {
  required = export_info ∷ target_environment ∷ [];
  returned = [];
}

abbrev pub validate_replica_deployment_parameters_task : Runner
validate_replica_deployment_parameters_task = record {
  required = export_info ∷ target_environment ∷ [];
  returned = [];
}

abbrev pub update_source_replica_task : Runner
update_source_replica_task = record {
  required = volumes_info ∷ source_environment ∷ [];
  returned = volumes_info ∷ source_environment ∷ [];
}

abbrev pub update_destination_replica_task : Runner
update_destination_replica_task = record {
  required = export_info ∷ volumes_info ∷ target_environment ∷ [];
  returned = volumes_info ∷ target_environment ∷ [];
}
