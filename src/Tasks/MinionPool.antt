-- ===== src/Tasks/MinionPool.antt =====
-- tasks/minion_pool_tasks.py: what the classes require of the task info and return.
use coriolis.Prelude.{ℕ, Dict, List, [], ◌∷◌, ◌++◌}
use coriolis.Conductor.PostTask.{
  Side, origin, destination, osmorphing, volumes_info, minion_provider_properties,
}
use coriolis.Conductor.Sanity.{Runner}
use coriolis.Tasks.Fields.{
  destination_minion_backup_writer_connection_info, export_info, instance_deployment_info,
  minion_connection_info, os_morphing_resources, osmorphing_connection_info, osmorphing_info,
  own_minion_backup_writer_connection_info, own_minion_connection_info,
  own_minion_provider_properties, pool_environment_options, pool_identifier, pool_os_type,
  pool_shared_resources, source_environment, source_resources, source_resources_connection_info,
  target_environment, target_resources, target_resources_connection_info,
}

-- `SOURCE_MINION_TASK_INFO_FIELD_MAPPINGS` and so on: a field of the machine, and the field that
-- tasks read it from.
abbrev pub minion_task_info_field_mappings : Side → Dict ℕ
minion_task_info_field_mappings origin =
    (minion_provider_properties origin, source_resources)
    ∷ (minion_connection_info origin, source_resources_connection_info)
    ∷ []
minion_task_info_field_mappings destination =
    (minion_provider_properties destination, target_resources)
    ∷ (destination_minion_backup_writer_connection_info, target_resources_connection_info)
    ∷ []
minion_task_info_field_mappings osmorphing =
    (minion_provider_properties osmorphing, os_morphing_resources)
    ∷ (minion_connection_info osmorphing, osmorphing_connection_info)
    ∷ []

abbrev pub mapping_keys : Dict ℕ → List ℕ
mapping_keys [] = []
mapping_keys ((k, v) ∷ d) = k ∷ mapping_keys d

abbrev pub mapping_values : Dict ℕ → List ℕ
mapping_values [] = []
mapping_values ((k, v) ∷ d) = v ∷ mapping_values d

-- The classes that attach volumes to a machine or detach them.
abbrev pub volumes_task : Side → (volumes : ℕ) → Runner
volumes_task side volumes =
    let mappings = minion_task_info_field_mappings side in
    record {
      required = mapping_keys mappings ++ volumes ∷ [];
      returned = mapping_values mappings ++ minion_provider_properties side ∷ volumes ∷ [];
    }

abbrev pub attach_volumes_to_source_minion_task : Runner
attach_volumes_to_source_minion_task = volumes_task origin volumes_info

abbrev pub attach_volumes_to_destination_minion_task : Runner
attach_volumes_to_destination_minion_task = volumes_task destination volumes_info

abbrev pub attach_volumes_to_osmorphing_minion_task : Runner
attach_volumes_to_osmorphing_minion_task = volumes_task osmorphing instance_deployment_info

-- `_get_transfer_properties_task_info_field`
abbrev pub transfer_properties : Side → ℕ
transfer_properties origin = source_environment
transfer_properties _ = target_environment

-- `_BaseValidateMinionCompatibilityTask`, whose `union` with the fields of the mappings has no effect.
abbrev pub validate_minion_compatibility_task : Side → Runner
validate_minion_compatibility_task side = record {
  required = export_info ∷ transfer_properties side ∷ minion_provider_properties side ∷ [];
  returned = mapping_values (minion_task_info_field_mappings side);
}

-- `_BaseReleaseMinionTask`
abbrev pub release_minion_task : Side → Runner
release_minion_task side =
    let fields =
      mapping_keys (minion_task_info_field_mappings side)
      ++ mapping_values (minion_task_info_field_mappings side) in
    record { required = fields; returned = fields }

abbrev pub base_validate_minion_pool_options_task : Runner
base_validate_minion_pool_options_task = record {
  required = pool_environment_options ∷ [];
  returned = [];
}

abbrev pub base_create_minion_machine_task : Runner
base_create_minion_machine_task = record {
  required = pool_environment_options ∷ pool_shared_resources ∷ pool_identifier ∷ pool_os_type ∷ [];
  returned =
      own_minion_provider_properties ∷ own_minion_connection_info
      ∷ own_minion_backup_writer_connection_info ∷ [];
}

abbrev pub base_delete_minion_machine_task : Runner
base_delete_minion_machine_task = record {
  required = own_minion_provider_properties ∷ [];
  returned = [];
}

abbrev pub base_set_up_pool_supporting_resources_task : Runner
base_set_up_pool_supporting_resources_task = record {
  required = pool_environment_options ∷ pool_identifier ∷ [];
  returned = pool_shared_resources ∷ [];
}

abbrev pub base_tear_down_pool_supporting_resources_task : Runner
base_tear_down_pool_supporting_resources_task = record {
  required = pool_environment_options ∷ pool_shared_resources ∷ [];
  returned = pool_shared_resources ∷ [];
}

abbrev pub collect_osmorphing_info_task : Runner
collect_osmorphing_info_task = record {
  required = target_environment ∷ instance_deployment_info ∷ [];
  returned = osmorphing_info ∷ [];
}

abbrev pub base_healthcheck_minion_machine_task : Runner
base_healthcheck_minion_machine_task = record {
  required = own_minion_provider_properties ∷ own_minion_connection_info ∷ [];
  returned = [];
}

abbrev pub base_power_cycle_minion_task : Runner
base_power_cycle_minion_task = record {
  required = own_minion_provider_properties ∷ [];
  returned = [];
}
