-- ===== src/Tasks/OsMorphing.antt =====
-- tasks/osmorphing_tasks.py: what the classes require of the task info and return.
use coriolis.Prelude.{[], ◌∷◌}
use coriolis.Conductor.Sanity.{Runner}
use coriolis.Tasks.Fields.{
  instance_deployment_info, os_morphing_resources, osmorphing_connection_info, osmorphing_info,
  target_environment, user_scripts,
}

abbrev pub osmorphing_task : Runner
osmorphing_task = record {
  required = osmorphing_info ∷ osmorphing_connection_info ∷ user_scripts ∷ [];
  returned = [];
}

abbrev pub deploy_osmorphing_resources_task : Runner
deploy_osmorphing_resources_task = record {
  required = target_environment ∷ instance_deployment_info ∷ [];
  returned = os_morphing_resources ∷ osmorphing_info ∷ osmorphing_connection_info ∷ [];
}

abbrev pub delete_osmorphing_resources_task : Runner
delete_osmorphing_resources_task = record {
  required = target_environment ∷ os_morphing_resources ∷ [];
  returned = os_morphing_resources ∷ osmorphing_connection_info ∷ [];
}
