-- ===== src/Conductor/Plans/Fine.antt =====
-- Every kind of execution is accepted, with the least task info that it needs.
use coriolis.Prelude.{
  ℕ, Bool, ◌&&◌, true, false, all, any, select, elem, lookup, insert, update, List, [], ◌∷◌, ◌≡◌,
  refl,
}
use coriolis.Action.{Result, ok, err, ◌>>=◌}
use coriolis.Db.{TaskInfo}
use coriolis.Conductor.Create.{create_task, initial_status, has_scheduled_dependency}
use coriolis.Conductor.Sanity.{
  gather, queue, round, check_queued, collect_fields, check_requirements, add_fields, check_rounds,
  check_instance,
}
use coriolis.Conductor.Plans.{
  call_create, execute_replica_tasks, os_morphing_tasks, deploy_replica_instances,
  delete_replica_disks, update_replica,
}
use coriolis.Conductor.Plans.Migration.{sync_tasks, migrate_instances}
use coriolis.Conductor.Plans.Options.{every, IsAllowed, replica_plans, migration_plans, by_options}
use coriolis.Conductor.Plans.Info.{Given, ExecutionKind, create_tasks, prepare_info, needed}
use coriolis.Tasks.{get_task_runner_class}

abbrev pub is_checked : Result (Unit {0}) → Bool
is_checked (ok u) = true
is_checked (err e) = false

-- The least task info that an action has: the fields that are needed.
abbrev pub least : List ℕ → TaskInfo
least [] = []
least (f ∷ fs) = (f, 0) ∷ least fs

module _ (g : Given) (i : ℕ) where
  -- The tasks are created, and pass the check.
  abbrev pub is_accepted : ExecutionKind → TaskInfo → Bool
  is_accepted e info =
      is_checked (create_tasks i e []).0
      && is_checked (check_instance get_task_runner_class info (create_tasks i e []).1)

  abbrev pub least_info : ExecutionKind → TaskInfo
  least_info (ExecutionKind.replica_update updated) =
      least (needed (ExecutionKind.replica_update updated))
  least_info e = prepare_info g e (least (needed e))

  abbrev pub is_fine : ExecutionKind → Bool
  is_fine e = is_accepted e (least_info e)

  is_fine-replicas : replica_plans is_fine ≡ true
  unfolding check_instance create_tasks prepare_info create_task initial_status
      has_scheduled_dependency gather queue round check_queued collect_fields check_requirements
      add_fields check_rounds call_create execute_replica_tasks os_morphing_tasks
      deploy_replica_instances sync_tasks migrate_instances delete_replica_disks update_replica
      get_task_runner_class all any select elem lookup insert update ◌>>=◌ every
  is_fine-replicas = refl

  is_fine-both_pools : migration_plans is_fine true true ≡ true
  unfolding check_instance create_tasks prepare_info create_task initial_status
      has_scheduled_dependency gather queue round check_queued collect_fields check_requirements
      add_fields check_rounds call_create execute_replica_tasks os_morphing_tasks
      deploy_replica_instances sync_tasks migrate_instances delete_replica_disks update_replica
      get_task_runner_class all any select elem lookup insert update ◌>>=◌ every
  is_fine-both_pools = refl

  is_fine-origin_pool : migration_plans is_fine true false ≡ true
  unfolding check_instance create_tasks prepare_info create_task initial_status
      has_scheduled_dependency gather queue round check_queued collect_fields check_requirements
      add_fields check_rounds call_create execute_replica_tasks os_morphing_tasks
      deploy_replica_instances sync_tasks migrate_instances delete_replica_disks update_replica
      get_task_runner_class all any select elem lookup insert update ◌>>=◌ every
  is_fine-origin_pool = refl

  is_fine-destination_pool : migration_plans is_fine false true ≡ true
  unfolding check_instance create_tasks prepare_info create_task initial_status
      has_scheduled_dependency gather queue round check_queued collect_fields check_requirements
      add_fields check_rounds call_create execute_replica_tasks os_morphing_tasks
      deploy_replica_instances sync_tasks migrate_instances delete_replica_disks update_replica
      get_task_runner_class all any select elem lookup insert update ◌>>=◌ every
  is_fine-destination_pool = refl

  is_fine-no_pool : migration_plans is_fine false false ≡ true
  unfolding check_instance create_tasks prepare_info create_task initial_status
      has_scheduled_dependency gather queue round check_queued collect_fields check_requirements
      add_fields check_rounds call_create execute_replica_tasks os_morphing_tasks
      deploy_replica_instances sync_tasks migrate_instances delete_replica_disks update_replica
      get_task_runner_class all any select elem lookup insert update ◌>>=◌ every
  is_fine-no_pool = refl

  is_fine-migrations : (o d : Bool) → migration_plans is_fine o d ≡ true
  is_fine-migrations true true = is_fine-both_pools
  is_fine-migrations true false = is_fine-origin_pool
  is_fine-migrations false true = is_fine-destination_pool
  is_fine-migrations false false = is_fine-no_pool

  is_fine-update : (updated : TaskInfo) → is_fine (ExecutionKind.replica_update updated) ≡ true
  unfolding check_instance create_tasks prepare_info create_task initial_status
      has_scheduled_dependency gather queue round check_queued collect_fields check_requirements
      add_fields check_rounds call_create execute_replica_tasks os_morphing_tasks
      deploy_replica_instances sync_tasks migrate_instances delete_replica_disks update_replica
      get_task_runner_class all any select elem lookup insert update ◌>>=◌ every
  is_fine-update updated = refl

  pub is_fine_lem : (e : ExecutionKind) → IsAllowed e → is_fine e ≡ true
  is_fine_lem = by_options is_fine is_fine-replicas is_fine-migrations is_fine-update
