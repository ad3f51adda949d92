-- ===== src/Conductor/Plans/Migration.antt =====
-- conductor/rpc/server.py: the tasks of a migration for one instance, as `migrate_instances` creates
-- them.
use coriolis.Prelude.{
  ℕ, zero, suc, ◌==◌, Bool, not, ◌&&◌, if◌then◌else◌, List, [], ◌∷◌, Option, none, some,
}
use coriolis.Constants.{TaskType}
use coriolis.Action.{Action, pure, or_raise, ◌>>=◌, ◌>>◌, attribute_error}
use coriolis.Db.{Task}
use coriolis.Conductor.Plans.{add, add_cleanup, add_on_error_only, add_after, os_morphing_tasks}

abbrev pub first_of : List ℕ → Option ℕ
first_of [] = none
first_of (i ∷ is) = some i

abbrev pub last_of : List ℕ → Option ℕ
last_of [] = none
last_of (i ∷ []) = some i
last_of (i ∷ j ∷ is) = last_of (j ∷ is)

-- The task that cleans up after the OSMorphing of an instance.
abbrev pub last_only : List ℕ → List ℕ
last_only [] = []
last_only (i ∷ is) = is

module _ (instance : ℕ) where
  -- The loop over `replication_count`: the REPLICATE_DISKS tasks.
  unfoldable pub sync_tasks : ℕ → (shutdown_instances : Bool) → List ℕ → Action (List Task) (List ℕ)
  sync_tasks zero shutdown_instances depends_on = pure []
  sync_tasks (suc count) shutdown_instances depends_on = do
    deps ←
        add_after instance (count == 0 && shutdown_instances) TaskType.shutdown_instance depends_on
    sync ← add instance TaskType.replicate_disks deps
    more ← sync_tasks count shutdown_instances (sync ∷ [])
    pure (sync ∷ more)

  unfoldable pub migrate_instances :
      (origin_minion_pool destination_minion_pool osmorphing_minion_pool : Bool)
      → (shutdown_instances skip_os_morphing instance_flavor : Bool) → (replication_count : ℕ)
      → Action (List Task) (Unit {0})
  migrate_instances origin_pool destination_pool osmorphing_pool shutdown_instances skip_os_morphing
        instance_flavor replication_count =
      do
        instance_info ← add instance TaskType.get_instance_info []
        source_inputs ← add instance TaskType.validate_migration_source_inputs []
        destination_inputs ←
            add instance TaskType.validate_migration_destination_inputs (instance_info ∷ [])
        source ←
            add instance
              (if origin_pool
                then TaskType.validate_source_minion_pool_compatibility
                else TaskType.deploy_migration_source_resources)
              (instance_info ∷ source_inputs ∷ [])
        disks ←
            add instance TaskType.create_instance_disks (source_inputs ∷ destination_inputs ∷ [])
        validated_destination ←
            (if destination_pool
              then add instance TaskType.validate_destination_minion_pool_compatibility
                  (destination_inputs ∷ [])
              else pure disks)
        target ←
            (if destination_pool
              then add instance TaskType.attach_volumes_to_destination_minion
                  (validated_destination ∷ disks ∷ [])
              else add instance TaskType.deploy_migration_target_resources (disks ∷ []))
        validated_osmorphing ←
            (if not skip_os_morphing && osmorphing_pool
              then add instance TaskType.validate_osmorphing_minion_pool_compatibility
                  (destination_inputs ∷ [])
              else pure destination_inputs)
        syncs ← sync_tasks replication_count shutdown_instances (
            if not skip_os_morphing && osmorphing_pool
            then source ∷ target ∷ validated_osmorphing ∷ []
            else source ∷ target ∷ [])
        last_sync ← or_raise (last_of syncs) attribute_error
        first_sync ← or_raise (first_of syncs) attribute_error
        source_cleanup ←
            add_cleanup instance
              (if origin_pool
                then TaskType.release_source_minion
                else TaskType.delete_migration_source_resources)
              (source ∷ last_sync ∷ [])
        storage_cleanup ←
            add_cleanup instance TaskType.cleanup_instance_source_storage
              (first_sync ∷ source_cleanup ∷ [])
        target_cleanup ←
            (if destination_pool
              then (add_cleanup instance TaskType.detach_volumes_from_destination_minion
                    (target ∷ last_sync ∷ [])
                  >>= λ detach.
                      add_cleanup instance TaskType.release_destination_minion
                        (validated_destination ∷ detach ∷ []))
              else add_cleanup instance TaskType.delete_migration_target_resources
                  (target ∷ last_sync ∷ []))
        deploy ← add instance TaskType.deploy_instance_resources (last_sync ∷ target_cleanup ∷ [])
        morphing ←
            (if skip_os_morphing
              then pure []
              else os_morphing_tasks instance osmorphing_pool validated_osmorphing deploy)
        depends_on ←
            add_after instance instance_flavor TaskType.get_optimal_flavor
              (if skip_os_morphing then deploy ∷ [] else morphing)
        finalize ← add instance TaskType.finalize_instance_deployment depends_on
        failed ←
            add_on_error_only instance TaskType.cleanup_failed_instance_deployment
              (deploy ∷ finalize ∷ [])
        add_on_error_only instance TaskType.cleanup_instance_target_storage
            (disks ∷ storage_cleanup ∷ target_cleanup ∷ failed ∷ last_only morphing)
        pure tt
