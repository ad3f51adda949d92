-- ===== src/Conductor/Plans.antt =====
-- conductor/rpc/server.py: the tasks of each kind of execution for one instance, as
-- `execute_replica_tasks`, `deploy_replica_instances`, `delete_replica_disks`
-- and `update_replica` create them. `uuid` names the tasks by their place in this order.
pub mod Migration
pub mod Info
pub mod More
pub mod Uuids
pub mod Mapped
pub mod Rename
pub mod Owned
pub mod Options
pub mod Fine
pub mod Checked
pub mod Instances
pub mod Accepted
pub mod CleanedUp
pub mod Samples
use coriolis.Prelude.{
  length, ℕ, zero, suc, ◌+◌, ◌==◌, Bool, true, false, not, ◌&&◌, if◌then◌else◌, List, [], ◌∷◌, ◌++◌,
  Option, none, some,
}
use coriolis.Constants.{TaskType}
use coriolis.Action.{Action, pure, or_raise, ok, ◌>>=◌, ◌>>◌, attribute_error}
use coriolis.Db.{Task}
use coriolis.Conductor.Create.{create_task}

-- A call of `_create_task`: the state is the tasks of the execution, the value the new identifier.
unfoldable pub call_create :
    ℕ → TaskType → List ℕ → (on_error on_error_only : Bool) → Action (List Task) ℕ
call_create instance task_type depends_on on_error on_error_only tasks =
    let id = length tasks + 1 in
    (ok id, tasks ++ create_task id instance task_type tasks depends_on on_error on_error_only ∷ [])

module _ (instance : ℕ) where
  abbrev pub add : TaskType → List ℕ → Action (List Task) ℕ
  add task_type depends_on = call_create instance task_type depends_on false false

  -- With `on_error=True`.
  abbrev pub add_cleanup : TaskType → List ℕ → Action (List Task) ℕ
  add_cleanup task_type depends_on = call_create instance task_type depends_on true false

  -- With `on_error_only=True`.
  abbrev pub add_on_error_only : TaskType → List ℕ → Action (List Task) ℕ
  add_on_error_only task_type depends_on = call_create instance task_type depends_on false true

  -- A task in place of the dependencies that it has.
  abbrev pub add_after : Bool → TaskType → List ℕ → Action (List Task) (List ℕ)
  add_after b task_type depends_on =
      if b then (add task_type depends_on >>= λ i. pure (i ∷ [])) else pure depends_on

  unfoldable pub execute_replica_tasks :
      (origin_minion_pool destination_minion_pool shutdown_instances : Bool)
      → Action (List Task) (Unit {0})
  execute_replica_tasks origin_pool destination_pool shutdown_instances = do
    source_inputs ← add TaskType.validate_replica_source_inputs []
    instance_info ← add TaskType.get_instance_info []
    destination_inputs ← add TaskType.validate_replica_destination_inputs (instance_info ∷ [])
    origin ←
        (if origin_pool
          then add TaskType.validate_source_minion_pool_compatibility
              (instance_info ∷ source_inputs ∷ [])
          else pure source_inputs)
    destination ←
        (if destination_pool
          then add TaskType.validate_destination_minion_pool_compatibility (destination_inputs ∷ [])
          else pure destination_inputs)
    disks ← add TaskType.deploy_replica_disks (origin ∷ destination ∷ [])
    source ←
        (if origin_pool
          then pure []
          else add_after true TaskType.deploy_replica_source_resources (disks ∷ []))
    target ←
        add
          (if destination_pool
            then TaskType.attach_volumes_to_destination_minion
            else TaskType.deploy_replica_target_resources)
          (disks ∷ [])
    depends_on ← add_after shutdown_instances TaskType.shutdown_instance (source ++ target ∷ [])
    replicate ← add TaskType.replicate_disks depends_on
    (if origin_pool
        then add_cleanup TaskType.release_source_minion (origin ∷ replicate ∷ [])
        else add_cleanup TaskType.delete_replica_source_resources (source ++ replicate ∷ []))
    (if destination_pool
        then (add_cleanup TaskType.detach_volumes_from_destination_minion (target ∷ replicate ∷ [])
            >>= λ detach.
                add_cleanup TaskType.release_destination_minion (destination ∷ detach ∷ []))
        else add_cleanup TaskType.delete_replica_target_resources (target ∷ replicate ∷ []))
    pure tt

  -- The OSMorphing tasks of a migration: the task itself and the last one that cleans up after it.
  unfoldable pub os_morphing_tasks :
      (osmorphing_minion_pool : Bool) → (validated deploy : ℕ) → Action (List Task) (List ℕ)
  os_morphing_tasks true validated deploy = do
    attach ← add TaskType.attach_volumes_to_osmorphing_minion (validated ∷ deploy ∷ [])
    collect ← add TaskType.collect_osmorphing_info (attach ∷ [])
    morph ← add TaskType.os_morphing (collect ∷ [])
    detach ← add_cleanup TaskType.detach_volumes_from_osmorphing_minion (attach ∷ morph ∷ [])
    release ← add_cleanup TaskType.release_osmorphing_minion (validated ∷ detach ∷ [])
    pure (morph ∷ release ∷ [])
  os_morphing_tasks false validated deploy = do
    resources ← add TaskType.deploy_os_morphing_resources (deploy ∷ [])
    morph ← add TaskType.os_morphing (resources ∷ [])
    delete ← add_cleanup TaskType.delete_os_morphing_resources (resources ∷ morph ∷ [])
    pure (morph ∷ delete ∷ [])

  unfoldable pub deploy_replica_instances :
      (clone_disks skip_os_morphing osmorphing_minion_pool instance_flavor : Bool)
      → Action (List Task) (Unit {0})
  deploy_replica_instances clone_disks skip_os_morphing osmorphing_pool instance_flavor = do
    inputs ← add TaskType.validate_replica_deployment_inputs []
    validated ←
        (if not skip_os_morphing && osmorphing_pool
          then add TaskType.validate_osmorphing_minion_pool_compatibility (inputs ∷ [])
          else pure inputs)
    snapshot ← add TaskType.create_replica_disk_snapshots (validated ∷ [])
    deploy ← add TaskType.deploy_replica_instance_resources (snapshot ∷ [])
    depends_on ←
        (if skip_os_morphing
          then pure (deploy ∷ [])
          else os_morphing_tasks osmorphing_pool validated deploy)
    depends_on' ← add_after instance_flavor TaskType.get_optimal_flavor depends_on
    finalize ← add TaskType.finalize_replica_instance_deployment depends_on'
    call_create instance TaskType.delete_replica_target_disk_snapshots (snapshot ∷ finalize ∷ [])
        clone_disks false
    cleanup ←
        add_on_error_only TaskType.cleanup_failed_replica_instance_deployment
          (deploy ∷ finalize ∷ [])
    (if clone_disks
        then pure cleanup
        else add_cleanup TaskType.restore_replica_disk_snapshots (cleanup ∷ []))
    pure tt

  unfoldable pub delete_replica_disks : Action (List Task) (Unit {0})
  delete_replica_disks = do
    snapshots ← add TaskType.delete_replica_source_disk_snapshots []
    add TaskType.delete_replica_disks (snapshots ∷ [])
    pure tt

  unfoldable pub update_replica : Action (List Task) (Unit {0})
  update_replica = do
    instance_info ← add TaskType.get_instance_info []
    source ← add TaskType.update_source_replica []
    add TaskType.update_destination_replica (instance_info ∷ source ∷ [])
    pure tt
