-- ===== src/Conductor/PostTask.antt =====
-- conductor/rpc/server.py: `_handle_post_task_actions`, which runs after a task has completed.
use coriolis.Prelude.{
  ℕ, ◌==◌, Bool, true, false, not, ◌&&◌, if◌then◌else◌, any, lookup, List, Option, none, some,
}
use coriolis.Constants.{TaskType, is_active_task}
use coriolis.Action.{Action, pure, or_raise, modify, ◌>>=◌, ◌>>◌, key_error}
use coriolis.Db.{Store, Task, TaskInfo, Effect, emit, is_truthy}
use coriolis.Conductor.Env.{Env}

-- The fields of the task info that the method reads.
abbrev pub volumes_info : ℕ
volumes_info = 1

abbrev pub clone_disks : ℕ
clone_disks = 2

abbrev pub transfer_result : ℕ
transfer_result = 3

-- `<side>_minion_machine_id` and `<side>_minion_provider_properties`
pub data Side : Type 0 where
  origin destination osmorphing : Side

abbrev pub minion_machine_id : Side → ℕ
minion_machine_id origin = 4
minion_machine_id destination = 5
minion_machine_id osmorphing = 6

abbrev pub minion_provider_properties : Side → ℕ
minion_provider_properties origin = 7
minion_provider_properties destination = 8
minion_provider_properties osmorphing = 9

abbrev pub value_or_empty : Option ℕ → ℕ
value_or_empty none = 0
value_or_empty (some v) = v

-- `_check_other_tasks_running`
unfoldable pub check_other_tasks_running : List Task → Task → Bool
check_other_tasks_running tasks current =
    any (λ t. not (t.id == current.id) && is_active_task t.status) tasks

unfoldable pub restore_volumes_info : ℕ → Option ℕ → Action Store (Unit {0})
restore_volumes_info instance none = pure tt
restore_volumes_info instance (some v) =
    if v == 0 then pure tt else modify (emit (Effect.update_volumes_info true instance v))

module _ (env : Env) where
  unfoldable pub save_transfer_result : ℕ → Option ℕ → Action Store (Unit {0})
  save_transfer_result instance none = pure tt
  save_transfer_result instance (some r) =
      if env.is_valid_export_info r
      then modify (emit (Effect.set_transfer_result instance r))
      else pure tt

unfoldable pub update_properties : Side → TaskInfo → Action Store (Unit {0})
update_properties side info = do
  properties ← or_raise (lookup (minion_provider_properties side) info) key_error
  machine ← or_raise (lookup (minion_machine_id side) info) key_error
  modify (emit (Effect.update_minion_properties machine properties))

unfoldable pub release_minion : Side → TaskInfo → Action Store (Unit {0})
release_minion side info = do
  machine ← or_raise (lookup (minion_machine_id side) info) key_error
  modify (emit (Effect.deallocate_minion_machine machine))

abbrev pub is_machine : Option ℕ → ℕ → Bool
is_machine none m = false
is_machine (some n) m = n == m

-- A destination minion that is the OSMorphing minion too is not released yet.
unfoldable pub release_destination_minion : TaskInfo → Action Store (Unit {0})
release_destination_minion info = do
  machine ← or_raise (lookup (minion_machine_id destination) info) key_error
  (if is_machine (lookup (minion_machine_id osmorphing) info) machine
      then pure tt
      else modify (emit (Effect.deallocate_minion_machine machine)))

-- `{"volumes_info": task_info.get("volumes_info", [])}` of the replica itself.
unfoldable pub update_own_volumes_info : Task → TaskInfo → Action Store (Unit {0})
update_own_volumes_info t info =
    let volumes = value_or_empty (lookup volumes_info info) in
    modify (emit (Effect.update_volumes_info false t.instance_id volumes))

unfoldable pub handle_post_task_actions :
    Env → TaskType → Task → List Task → TaskInfo → Action Store (Unit {0})
handle_post_task_actions env TaskType.restore_replica_disk_snapshots t tasks info =
    restore_volumes_info t.instance_id (lookup volumes_info info)
handle_post_task_actions env TaskType.delete_replica_target_disk_snapshots t tasks info =
    if is_truthy (lookup clone_disks info)
    then pure tt
    else modify (emit (Effect.update_volumes_info true t.instance_id 0))
handle_post_task_actions env TaskType.finalize_replica_instance_deployment t tasks info =
    save_transfer_result env t.instance_id (lookup transfer_result info)
handle_post_task_actions env TaskType.finalize_instance_deployment t tasks info =
    save_transfer_result env t.instance_id (lookup transfer_result info)
handle_post_task_actions env TaskType.update_source_replica t tasks info =
    update_own_volumes_info t info
handle_post_task_actions env TaskType.update_destination_replica t tasks info = do
  update_own_volumes_info t info
  (if check_other_tasks_running tasks t then pure tt else modify (emit Effect.update_replica))
handle_post_task_actions env TaskType.attach_volumes_to_source_minion t tasks info =
    update_properties origin info
handle_post_task_actions env TaskType.detach_volumes_from_source_minion t tasks info =
    update_properties origin info
handle_post_task_actions env TaskType.attach_volumes_to_destination_minion t tasks info =
    update_properties destination info
handle_post_task_actions env TaskType.detach_volumes_from_destination_minion t tasks info =
    update_properties destination info
handle_post_task_actions env TaskType.attach_volumes_to_osmorphing_minion t tasks info =
    update_properties osmorphing info
handle_post_task_actions env TaskType.detach_volumes_from_osmorphing_minion t tasks info =
    update_properties osmorphing info
handle_post_task_actions env TaskType.release_source_minion t tasks info =
    release_minion origin info
handle_post_task_actions env TaskType.release_destination_minion t tasks info =
    release_destination_minion info
handle_post_task_actions env TaskType.release_osmorphing_minion t tasks info =
    release_minion osmorphing info
handle_post_task_actions env _ t tasks info = pure tt
