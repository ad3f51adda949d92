-- ===== src/Conductor/Rpc/PostTask.antt =====
-- The actions after a task send requests, and write to no task.
use coriolis.Prelude.{
  ℕ, ◌==◌, Bool, true, false, if◌then◌else◌, lookup, Option, none, some, ◌≡◌, refl, List,
}
use coriolis.Constants.{TaskType}
use coriolis.Action.{Action, Error, or_raise, key_error, ◌>>=◌}
use coriolis.Db.{Store, Task, TaskInfo, Effect, emit, is_truthy}
use coriolis.Conductor.Env.{Env}
use coriolis.Conductor.PostTask.{
  Side, origin, destination, osmorphing, volumes_info, clone_disks, transfer_result,
  minion_machine_id, minion_provider_properties, check_other_tasks_running, restore_volumes_info,
  save_transfer_result, update_properties, release_minion, is_machine, release_destination_minion,
  update_own_volumes_info, handle_post_task_actions,
}
use coriolis.Conductor.Steps.{aside, Reach-Step}
use coriolis.Conductor.Rpc.Events.{own, Trace, nil, Trace-Event, bind-Trace}

module _ {fails : ℕ → Bool} where
  pub Trace-emit : (e : Effect) (s : Store) → Trace fails s (emit e s)
  Trace-emit e s = Trace-Event (
      own (
        Reach-Step
          (aside (record { tasks_kept = refl; info_kept = refl; finalized_kept = λ h. h }))))

  pub or_raise-Trace :
      {A B : Type 0} (o : Option A) (e : Error) (k : A → Action Store B) (s : Store)
      → ((a : A) → o ≡ some a → Trace fails s (k a s).1)
      → Trace fails s ((or_raise o e >>= k) s).1
  unfolding ◌>>=◌
  or_raise-Trace none e k s g = nil
  or_raise-Trace (some a) e k s g = g a refl

  pub if-Trace :
      {B : Type 0} (b : Bool) (m n : Action Store B) (s : Store)
      → (b ≡ true → Trace fails s (m s).1)
      → (b ≡ false → Trace fails s (n s).1)
      → Trace fails s ((if b then m else n) s).1
  if-Trace true m n s f g = f refl
  if-Trace false m n s f g = g refl

  restore_volumes_info-Trace :
      (i : ℕ) (v : Option ℕ) (s : Store) → Trace fails s (restore_volumes_info i v s).1
  unfolding restore_volumes_info
  restore_volumes_info-Trace i none s = nil
  restore_volumes_info-Trace i (some v) s =
      if-Trace (v == 0) _ _ s (λ _. nil) (λ _. Trace-emit (Effect.update_volumes_info true i v) s)

  save_transfer_result-Trace :
      (env : Env) (i : ℕ) (r : Option ℕ) (s : Store)
      → Trace fails s (save_transfer_result env i r s).1
  unfolding save_transfer_result
  save_transfer_result-Trace env i none s = nil
  save_transfer_result-Trace env i (some r) s =
      if-Trace (env.is_valid_export_info r) _ _ s
        (λ _. Trace-emit (Effect.set_transfer_result i r) s) (λ _. nil)

  update_properties-Trace :
      (side : Side) (info : TaskInfo) (s : Store) → Trace fails s (update_properties side info s).1
  unfolding update_properties
  update_properties-Trace side info s =
      or_raise-Trace (lookup (minion_provider_properties side) info) key_error _ s λ p _.
        or_raise-Trace (lookup (minion_machine_id side) info) key_error _ s
          λ m _. Trace-emit (Effect.update_minion_properties m p) s

  release_minion-Trace :
      (side : Side) (info : TaskInfo) (s : Store) → Trace fails s (release_minion side info s).1
  unfolding release_minion
  release_minion-Trace side info s =
      or_raise-Trace (lookup (minion_machine_id side) info) key_error _ s
        λ m _. Trace-emit (Effect.deallocate_minion_machine m) s

  release_destination_minion-Trace :
      (info : TaskInfo) (s : Store) → Trace fails s (release_destination_minion info s).1
  unfolding release_destination_minion
  release_destination_minion-Trace info s =
      or_raise-Trace (lookup (minion_machine_id destination) info) key_error _ s λ m _.
        if-Trace (is_machine (lookup (minion_machine_id osmorphing) info) m) _ _ s (λ _. nil)
          (λ _. Trace-emit (Effect.deallocate_minion_machine m) s)

  update_own_volumes_info-Trace :
      (t : Task) (info : TaskInfo) (s : Store) → Trace fails s (update_own_volumes_info t info s).1
  unfolding update_own_volumes_info
  update_own_volumes_info-Trace t info s = Trace-emit _ s

  module _ (env : Env) where
    pub handle_post_task_actions-Trace :
        (ty : TaskType) (t : Task) (tasks : List Task) (info : TaskInfo) (s : Store)
        → Trace fails s (handle_post_task_actions env ty t tasks info s).1
    unfolding handle_post_task_actions
    handle_post_task_actions-Trace TaskType.restore_replica_disk_snapshots t tasks info s =
        restore_volumes_info-Trace t.instance_id (lookup volumes_info info) s
    handle_post_task_actions-Trace TaskType.delete_replica_target_disk_snapshots t tasks info s =
        if-Trace (is_truthy (lookup clone_disks info)) _ _ s (λ _. nil) (λ _. Trace-emit _ s)
    handle_post_task_actions-Trace TaskType.finalize_replica_instance_deployment t tasks info s =
        save_transfer_result-Trace env t.instance_id (lookup transfer_result info) s
    handle_post_task_actions-Trace TaskType.finalize_instance_deployment t tasks info s =
        save_transfer_result-Trace env t.instance_id (lookup transfer_result info) s
    handle_post_task_actions-Trace TaskType.update_source_replica t tasks info s =
        update_own_volumes_info-Trace t info s
    handle_post_task_actions-Trace TaskType.update_destination_replica t tasks info s =
        bind-Trace (update_own_volumes_info t info) _ s (update_own_volumes_info-Trace t info s)
          λ _ _.
            if-Trace (check_other_tasks_running tasks t) _ _ _ (λ _. nil)
              (λ _. Trace-emit Effect.update_replica _)
    handle_post_task_actions-Trace TaskType.attach_volumes_to_source_minion t tasks info s =
        update_properties-Trace origin info s
    handle_post_task_actions-Trace TaskType.detach_volumes_from_source_minion t tasks info s =
        update_properties-Trace origin info s
    handle_post_task_actions-Trace TaskType.attach_volumes_to_destination_minion t tasks info s =
        update_properties-Trace destination info s
    handle_post_task_actions-Trace TaskType.detach_volumes_from_destination_minion t tasks info s =
        update_properties-Trace destination info s
    handle_post_task_actions-Trace TaskType.attach_volumes_to_osmorphing_minion t tasks info s =
        update_properties-Trace osmorphing info s
    handle_post_task_actions-Trace TaskType.detach_volumes_from_osmorphing_minion t tasks info s =
        update_properties-Trace osmorphing info s
    handle_post_task_actions-Trace TaskType.release_source_minion t tasks info s =
        release_minion-Trace origin info s
    handle_post_task_actions-Trace TaskType.release_destination_minion t tasks info s =
        release_destination_minion-Trace info s
    handle_post_task_actions-Trace TaskType.release_osmorphing_minion t tasks info s =
        release_minion-Trace osmorphing info s
    handle_post_task_actions-Trace _ t tasks info s = nil
