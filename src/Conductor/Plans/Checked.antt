-- ===== src/Conductor/Plans/Checked.antt =====
-- The tasks of an execution pass the check that is made before it begins.
use coriolis.Prelude.{
  ℕ, ◌==◌, Bool, ◌&&◌, true, false, Bool-cases, ==→≡, inl, inr, All, not, elem, List, [], ◌∷◌, ◌≡◌,
  refl,
}
use coriolis.Action.{Result, ok, err}
use coriolis.Db.{TaskInfo}
use coriolis.Conductor.Sanity.{check_instance, info_keys}
use coriolis.Conductor.Plans.Options.{IsAllowed, and_lem}
use coriolis.Conductor.Plans.Fine.{is_checked, least, least_info, is_fine_lem}
use coriolis.Conductor.Plans.Info.{
  Given, ExecutionKind, minion_fields, with_minion_fields, environments, create_tasks, prepare_info,
  needed,
}
use coriolis.Conductor.Plans.More.{Sub, check_instance-more, insert-Sub, update-Sub, update-grows}
use coriolis.Conductor.PostTask.{Side, origin, destination, osmorphing, volumes_info, clone_disks}
use coriolis.Tasks.Fields.{user_scripts, target_environment}
use coriolis.Tasks.{get_task_runner_class}

is_checked_lem : (r : Result (Unit {0})) → is_checked r ≡ true → r ≡ ok tt
is_checked_lem (ok u) h = refl
is_checked_lem (err e) h = absurd (cc)

least-Sub :
    (fs : List ℕ) (info : TaskInfo)
    → All (λ f. elem f (info_keys info) ≡ true) fs
    → Sub (info_keys (least fs)) (info_keys info)
unfolding elem
least-Sub [] info h f k = absurd (cc)
least-Sub (g ∷ fs) info h f k = elim (Bool-cases (g == f)) [
  | inl q ↦ rw (← ==→≡ g f q) h.0
  | inr q ↦ least-Sub fs info h.1 f (rw (q) at k)
]

module _ (g : Given) (i : ℕ) where
  minion_fields-Sub :
      (b : Bool) (side : Side) (d e : TaskInfo)
      → Sub (info_keys d) (info_keys e)
      → Sub (info_keys (with_minion_fields b side d)) (info_keys (with_minion_fields b side e))
  minion_fields-Sub true side d e s = update-Sub d e (minion_fields side) s
  minion_fields-Sub false side d e s = s

  prepare_info-Sub :
      (e : ExecutionKind) (info : TaskInfo)
      → All (λ f. elem f (info_keys info) ≡ true) (needed e)
      → Sub (info_keys (least_info g i e)) (info_keys (prepare_info g e info))
  unfolding prepare_info
  prepare_info-Sub (ExecutionKind.replica_execution o d s) info h =
      minion_fields-Sub d destination _ _ (
        minion_fields-Sub o origin _ _ (
          update-Sub _ _ (environments g)
            (insert-Sub volumes_info _ _ [] info (least-Sub [] info h))))
  prepare_info-Sub (ExecutionKind.replica_deploy c k p f) info h =
      minion_fields-Sub (not k && p) osmorphing _ _ (
        update-Sub _ _ (environments g) (
          insert-Sub user_scripts _ _ _ _ (
            insert-Sub clone_disks _ _ _ info
              (least-Sub (needed (ExecutionKind.replica_deploy c k p f)) info h))))
  prepare_info-Sub (ExecutionKind.migration o d p s k f n) info h = λ x e. e
  prepare_info-Sub ExecutionKind.replica_disks_delete info h =
      insert-Sub target_environment _ _ _ info
        (least-Sub (needed ExecutionKind.replica_disks_delete) info h)
  prepare_info-Sub (ExecutionKind.replica_update updated) info h = λ x e.
      update-grows info updated x
        (least-Sub (needed (ExecutionKind.replica_update updated)) info h x e)

  -- The tasks of an execution for an instance can be created, and pass the check that is made before
  -- it begins, for all options of an execution, a deployment or an update of a replica, of the
  -- deletion of its disks or of a migration, where the replication count of the migration is in the
  -- range that the API accepts and the task info has the fields that earlier executions leave.
  pub create_tasks-checked :
      (e : ExecutionKind) (info : TaskInfo)
      → IsAllowed e
      → All (λ f. elem f (info_keys info) ≡ true) (needed e)
      → ((create_tasks i e []).0 ≡ ok tt)
        × (check_instance get_task_runner_class (prepare_info g e info) (create_tasks i e []).1
            ≡ ok tt)
  create_tasks-checked e info a h =
      let (created, checked) = and_lem _ _ (is_fine_lem g i e a) in
      (
        is_checked_lem _ created,
        check_instance-more get_task_runner_class (least_info g i e) (prepare_info g e info)
            (create_tasks i e []).1 (prepare_info-Sub e info h) (is_checked_lem _ checked),
      )
