-- ===== src/Conductor/Steps.antt =====
-- The changes that the conductor makes to an execution by itself, as a step relation: what
-- `_advance_execution_state`, `_cancel_tasks_execution` and the check for deadlocks may do.
pub mod Current
pub mod Goes
pub mod Deadlock
pub mod Start
pub mod Visits
pub mod Keeps
pub mod Advance
pub mod CancelTask
pub mod Cancel
pub mod Forced
pub mod Stranded
pub mod Started
pub mod Begin
pub mod Samples
pub mod Settled
use coriolis.Prelude.{ℕ, Bool, true, false, not, List, [], ◌∷◌, Option, none, some, ◌≡◌, refl, ◌⊎◌}
use coriolis.Constants.{TaskStatus, is_finalized_execution}
use coriolis.Db.{Store, Task, find_task, set_status, statuses_of}
use coriolis.Conductor.Advance.{Decision, on_error_ids, decide}
use coriolis.Conductor.Cancel.{may_start, is_force_cancelable}

-- The scheduler's rule gives the task the decision to start.
abbrev pub IsReady : Store → Task → Type 0
IsReady s t =
    decide (on_error_ids s.tasks) (statuses_of s.tasks) t.id t.depends_on ≡ some Decision.start

abbrev pub is_cancelable : TaskStatus → Bool
is_cancelable TaskStatus.running = true
is_cancelable TaskStatus.failed_to_cancel = true
is_cancelable _ = false

-- The new statuses that a task may be given.
pub data Move (s : Store) (t : Task) : TaskStatus → Type 0 where
  start : t.status ≡ TaskStatus.scheduled → IsReady s t → Move s t TaskStatus.pending
  unschedule : t.status ≡ TaskStatus.scheduled → Move s t TaskStatus.unscheduled
  no_worker : t.status ≡ TaskStatus.pending → Move s t TaskStatus.failed_to_schedule
  revoke :
      (t.status ≡ TaskStatus.pending) ⊎ (t.status ≡ TaskStatus.starting)
      → Move s t TaskStatus.unscheduled
  request : is_cancelable t.status ≡ true → t.on_error ≡ false → Move s t TaskStatus.cancelling
  lose : t.status ≡ TaskStatus.cancelling → Move s t TaskStatus.failed_to_cancel
  spare :
      is_cancelable t.status ≡ true
      → t.on_error ≡ true
      → Move s t TaskStatus.cancelling_after_completion
  force : is_force_cancelable t.status ≡ true → Move s t TaskStatus.force_canceled
  release : t.status ≡ TaskStatus.on_error_only → Move s t TaskStatus.scheduled
  strand : may_start t.status ≡ true → Move s t TaskStatus.canceled_from_deadlock

-- A write that leaves the tasks and the task info alone. A finalized execution stays finalized.
pub record IsAside (s u : Store) : Type 0 where
  pub tasks_kept : u.tasks ≡ s.tasks
  pub info_kept : u.info ≡ s.info
  pub finalized_kept :
      is_finalized_execution s.status ≡ true → is_finalized_execution u.status ≡ true

pub data Step (s : Store) : Store → Type 0 where
  change :
      (t : Task) (st : TaskStatus)
      → find_task t.id s.tasks ≡ some t
      → Move s t st
      → Step s (set_status t.id st s)
  aside : {u : Store} → IsAside s u → Step s u

pub data Reach (s : Store) : Store → Type 0 where
  here : Reach s s
  next : {t u : Store} → Reach s t → Step t u → Reach s u

pub Reach-trans : {s t u : Store} → Reach s t → Reach t u → Reach s u
Reach-trans r here = r
Reach-trans r (next q st) = next (Reach-trans r q) st

pub Reach-Step : {s u : Store} → Step s u → Reach s u
Reach-Step st = next here st
