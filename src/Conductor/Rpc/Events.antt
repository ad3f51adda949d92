-- ===== src/Conductor/Rpc/Events.antt =====
-- The changes that requests make: steps of the conductor, and what workers report.
use coriolis.Prelude.{ℕ, Bool, true, false, none, some, ◌≡◌, refl, List}
use coriolis.Constants.{TaskStatus}
use coriolis.Action.{Action, Result, ok, err, continue, require, Error, ◌>>=◌}
use coriolis.Db.{Store, Task, TaskInfo, find_task, change_task, with_status, with_host, is_truthy}
use coriolis.Db.Tasks.{IsDistinct, IsDistinct-change_by}
use coriolis.Conductor.Cancel.{may_start}
use coriolis.Conductor.Handlers.{accepts_process, status_completed, status_canceled, status_errored}
use coriolis.Conductor.Steps.{Reach}
use coriolis.Conductor.Steps.Keeps.{Reach-IsDistinct}

abbrev pub accepts_host : TaskStatus → Bool
accepts_host TaskStatus.pending = true
accepts_host TaskStatus.cancelling_after_completion = true
accepts_host _ = false

-- The changes of a task's row that a worker's report leads to; `fails` says whether the report may
-- be that the task has failed.
pub data Reported (fails : Bool) (t : Task) : (Task → Task) → Type 0 where
  host : (name : ℕ) → accepts_host t.status ≡ true → Reported fails t (with_host (some name) none)
  start :
      t.status ≡ TaskStatus.pending
      → is_truthy t.host ≡ true
      → Reported fails t (with_status TaskStatus.starting)
  process :
      (process_id : ℕ)
      → accepts_process t.status ≡ true
      → Reported fails t (with_host none (some process_id))
  run :
      accepts_process t.status ≡ true
      → is_truthy t.host ≡ true
      → Reported fails t (with_status TaskStatus.running)
  same : Reported fails t (with_status t.status)
  complete :
      {st : TaskStatus} → status_completed t.status ≡ some st → Reported fails t (with_status st)
  cancel :
      {st : TaskStatus} → status_canceled t.status ≡ some st → Reported fails t (with_status st)
  fail : fails ≡ true → Reported fails t (with_status (status_errored t.status))
  debug :
      may_start t.status ≡ true → Reported fails t (with_status TaskStatus.canceled_for_debugging)

pub Reported-id :
    {fails : Bool} {t : Task} {f : Task → Task} → Reported fails t f → (u : Task) → (f u).id ≡ u.id
Reported-id (host name h) u = refl
Reported-id (start p h) u = refl
Reported-id (process n h) u = refl
Reported-id (run h p) u = refl
Reported-id same u = refl
Reported-id (complete e) u = refl
Reported-id (cancel e) u = refl
Reported-id (fail q) u = refl
Reported-id (debug h) u = refl

pub data Event (fails : ℕ → Bool) (s : Store) : Store → Type 0 where
  own : {u : Store} → Reach s u → Event fails s u
  row :
      (i : ℕ) (t : Task) (f : Task → Task)
      → find_task i s.tasks ≡ some t
      → Reported (fails i) t f
      → Event fails s (record s { tasks = change_task i f s.tasks })
  merge : (info : List (ℕ × TaskInfo)) → Event fails s (record s { info = info })

pub data Trace (fails : ℕ → Bool) (s : Store) : Store → Type 0 where
  nil : Trace fails s s
  snoc : {t u : Store} → Trace fails s t → Event fails t u → Trace fails s u

module _ {fails : ℕ → Bool} where
  pub Trace-trans : {s t u : Store} → Trace fails s t → Trace fails t u → Trace fails s u
  Trace-trans r nil = r
  Trace-trans r (snoc q e) = snoc (Trace-trans r q) e

  pub Trace-Event : {s u : Store} → Event fails s u → Trace fails s u
  Trace-Event e = snoc nil e

  pub Event-IsDistinct : {s u : Store} → Event fails s u → IsDistinct s.tasks → IsDistinct u.tasks
  Event-IsDistinct (own r) d = Reach-IsDistinct r d
  Event-IsDistinct {s} (row i t f e r) d = IsDistinct-change_by f (Reported-id r) i s.tasks d
  Event-IsDistinct (merge info) d = d

  pub Trace-IsDistinct : {s u : Store} → Trace fails s u → IsDistinct s.tasks → IsDistinct u.tasks
  Trace-IsDistinct nil d = d
  Trace-IsDistinct (snoc r e) d = Event-IsDistinct e (Trace-IsDistinct r d)

  module _ {A B : Type 0} where
    continue-Trace :
        (s : Store) (r : Result A) (f : A → Action Store B) (t : Store)
        → Trace fails s t
        → ((a : A) → r ≡ ok a → Trace fails t (f a t).1)
        → Trace fails s (continue r f t).1
    continue-Trace s (ok a) f t first rest = Trace-trans first (rest a refl)
    continue-Trace s (err e) f t first rest = first

    pub bind-Trace :
        (m : Action Store A) (f : A → Action Store B) (s : Store)
        → Trace fails s (m s).1
        → ((a : A) → (m s).0 ≡ ok a → Trace fails (m s).1 (f a (m s).1).1)
        → Trace fails s ((m >>= f) s).1
    unfolding ◌>>=◌
    bind-Trace m f s first rest = continue-Trace s (m s).0 f (m s).1 first rest

  pub require-Trace :
      {B : Type 0} (b : Bool) (e : Error) (k : Unit {0} → Action Store B) (s : Store)
      → (b ≡ true → Trace fails s (k tt s).1)
      → Trace fails s ((require b e >>= k) s).1
  unfolding ◌>>=◌
  require-Trace true e k s g = g refl
  require-Trace false e k s g = nil
