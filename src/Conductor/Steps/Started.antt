-- ===== src/Conductor/Steps/Started.antt =====
-- Which tasks are started.
use coriolis.Prelude.{ℕ, Option, some, ◌≡◌, ◌⊎◌, lookup, List, [], ◌∷◌}
use coriolis.Constants.{TaskStatus}
use coriolis.Db.{Store, Task, Statuses, statuses_of, with_status}
use coriolis.Conductor.Env.{Env}
use coriolis.Conductor.Advance.{on_error_ids}
use coriolis.Conductor.Ready.{AllowsStart}

-- The statuses that are known of some tasks, in the order in which the tasks are listed.
pub data Parents (known : Statuses) : List ℕ → Statuses → Type 0 where
  nil : Parents known [] []
  cons :
      {d : ℕ} {st : TaskStatus} {deps : List ℕ} {ps : Statuses}
      → lookup d known ≡ some st
      → Parents known deps ps
      → Parents known (d ∷ deps) ((d, st) ∷ ps)

-- The parents of a task that depends on others let it start.
abbrev pub HasParents : Store → Task → Type 0
HasParents s t =
    (ps : Statuses) × Parents (statuses_of s.tasks) t.depends_on ps
    × AllowsStart (on_error_ids s.tasks) t.id ps

-- A row of a task that was SCHEDULED in a store, and that nothing it depends on kept from starting.
abbrev pub WasStarted : Store → Task → Task → Type 0
WasStarted s w t =
    (t ≡ with_status TaskStatus.pending w)
    × (w.status ≡ TaskStatus.scheduled)
    × ((w.depends_on ≡ []) ⊎ HasParents s w)
