-- ===== src/Conductor/Sanity/Samples.antt =====
-- The check of the tasks of a migration, and the theorems on it applied.
use coriolis.Prelude.{
  all, any, elem, select, lookup, insert, List, [], ◌∷◌, Option, some, ◌≡◌, ◌≢◌, refl,
}
use coriolis.Constants.{TaskStatus, TaskType}
use coriolis.Action.{ok, err, execution_deadlock, out_of_fuel}
use coriolis.Db.{Task}
use coriolis.Conductor.Samples.{deploy, transfer, cleanup}
use coriolis.Conductor.Sanity.{
  Runner, gather, queue, round, check_queued, collect_fields, check_requirements, add_fields,
  check_rounds, check_instance, info_keys,
}
use coriolis.Conductor.Sanity.Stuck.{HasCycle, check_instance-HasCycle}
use coriolis.Conductor.Sanity.Ends.{check_instance-fueled}
use coriolis.Conductor.Sanity.Rounds.{Rounds, check_instance-Rounds}

-- Every task requires the field 4, and the first returns the field 6.
abbrev runner : TaskType → Option Runner
runner TaskType.create_instance_disks = some (record { required = 4 ∷ []; returned = 6 ∷ [] })
runner _ = some (record { required = 4 ∷ 6 ∷ []; returned = [] })

abbrev planned : List Task
planned = transfer ∷ deploy TaskStatus.scheduled ∷ cleanup ∷ []

planned-checked : check_instance runner ((4, 1) ∷ []) planned ≡ ok tt
unfolding check_instance check_rounds round gather queue all any elem select check_queued
    collect_fields check_requirements add_fields insert lookup
planned-checked = refl

check_instance-Rounds_example : Rounds runner (info_keys ((4, 1) ∷ [])) [] planned
check_instance-Rounds_example = check_instance-Rounds runner ((4, 1) ∷ []) planned planned-checked

-- The first two tasks depend on each other.
abbrev circular : List Task
circular = transfer ∷ record (deploy TaskStatus.scheduled) { depends_on = 2 ∷ [] } ∷ []

circular-checked : check_instance runner ((4, 1) ∷ []) circular ≡ err execution_deadlock
unfolding check_instance check_rounds round gather queue all any elem select check_queued
circular-checked = refl

check_instance-HasCycle_example : HasCycle circular
check_instance-HasCycle_example =
    check_instance-HasCycle runner ((4, 1) ∷ []) circular circular-checked

check_instance-fueled_example : check_instance runner ((4, 1) ∷ []) planned ≢ err out_of_fuel
check_instance-fueled_example = check_instance-fueled runner ((4, 1) ∷ []) planned
