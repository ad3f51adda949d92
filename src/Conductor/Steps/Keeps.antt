-- ===== src/Conductor/Steps/Keeps.antt =====
-- What the steps of the conductor keep.
use coriolis.Prelude.{Bool-cases, inl, inr, ℕ, ◌≤◌, ◌<◌, true, List, [], ◌∷◌, some, ◌≡◌, arith}
use coriolis.Constants.{TaskStatus}
use coriolis.Db.{Store, Task, find_task, change_task, set_status, with_status}
use coriolis.Db.Tasks.{IsDistinct, IsDistinct-change}
use coriolis.Conductor.Cancel.{may_start, start_weight, waiting}
use coriolis.Conductor.Steps.{
  Move, Step, Reach, change, aside, here, next, start, unschedule, no_worker, revoke, request, lose,
  spare, force, release, strand,
}

pub Step-IsDistinct : {s u : Store} → Step s u → IsDistinct s.tasks → IsDistinct u.tasks
unfolding set_status
Step-IsDistinct {s} (change t st e m) h = IsDistinct-change t.id st s.tasks h
Step-IsDistinct (aside a) h = rw a.tasks_kept h

pub Reach-IsDistinct : {s u : Store} → Reach s u → IsDistinct s.tasks → IsDistinct u.tasks
Reach-IsDistinct here h = h
Reach-IsDistinct (next r st) h = Step-IsDistinct st (Reach-IsDistinct r h)

-- A step never adds a task that may still be started.
Move-may_start :
    {s : Store} {t : Task} {st : TaskStatus}
    → Move s t st
    → may_start st ≡ true
    → may_start t.status ≡ true
Move-may_start (start e r) h = cc
Move-may_start (unschedule e) h = cc
Move-may_start (no_worker e) h = cc
Move-may_start (revoke e) h = cc
Move-may_start (request e o) h = cc
Move-may_start (lose e) h = cc
Move-may_start (spare e o) h = cc
Move-may_start (force e) h = cc
Move-may_start (release e) h = ground arith
Move-may_start (strand e) h = cc

start_weight-le :
    (a b : TaskStatus) → (may_start a ≡ true → may_start b ≡ true) → start_weight a ≤ start_weight b
unfolding start_weight
start_weight-le a b h = elim (Bool-cases (may_start a)) [
  | inl e ↦ rw (e, h e) (omega arith)
  | inr e ↦ rw e (omega arith)
]

pub waiting-change-le :
    (i : ℕ) (st : TaskStatus) (ts : List Task) {t : Task}
    → find_task i ts ≡ some t
    → start_weight st ≤ start_weight t.status
    → waiting (change_task i (with_status st) ts) ≤ waiting ts
unfolding find_task change_task
waiting-change-le i st [] e h = omega arith
waiting-change-le i st (u ∷ ts) {t} e h = ground (arith, waiting-change-le i st ts {t = t})

pub Step-waiting-le : {s u : Store} → Step s u → waiting u.tasks ≤ waiting s.tasks
unfolding set_status
Step-waiting-le {s} (change t st e m) =
    waiting-change-le t.id st s.tasks e (start_weight-le st t.status (Move-may_start m))
Step-waiting-le (aside a) = rw a.tasks_kept (omega arith)

pub Reach-waiting-le : {s u : Store} → Reach s u → waiting u.tasks ≤ waiting s.tasks
Reach-waiting-le here = omega arith
Reach-waiting-le (next r st) = omega (arith, Reach-waiting-le r, Step-waiting-le st)

pub waiting-change-lt :
    (i : ℕ) (st : TaskStatus) (ts : List Task) {t : Task}
    → find_task i ts ≡ some t
    → start_weight st < start_weight t.status
    → waiting (change_task i (with_status st) ts) < waiting ts
unfolding find_task change_task
waiting-change-lt i st [] e h = cc
waiting-change-lt i st (u ∷ ts) {t} e h = ground (arith, waiting-change-lt i st ts {t = t})
