-- ===== src/Conductor/Steps/Current.antt =====
-- Copies of tasks that agree with the rows of the store.
use coriolis.Prelude.{ℕ, ◌==◌, Bool, false, select, List, [], ◌∷◌, Option, none, some, ◌≡◌, arith}
use coriolis.Constants.{TaskStatus}
use coriolis.Action.{Action, ◌>>=◌}
use coriolis.Db.{Store, Task, find_task, change_task, set_status, set_task_status, with_status}
use coriolis.Db.Tasks.{IsFresh, IsDistinct, find-change, set_task_status-found}
use coriolis.Conductor.Advance.{insert_task, sort_tasks, tasks_to_process}

-- Each task of `ts` is the row of `rows` with its identifier.
abbrev pub AreCurrent : List Task → List Task → Type 0
AreCurrent rows [] = Unit {0}
AreCurrent rows (t ∷ ts) = (find_task t.id rows ≡ some t) × AreCurrent rows ts

AreCurrent-cons :
    (u : Task) (rows ts : List Task)
    → IsFresh u.id ts
    → AreCurrent rows ts
    → AreCurrent (u ∷ rows) ts
unfolding find_task
AreCurrent-cons u rows [] f h = tt
AreCurrent-cons u rows (t ∷ ts) f h = ground (arith, AreCurrent-cons u rows ts)

pub AreCurrent-self : (rows : List Task) → IsDistinct rows → AreCurrent rows rows
unfolding find_task
AreCurrent-self [] d = tt
AreCurrent-self (t ∷ ts) d = ground (arith, AreCurrent-cons t ts ts d.0 (AreCurrent-self ts d.1))

pub AreCurrent-change :
    (i : ℕ) (st : TaskStatus) (rows ts : List Task) {t : Task}
    → find_task i rows ≡ some t
    → IsFresh i ts
    → AreCurrent rows ts
    → AreCurrent (change_task i (with_status st) rows) ts
AreCurrent-change i st rows [] e f h = tt
AreCurrent-change i st rows (u ∷ ts) {t} e f h =
    ground (arith, find-change i u.id st rows e, AreCurrent-change i st rows ts e f.1 h.1)

pub AreCurrent-set :
    (t : Task) (st : TaskStatus) (s : Store) (ts : List Task)
    → IsFresh t.id ts
    → AreCurrent s.tasks (t ∷ ts)
    → AreCurrent (set_status t.id st s).tasks ts
unfolding set_status
AreCurrent-set t st s ts f c = AreCurrent-change t.id st s.tasks ts c.0 f c.1

-- Sorting and selecting keep both properties.
insert_task-IsFresh :
    (i : ℕ) (t : Task) (ts : List Task)
    → (t.id == i) ≡ false
    → IsFresh i ts
    → IsFresh i (insert_task t ts)
insert_task-IsFresh i t [] h f = (h, tt)
insert_task-IsFresh i t (u ∷ ts) h f = ground (arith, insert_task-IsFresh i t ts)

insert_task-IsDistinct :
    (t : Task) (ts : List Task) → IsFresh t.id ts → IsDistinct ts → IsDistinct (insert_task t ts)
insert_task-IsDistinct t [] f d = (tt, tt)
insert_task-IsDistinct t (u ∷ ts) f d =
    ground (arith, insert_task-IsDistinct t ts, insert_task-IsFresh u.id t ts)

insert_task-AreCurrent :
    (rows : List Task) (t : Task) (ts : List Task)
    → find_task t.id rows ≡ some t
    → AreCurrent rows ts
    → AreCurrent rows (insert_task t ts)
insert_task-AreCurrent rows t [] e h = (e, tt)
insert_task-AreCurrent rows t (u ∷ ts) e h = ground (arith, insert_task-AreCurrent rows t ts)

pub sort_tasks-IsFresh : (i : ℕ) (ts : List Task) → IsFresh i ts → IsFresh i (sort_tasks ts)
unfolding sort_tasks
sort_tasks-IsFresh i [] f = tt
sort_tasks-IsFresh i (t ∷ ts) f =
    insert_task-IsFresh i t (sort_tasks ts) f.0 (sort_tasks-IsFresh i ts f.1)

pub sort_tasks-IsDistinct : (ts : List Task) → IsDistinct ts → IsDistinct (sort_tasks ts)
unfolding sort_tasks
sort_tasks-IsDistinct [] d = tt
sort_tasks-IsDistinct (t ∷ ts) d =
    insert_task-IsDistinct t (sort_tasks ts) (sort_tasks-IsFresh t.id ts d.0)
      (sort_tasks-IsDistinct ts d.1)

pub sort_tasks-AreCurrent :
    (rows ts : List Task) → AreCurrent rows ts → AreCurrent rows (sort_tasks ts)
unfolding sort_tasks
sort_tasks-AreCurrent rows [] h = tt
sort_tasks-AreCurrent rows (t ∷ ts) h =
    insert_task-AreCurrent rows t (sort_tasks ts) h.0 (sort_tasks-AreCurrent rows ts h.1)

module _ (p : Task → Bool) where
  select-IsFresh : (i : ℕ) (ts : List Task) → IsFresh i ts → IsFresh i (select p ts)
  unfolding select
  select-IsFresh i [] f = tt
  select-IsFresh i (t ∷ ts) f = ground (arith, select-IsFresh i ts f.1)

  select-IsDistinct : (ts : List Task) → IsDistinct ts → IsDistinct (select p ts)
  unfolding select
  select-IsDistinct [] d = tt
  select-IsDistinct (t ∷ ts) d =
      ground (arith, select-IsDistinct ts d.1, select-IsFresh t.id ts d.0)

  select-AreCurrent : (rows ts : List Task) → AreCurrent rows ts → AreCurrent rows (select p ts)
  unfolding select
  select-AreCurrent rows [] h = tt
  select-AreCurrent rows (t ∷ ts) h = ground (arith, select-AreCurrent rows ts h.1)

pub tasks_to_process-IsDistinct :
    (instance : Option ℕ) (ts : List Task)
    → IsDistinct ts
    → IsDistinct (tasks_to_process instance ts)
unfolding tasks_to_process
tasks_to_process-IsDistinct none ts d = d
tasks_to_process-IsDistinct (some i) ts d =
    ground (arith, select-IsDistinct (λ (t : Task). t.instance_id == i) ts d)

pub tasks_to_process-AreCurrent :
    (instance : Option ℕ) (rows ts : List Task)
    → AreCurrent rows ts
    → AreCurrent rows (tasks_to_process instance ts)
unfolding tasks_to_process
tasks_to_process-AreCurrent none rows ts h = h
tasks_to_process-AreCurrent (some i) rows ts h =
    ground (arith, select-AreCurrent (λ (t : Task). t.instance_id == i) rows ts h)

-- A write to a row that is there, and what follows it.
pub set_task_status-then :
    {B : Type 0} (i : ℕ) (st : TaskStatus) (k : Unit {0} → Action Store B) (s : Store) {t : Task}
    → find_task i s.tasks ≡ some t
    → (set_task_status i st >>= k) s ≡ k tt (set_status i st s)
unfolding ◌>>=◌
set_task_status-then i st k s e = rw (set_task_status-found i st s e)
