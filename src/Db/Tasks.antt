-- ===== src/Db/Tasks.antt =====
-- Lemmas on the rows of tasks: lookups after a change, and distinct identifiers.
use coriolis.Prelude.{
  Bool, true, all, subst, sym, refl, ℕ, ◌==◌, false, if◌then◌else◌, List, [], ◌∷◌, some, ◌≡◌, arith,
  lookup, insert,
}
use coriolis.Constants.{TaskStatus}
use coriolis.Action.{ok}
use coriolis.Db.{
  Task, Store, find_task, change_task, with_status, statuses_of, set_status, change_found,
  set_task_status,
}

pub set_task_status-found :
    (i : ℕ) (st : TaskStatus) (s : Store) {t : Task}
    → find_task i s.tasks ≡ some t
    → set_task_status i st s ≡ (ok tt, set_status i st s)
unfolding set_task_status change_found
set_task_status-found i st s e = rw (e, change_found)

pub find_task-id : (i : ℕ) (ts : List Task) {t : Task} → find_task i ts ≡ some t → t.id ≡ i
unfolding find_task
find_task-id i [] e = cc
find_task-id i (u ∷ ts) {t} e = ground (arith, find_task-id i ts {t = t})

-- The identifier is not that of a task of the list.
abbrev pub IsFresh : ℕ → List Task → Type 0
IsFresh i [] = Unit {0}
IsFresh i (t ∷ ts) = ((t.id == i) ≡ false) × IsFresh i ts

-- The identifier is a primary key.
abbrev pub IsDistinct : List Task → Type 0
IsDistinct [] = Unit {0}
IsDistinct (t ∷ ts) = IsFresh t.id ts × IsDistinct ts

module _ (f : Task → Task) (id_kept : (t : Task) → (f t).id ≡ t.id) where
  pub find-change_by :
      (i j : ℕ) (ts : List Task) {t : Task}
      → find_task i ts ≡ some t
      → find_task j (change_task i f ts) ≡ (if i == j then some (f t) else find_task j ts)
  unfolding find_task change_task
  find-change_by i j [] e = cc
  find-change_by i j (u ∷ ts) {t} e = ground (arith, id_kept u, find-change_by i j ts {t = t})

  IsFresh-change_by : (i j : ℕ) (ts : List Task) → IsFresh i ts → IsFresh i (change_task j f ts)
  unfolding change_task
  IsFresh-change_by i j [] h = tt
  IsFresh-change_by i j (t ∷ ts) h = ground (arith, id_kept t, IsFresh-change_by i j ts)

  pub IsDistinct-change_by :
      (j : ℕ) (ts : List Task) → IsDistinct ts → IsDistinct (change_task j f ts)
  unfolding change_task
  IsDistinct-change_by j [] h = tt
  IsDistinct-change_by j (t ∷ ts) h =
      ground (arith, id_kept t, IsDistinct-change_by j ts, IsFresh-change_by t.id j ts)

pub find-change :
    (i j : ℕ) (st : TaskStatus) (ts : List Task) {t : Task}
    → find_task i ts ≡ some t
    → find_task j (change_task i (with_status st) ts)
      ≡ (if i == j then some (with_status st t) else find_task j ts)
find-change i j st ts e = find-change_by (with_status st) (λ t. refl) i j ts e

pub IsDistinct-change :
    (j : ℕ) (st : TaskStatus) (ts : List Task)
    → IsDistinct ts
    → IsDistinct (change_task j (with_status st) ts)
IsDistinct-change j st ts h = IsDistinct-change_by (with_status st) (λ t. refl) j ts h

-- The dictionary of statuses follows the rows.
pub statuses-change :
    (i : ℕ) (st : TaskStatus) (ts : List Task) {t : Task}
    → find_task i ts ≡ some t
    → statuses_of (change_task i (with_status st) ts) ≡ insert i st (statuses_of ts)
unfolding find_task change_task insert
statuses-change i st [] e = cc
statuses-change i st (u ∷ ts) {t} e = ground (arith, statuses-change i st ts {t = t})

pub lookup-statuses :
    (i : ℕ) (ts : List Task) {t : Task}
    → find_task i ts ≡ some t
    → lookup i (statuses_of ts) ≡ some t.status
unfolding find_task lookup
lookup-statuses i [] e = cc
lookup-statuses i (u ∷ ts) {t} e = ground (arith, lookup-statuses i ts {t = t})

pub find_self :
    (i : ℕ) (ts : List Task) {t : Task} → find_task i ts ≡ some t → find_task t.id ts ≡ some t
find_self i ts {t} e = subst (λ j. find_task j ts ≡ some t) (sym (find_task-id i ts e)) e

-- A test that all rows pass is passed by the changed rows if it is by the one that changes.
pub all-change_task :
    (p : Task → Bool) (i : ℕ) (f : Task → Task) (ts : List Task) {t : Task}
    → (p t ≡ true → p (f t) ≡ true)
    → find_task i ts ≡ some t
    → all p ts ≡ true
    → all p (change_task i f ts) ≡ true
unfolding find_task change_task all
all-change_task p i f [] k e h = h
all-change_task p i f (u ∷ ts) {t} k e h = ground (arith, all-change_task p i f ts {t = t} k)
