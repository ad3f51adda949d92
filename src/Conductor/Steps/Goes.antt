-- ===== src/Conductor/Steps/Goes.antt =====
-- The outcome of an action of the conductor: steps of the relation, and fuel that did not run out.
use coriolis.Prelude.{Bool, true, false, some, ◌≡◌, ◌≢◌, refl}
use coriolis.Action.{require, Action, Error, Result, ok, err, continue, out_of_fuel, ◌>>=◌}
use coriolis.Db.{Store, Task, find_task, set_status, set_task_status}
use coriolis.Db.Tasks.{set_task_status-found}
use coriolis.Conductor.Steps.Current.{set_task_status-then}
use coriolis.Constants.{TaskStatus}
use coriolis.Conductor.Steps.{Move, Reach, here, change, Reach-Step, Reach-trans}

pub record Goes {A : Type 0} (s : Store) (o : Result A × Store) : Type 0 where
  pub reach : Reach s o.1
  pub fueled : o.0 ≢ err out_of_fuel

module _ {A : Type 0} where
  pub Goes-ok : (a : A) {s u : Store} → Reach s u → Goes s (ok a, u)
  Goes-ok a r = record { reach = r; fueled = λ e. cc }

  pub Goes-err : (e : Error) {s u : Store} → Reach s u → e ≢ out_of_fuel → Goes {A = A} s (err e, u)
  Goes-err e r h = record { reach = r; fueled = λ p. h (cc) }

  pub Goes-trans : {s t : Store} (o : Result A × Store) → Reach s t → Goes t o → Goes s o
  Goes-trans o r g = record { reach = Reach-trans r g.reach; fueled = g.fueled }

module _ {A B : Type 0} where
  continue-Goes :
      (s : Store) (r : Result A) (f : A → Action Store B) (t : Store)
      → Goes s (r, t)
      → ((a : A) → r ≡ ok a → Goes t (f a t))
      → Goes s (continue r f t)
  continue-Goes s (ok a) f t g rest = Goes-trans (f a t) g.reach (rest a refl)
  continue-Goes s (err e) f t g rest = Goes-err e g.reach (λ p. g.fueled (cc))

  pub bind-Goes :
      (m : Action Store A) (f : A → Action Store B) (s : Store)
      → Goes s (m s)
      → ((a : A) → (m s).0 ≡ ok a → Goes (m s).1 (f a (m s).1))
      → Goes s ((m >>= f) s)
  unfolding ◌>>=◌
  bind-Goes m f s g rest = continue-Goes s (m s).0 f (m s).1 g rest

  continue-Reach :
      (r : Result A) (f : A → Action Store B) (t : Store)
      → ((a : A) → Reach t (f a t).1)
      → Reach t (continue r f t).1
  continue-Reach (ok a) f t rest = rest a
  continue-Reach (err e) f t rest = here

  -- What follows an action, from the store that the action leaves.
  pub bind-Reach :
      (m : Action Store A) (f : A → Action Store B) (s : Store)
      → ((a : A) → Reach (m s).1 (f a (m s).1).1)
      → Reach (m s).1 ((m >>= f) s).1
  unfolding ◌>>=◌
  bind-Reach m f s rest = continue-Reach (m s).0 f (m s).1 rest

pub set-Goes :
    (t : Task) (st : TaskStatus) (s : Store)
    → find_task t.id s.tasks ≡ some t
    → Move s t st
    → Goes s (set_task_status t.id st s)
set-Goes t st s e m =
    rw (set_task_status-found t.id st s e) (Goes-ok tt (Reach-Step (change t st e m)))

-- A write to a task, and what follows it.
pub set-then-Goes :
    {B : Type 0} (t : Task) (st : TaskStatus) (k : Unit {0} → Action Store B) (s : Store)
    → find_task t.id s.tasks ≡ some t
    → Move s t st
    → Goes (set_status t.id st s) (k tt (set_status t.id st s))
    → Goes s ((set_task_status t.id st >>= k) s)
set-then-Goes t st k s e m g =
    rw (set_task_status-then t.id st k s e) (Goes-trans _ (Reach-Step (change t st e m)) g)

pub require-Goes :
    {B : Type 0} (b : Bool) (e : Error) (k : Unit {0} → Action Store B) (s : Store)
    → e ≢ out_of_fuel
    → (b ≡ true → Goes s (k tt s))
    → Goes s ((require b e >>= k) s)
unfolding ◌>>=◌
require-Goes true e k s h g = g refl
require-Goes false e k s h g = Goes-err e here h
