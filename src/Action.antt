-- ===== src/Action.antt =====
-- Statements that write to a store and may raise. What was written before a raise stays written
-- (each `db_api` call is a transaction of its own), so the store comes back beside the error too.
pub mod Laws
use coriolis.Prelude.{Bool, if◌then◌else◌, ◌≡◌, refl, Option, none, some}

-- The exceptions of coriolis/exception.py that the modelled code raises, Python's KeyError, the
-- failures of calls that are sent to other services, and `out_of_fuel` for a recursion whose fuel
-- has run out.
pub data Error : Type 0 where
  not_found key_error invalid_task_state task_is_cancelling invalid_action_tasks_execution_state
        task_dependency execution_deadlock task_parameters task_fields_conflict coriolis_exception
        no_worker_service no_suitable_worker_service no_suitable_region region_not_found rpc_error
        invalid_migration_state invalid_replica_state invalid_input invalid_minion_pool_state
        invalid_minion_pool_selection invalid_minion_machine_state attribute_error database_error
        out_of_fuel :
      Error

pub data Result {ℓ} (A : Type ℓ) : Type ℓ where
  ok : A → Result A
  err : Error → Result A

abbrev pub Action : Type 0 → Type 0 → Type 0
Action S A = S → Result A × S

module _ {S A : Type 0} where
  abbrev pub pure : A → Action S A
  pure a s = (ok a, s)

  abbrev pub raise : Error → Action S A
  raise e s = (err e, s)

  abbrev pub gets : (S → A) → Action S A
  gets f s = (ok (f s), s)

  -- A lookup that raises where Python does.
  abbrev pub or_raise : Option A → Error → Action S A
  or_raise none e s = (err e, s)
  or_raise (some a) e s = (ok a, s)

abbrev pub modify : {S : Type 0} → (S → S) → Action S (Unit {0})
modify f s = (ok tt, f s)

module _ {S A B : Type 0} where
  abbrev pub continue : Result A → (A → Action S B) → Action S B
  continue (ok a) f s = f a s
  continue (err e) f s = (err e, s)

  infixl 5 ◌>>=◌ ◌>>◌
  unfoldable pub ◌>>=◌ : Action S A → (A → Action S B) → Action S B
  ◌>>=◌ m f s = let (r, s') = m s in continue r f s'

  abbrev pub ◌>>◌ : Action S A → Action S B → Action S B
  m >> n = m >>= λ _. n

abbrev pub require : {S : Type 0} → Bool → Error → Action S (Unit {0})
require b e = if b then pure tt else raise e

-- Calls that may raise and do not touch the store.
abbrev pub and_then : {A B : Type 0} → Result A → (A → Result B) → Result B
and_then (ok a) f = f a
and_then (err e) f = err e
