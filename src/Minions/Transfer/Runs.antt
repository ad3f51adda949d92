-- ===== src/Minions/Transfer/Runs.antt =====
-- The identifiers of machines stay distinct when an action allocates from its pools.
use coriolis.Prelude.{
  ℕ, ◌==◌, Bool, Bool-cases, true, false, if◌then◌else◌, Dict, List, [], ◌∷◌, Option, lookup, none,
  some, inl, inr, not, ◌&&◌, insert,
}
use coriolis.Action.{
  Action, Error, Result, ok, err, pure, require, or_raise, continue, ◌>>=◌, key_error, not_found,
  invalid_minion_pool_state, coriolis_exception,
}
use coriolis.Minions.Requests.{is_allocated}
use coriolis.Minions.{Machine, Pool}
use coriolis.Minions.Rows.{IsDistinct}
use coriolis.Minions.Allocate.{make_allocation_subflow}
use coriolis.Minions.Transfer.{
  TransferAction, Role, Allocations, Elsewhere, find_pool, register_minions, use_pool, use_selected,
  reuse_minions, use_osmorphing_pools, run_machine_allocation_subflow_for_action, with_minion,
  no_allocations, instances_by_pool,
}
use coriolis.Minions.Transfer.Keys.{make-IsDistinct}

module _ {A B : Type 0} where
  continue-IsDistinct :
      (r : Result A) (f : A → Action (List Machine) B) (ms : List Machine)
      → IsDistinct ms
      → ((a : A) → IsDistinct (f a ms).1)
      → IsDistinct (continue r f ms).1
  continue-IsDistinct (ok a) f ms d k = k a
  continue-IsDistinct (err e) f ms d k = d

  bind-IsDistinct :
      (m : Action (List Machine) A) (f : A → Action (List Machine) B) (ms : List Machine)
      → IsDistinct (m ms).1
      → ((a : A) (us : List Machine) → IsDistinct us → IsDistinct (f a us).1)
      → IsDistinct ((m >>= f) ms).1
  unfolding ◌>>=◌
  bind-IsDistinct m f ms d k = continue-IsDistinct (m ms).0 f (m ms).1 d (λ a. k a (m ms).1 d)

or_raise-IsDistinct :
    {A : Type 0} (x : Option A) (e : Error) (ms : List Machine)
    → IsDistinct ms
    → IsDistinct (or_raise x e ms).1
or_raise-IsDistinct none e ms d = d
or_raise-IsDistinct (some a) e ms d = d

require-IsDistinct :
    (b : Bool) (e : Error) (ms : List Machine) → IsDistinct ms → IsDistinct (require b e ms).1
require-IsDistinct true e ms d = d
require-IsDistinct false e ms d = d

register-IsDistinct :
    (role : Role) (more : Dict ℕ) (a : Allocations) (ms : List Machine)
    → IsDistinct ms
    → IsDistinct (register_minions role more a ms).1
unfolding register_minions
register-IsDistinct role [] a ms d = d
register-IsDistinct role ((i, machine) ∷ more) a ms d =
    bind-IsDistinct (or_raise (lookup i a) key_error) _ ms
      (or_raise-IsDistinct (lookup i a) key_error ms d)
      λ m us e. register-IsDistinct role more (insert i (with_minion role machine m) a) us e

module _ (o : Elsewhere) (pools : List Pool) (action : TransferAction) where
  use_pool-IsDistinct :
      (role : Role) (pool_id : ℕ) (is : List ℕ) (a : Allocations) (ms : List Machine)
      → IsDistinct ms
      → IsDistinct (use_pool o pools action role pool_id is a ms).1
  unfolding use_pool
  use_pool-IsDistinct role pool_id is a ms d =
      bind-IsDistinct (or_raise (find_pool pool_id pools) not_found) _ ms
        (or_raise-IsDistinct (find_pool pool_id pools) not_found ms d)
        λ pool us e.
          bind-IsDistinct (require (is_allocated pool.status) invalid_minion_pool_state) _ us
            (require-IsDistinct (is_allocated pool.status) invalid_minion_pool_state us e)
            λ _ vs f.
              bind-IsDistinct (make_allocation_subflow (o.outside role pool_id) pool action.id is) _
                vs (make-IsDistinct (o.outside role pool_id) pool action.id is vs f)
                λ plan ws g. register-IsDistinct role plan.allocations a ws g

  use_selected-IsDistinct :
      (b : Bool) (role : Role) (pool_id : ℕ) (a : Allocations) (ms : List Machine)
      → IsDistinct ms
      → IsDistinct (use_selected o pools action b role pool_id a ms).1
  use_selected-IsDistinct b role pool_id a ms d = elim (Bool-cases (b && not (pool_id == 0))) [
    | inl q ↦ rw q (use_pool-IsDistinct role pool_id action.instances a ms d)
    | inr q ↦ rw q d
  ]

  reuse-IsDistinct :
      (is : List ℕ) (a : Allocations) (ms : List Machine)
      → IsDistinct ms
      → IsDistinct (reuse_minions o pools action is a ms).1
  unfolding reuse_minions
  reuse-IsDistinct [] a ms d = d
  reuse-IsDistinct (i ∷ is) a ms d =
      bind-IsDistinct (or_raise (lookup i a) key_error) _ ms
        (or_raise-IsDistinct (lookup i a) key_error ms d)
        λ m us e.
          bind-IsDistinct (or_raise m.destination_minion_id key_error) _ us
            (or_raise-IsDistinct m.destination_minion_id key_error us e)
            λ machine vs f. reuse-IsDistinct is _ vs f

  branch-IsDistinct :
      (b : Bool) (m n : Action (List Machine) Allocations) (ms : List Machine)
      → IsDistinct (m ms).1
      → IsDistinct (n ms).1
      → IsDistinct ((if b then m else n) ms).1
  branch-IsDistinct true m n ms d e = d
  branch-IsDistinct false m n ms d e = e

  use_osmorphing_pools-IsDistinct :
      (b : Bool) (by : Dict (List ℕ)) (a : Allocations) (ms : List Machine)
      → IsDistinct ms
      → IsDistinct (use_osmorphing_pools o pools action b by a ms).1
  unfolding use_osmorphing_pools
  use_osmorphing_pools-IsDistinct b [] a ms d = d
  use_osmorphing_pools-IsDistinct b ((pool_id, is) ∷ more) a ms d =
      bind-IsDistinct _ _ ms
        (branch-IsDistinct
          (not (action.destination_minion_pool_id == 0)
            && pool_id == action.destination_minion_pool_id
            && b)
          (reuse_minions o pools action is a) (use_pool o pools action Role.osmorphing pool_id is a)
          ms (reuse-IsDistinct is a ms d) (use_pool-IsDistinct Role.osmorphing pool_id is a ms d))
        λ a' us e. use_osmorphing_pools-IsDistinct b more a' us e

  pub run-IsDistinct :
      (b c : Bool) (ms : List Machine)
      → IsDistinct ms
      → IsDistinct (run_machine_allocation_subflow_for_action o pools action b c ms).1
  unfolding run_machine_allocation_subflow_for_action
  run-IsDistinct b c ms d =
      bind-IsDistinct _ _ ms
        (use_selected-IsDistinct b Role.origin action.origin_minion_pool_id
          (no_allocations action.instances) ms d)
        λ x us e.
          bind-IsDistinct _ _ us
            (use_selected-IsDistinct b Role.destination action.destination_minion_pool_id x us e)
            λ y vs f.
              bind-IsDistinct _ _ vs
                (branch-IsDistinct c
                  (use_osmorphing_pools o pools action b
                    (instances_by_pool action.instance_osmorphing_minion_pool_mappings []) y)
                  (pure y) vs (use_osmorphing_pools-IsDistinct b _ y vs f) f)
                λ z ws g.
                  bind-IsDistinct (require o.starts coriolis_exception) _ ws
                    (require-IsDistinct o.starts coriolis_exception ws g) λ _ xs h. h
