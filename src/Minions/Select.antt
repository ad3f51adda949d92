-- ===== src/Minions/Select.antt =====
-- minion_manager/rpc/server.py: `validate_minion_pool_selections_for_action`, which checks the pools
-- that an action selects before it is accepted.
pub mod Grouped
pub mod Suited
pub mod Samples
use coriolis.Prelude.{
  ℕ, ◌==◌, leb, Bool, true, false, not, ◌&&◌, if◌then◌else◌, elem, select, length, Dict, List, [],
  ◌∷◌, Option, none, some,
}
use coriolis.Action.{
  Error, Result, ok, err, and_then, not_found, invalid_minion_pool_state,
  invalid_minion_pool_selection,
}
use coriolis.Minions.{Pool, Platform}
use coriolis.Minions.Requests.{is_allocated}
use coriolis.Minions.Transfer.{TransferAction, find_pool, instances_by_pool}

-- The action as the check reads it.
pub record Selection : Type 0 where
  pub action : TransferAction
  pub origin_endpoint_id : ℕ
  pub destination_endpoint_id : ℕ

abbrev pub unless : Error → Bool → Result (Unit {0})
unless e b = if b then ok tt else err e

abbrev pub is_source : Platform → Bool
is_source Platform.source = true
is_source Platform.destination = false

-- `_get_pool`
abbrev pub or_not_found : Option Pool → Result Pool
or_not_found none = err not_found
or_not_found (some p) = ok p

-- `_check_pool_minion_count`
abbrev pub check_pool_minion_count : Pool → List ℕ → Result (Unit {0})
check_pool_minion_count p instances =
    and_then (unless invalid_minion_pool_state (is_allocated p.status))
      λ _. unless invalid_minion_pool_selection (leb (length instances) p.maximum_minions)

-- The checks of one pool; only those of transfers must have machines with Linux.
abbrev pub check_pool :
    (endpoint_id : ℕ) → (for_source for_transfer : Bool) → List ℕ → Pool → Result (Unit {0})
check_pool endpoint_id for_source for_transfer instances p =
    and_then (unless invalid_minion_pool_selection (p.endpoint_id == endpoint_id)) λ _.
      and_then
        (unless invalid_minion_pool_selection
          (if for_source then is_source p.platform else not (is_source p.platform)))
        λ _.
          and_then
            (unless invalid_minion_pool_selection (if for_transfer then p.is_linux else true))
            λ _. check_pool_minion_count p instances

module _ (pools : List Pool) where
  unfoldable pub check_selected :
      (endpoint_id : ℕ)
      → (for_source for_transfer : Bool) → (pool_id : ℕ) → List ℕ
      → Result (Unit {0})
  check_selected endpoint_id for_source for_transfer pool_id instances =
      and_then (or_not_found (find_pool pool_id pools))
        λ p. check_pool endpoint_id for_source for_transfer instances p

  -- The loop over `osmorphing_pool_mappings`.
  unfoldable pub check_osmorphing_pools : (endpoint_id : ℕ) → Dict (List ℕ) → Result (Unit {0})
  check_osmorphing_pools endpoint_id [] = ok tt
  check_osmorphing_pools endpoint_id ((pool_id, instances) ∷ more) =
      and_then (check_selected endpoint_id false false pool_id instances)
        λ _. check_osmorphing_pools endpoint_id more

  abbrev pub check_if_selected :
      (endpoint_id : ℕ) → (for_source : Bool) → (pool_id : ℕ) → List ℕ → Result (Unit {0})
  check_if_selected endpoint_id for_source pool_id instances =
      if pool_id == 0 then ok tt else check_selected endpoint_id for_source true pool_id instances

  unfoldable pub validate_minion_pool_selections_for_action : Selection → Result (Unit {0})
  validate_minion_pool_selections_for_action s =
      and_then
        (check_if_selected s.origin_endpoint_id true s.action.origin_minion_pool_id
          s.action.instances)
        λ _.
          and_then
            (check_if_selected s.destination_endpoint_id false s.action.destination_minion_pool_id
              s.action.instances)
            λ _. check_osmorphing_pools s.destination_endpoint_id (
              instances_by_pool
                (select (λ e. elem e.0 s.action.instances)
                  s.action.instance_osmorphing_minion_pool_mappings)
                [])
