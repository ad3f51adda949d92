-- ===== src/Minions/Select/Samples.antt =====
-- The pools that an action selects, and the theorem on their check applied.
use coriolis.Prelude.{true, false, List, [], ◌∷◌, ◌≡◌}
use coriolis.Minions.{Pool, PoolStatus, Platform, Retention}
use coriolis.Minions.Select.{Selection, validate_minion_pool_selections_for_action}
use coriolis.Minions.Select.Suited.{
  is_ok, selections_suit, validate_minion_pool_selections_for_action-suits,
}

abbrev importing : Pool
importing = record {
  id = 2;
  endpoint_id = 30;
  platform = Platform.destination;
  is_linux = true;
  status = PoolStatus.allocated;
  shared_resources = 5;
  minimum_minions = 1;
  maximum_minions = 2;
  minion_max_idle_time = 60;
  minion_retention_strategy = Retention.delete;
}

-- For the OSMorphing of one instance at a time, with another operating system.
abbrev morphing : Pool
morphing = record importing { id = 3; is_linux = false; maximum_minions = 1 }

abbrev selection : Selection
selection = record {
  action = record {
    id = 9;
    instances = 1 ∷ 2 ∷ [];
    origin_minion_pool_id = 0;
    destination_minion_pool_id = 2;
    instance_osmorphing_minion_pool_mappings = (1, 3) ∷ (5, 4) ∷ [];
  };
  origin_endpoint_id = 20;
  destination_endpoint_id = 30;
}

abbrev pools : List Pool
pools = importing ∷ morphing ∷ []

validate_minion_pool_selections_for_action-suits_example :
    is_ok (validate_minion_pool_selections_for_action pools selection)
    ≡ selections_suit pools selection
validate_minion_pool_selections_for_action-suits_example =
    validate_minion_pool_selections_for_action-suits pools selection
