-- ===== src/Scheduler/Samples.antt =====
-- Three services, and the theorems on their choice applied.
use coriolis.Prelude.{
  ℕ, Bool, true, ◌&&◌, ◌==◌, any, select, elem, lookup, List, [], ◌∷◌, some, ◌≡◌, refl,
}
use coriolis.Action.{ok}
use coriolis.Scheduler.{
  Service, Region, Filter, score, score_all, sort_scores, rate_service, rate_providers, rate_types,
  filter_services, filter_regions, region_filters, get_all_worker_services, get_workers_for_specs,
  get_weighted_filtered_services,
}
use coriolis.Scheduler.Chosen.{accepts, get_weighted_filtered_services-any}
use coriolis.Scheduler.Specs.{suits, get_workers_for_specs-any}

abbrev service : ℕ → List ℕ → Service
service i mapped_regions = record {
  id = i;
  topic = 1;
  enabled = true;
  mapped_regions = mapped_regions;
  providers = (5, 8 ∷ 9 ∷ []) ∷ [];
}

abbrev services : List Service
services = service 1 (3 ∷ []) ∷ service 2 (4 ∷ []) ∷ service 3 (3 ∷ 4 ∷ []) ∷ []

abbrev filters : List Filter
filters = Filter.enabled true ∷ Filter.regions (4 ∷ []) true ∷ []

weighted :
    get_weighted_filtered_services services filters 1
    ≡ ok ((service 2 (4 ∷ []), 200) ∷ (service 3 (3 ∷ 4 ∷ []), 200) ∷ [])
unfolding get_weighted_filtered_services score_all score sort_scores rate_service any elem
weighted = refl

abbrev is_second : Service → Bool
is_second s = s.id == 2

get_weighted_filtered_services-any_example :
    true ≡ any (λ s. accepts 1 filters s && is_second s) services
unfolding any
get_weighted_filtered_services-any_example =
    get_weighted_filtered_services-any is_second services filters 1 weighted

abbrev four : List Region
four = record { id = 4; enabled = true } ∷ []

chosen :
    get_workers_for_specs 1 services four ((5, 9 ∷ []) ∷ []) ((4 ∷ []) ∷ []) (some true) true
    ≡ ok (service 2 (4 ∷ []) ∷ service 3 (3 ∷ 4 ∷ []) ∷ [])
unfolding get_workers_for_specs get_all_worker_services filter_services region_filters
    filter_regions get_weighted_filtered_services score_all score sort_scores rate_service
    rate_providers rate_types any elem select lookup
chosen = refl

get_workers_for_specs-any_example :
    true
    ≡ any
        (λ s. s.topic == 1 && suits ((5, 9 ∷ []) ∷ []) ((4 ∷ []) ∷ []) (some true) s && is_second s)
        services
unfolding any
get_workers_for_specs-any_example =
    get_workers_for_specs-any 1 services four ((5, 9 ∷ []) ∷ []) ((4 ∷ []) ∷ []) (some true) true
      is_second chosen
