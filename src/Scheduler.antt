-- ===== src/Scheduler.antt =====
-- scheduler/filters/trivial_filters.py and scheduler/rpc/server.py: the choice of the worker
-- services for a set of requirements. Names and identifiers are numbers.
pub mod Chosen
pub mod Specs
pub mod Samples
use coriolis.Prelude.{
  ℕ, ltb, leb, ◌+◌, ◌==◌, Bool, true, false, not, ◌&&◌, ◌||◌, if◌then◌else◌, all, any, select, elem,
  is_empty, Dict, lookup, List, [], ◌∷◌, ◌++◌, map, Option, none, some,
}
use coriolis.Action.{
  Result, ok, err, and_then, no_worker_service, no_suitable_worker_service, no_suitable_region,
  region_not_found,
}

pub record Service : Type 0 where
  pub id : ℕ
  pub topic : ℕ
  pub enabled : Bool
  pub mapped_regions : List ℕ
  -- The provider types of each platform; none stands for no 'types' too.
  pub providers : Dict (List ℕ)

pub record Region : Type 0 where
  pub id : ℕ
  pub enabled : Bool

abbrev pub same : Bool → Bool → Bool
same true b = b
same false b = not b

pub data Filter : Type 0 where
  regions : (ids : List ℕ) (any_region : Bool) → Filter
  topic : (name : ℕ) → Filter
  enabled : (value : Bool) → Filter
  provider_types : (requirements : Dict (List ℕ)) → Filter

-- `ProviderTypesFilter.rate_service`
unfoldable pub rate_types : Option (List ℕ) → List ℕ → ℕ → ℕ
rate_types none types rest = 0
rate_types (some available) types rest = if any (λ t. not (elem t available)) types then 0 else rest

unfoldable pub rate_providers : Dict (List ℕ) → Service → ℕ
rate_providers [] s = 100
rate_providers ((platform, types) ∷ requirements) s =
    rate_types (lookup platform s.providers) types (rate_providers requirements s)

-- `rate_service` of each filter.
unfoldable pub rate_service : Filter → Service → ℕ
rate_service (regions ids any_region) s =
    if is_empty ids
    then 100
    else if not (any (λ r. elem r s.mapped_regions) ids)
    then 0
    else if not any_region && any (λ r. not (elem r s.mapped_regions)) ids
    then 0
    else 100
rate_service (topic name) s = if s.topic == name then 100 else 0
rate_service (enabled value) s = if same s.enabled value then 100 else 0
rate_service (provider_types requirements) s = rate_providers requirements s

-- `BaseServiceFilter.filter_services`
unfoldable pub filter_services : Filter → List Service → List Service
filter_services f services = select (λ s. ltb 0 (rate_service f s)) services

-- The total score of a service, none if a filter rejects it.
unfoldable pub score : ℕ → List Filter → Service → ℕ → Option ℕ
score minimum [] s total = some total
score minimum (f ∷ filters) s total =
    let rest = score minimum filters s (total + rate_service f s) in
    if ltb (rate_service f s) minimum then none else rest

abbrev pub Scores : Type 0
Scores = List (Service × ℕ)

abbrev pub with_score : Service → Option ℕ → Scores → Scores
with_score s none rest = rest
with_score s (some n) rest = (s, n) ∷ rest

unfoldable pub score_all : ℕ → List Filter → List Service → Scores
score_all minimum filters [] = []
score_all minimum filters (s ∷ services) =
    with_score s (score minimum filters s 0) (score_all minimum filters services)

-- `sorted(scores, key=lambda s: s[1], reverse=True)`, which is stable.
abbrev pub insert_score : Service × ℕ → Scores → Scores
insert_score x [] = x ∷ []
insert_score x (y ∷ ys) = if leb y.1 x.1 then x ∷ y ∷ ys else y ∷ insert_score x ys

unfoldable pub sort_scores : Scores → Scores
sort_scores [] = []
sort_scores (x ∷ xs) = insert_score x (sort_scores xs)

-- `_get_weighted_filtered_services`
unfoldable pub get_weighted_filtered_services : List Service → List Filter → ℕ → Result Scores
get_weighted_filtered_services services [] minimum = ok (map (λ s. (s, 100)) services)
get_weighted_filtered_services services (f ∷ filters) minimum =
    let scores = score_all minimum (f ∷ filters) services in
    if is_empty scores then err no_suitable_worker_service else ok (sort_scores scores)

-- `_filter_regions`, with the regions that are in the database.
unfoldable pub filter_regions : List Region → List ℕ → Bool → Bool → Result (List Region)
filter_regions all_regions region_ids value check_all_exist =
    if check_all_exist && any (λ i. not (any (λ r. r.id == i) all_regions)) region_ids
    then err region_not_found
    else ok (select (λ r. elem r.id region_ids && same r.enabled value) all_regions)

-- `_get_all_worker_services`
unfoldable pub get_all_worker_services : ℕ → List Service → Result (List Service)
get_all_worker_services worker_topic services =
    let found = filter_services (topic worker_topic) services in
    if is_empty found then err no_worker_service else ok found

-- The loop over the region sets in `get_workers_for_specs`.
unfoldable pub region_filters : List Region → Bool → List (List ℕ) → Result (List Filter)
region_filters all_regions value [] = ok []
region_filters all_regions value ([] ∷ region_sets) = region_filters all_regions value region_sets
region_filters all_regions value ((r ∷ region_set) ∷ region_sets) =
    and_then (filter_regions all_regions (r ∷ region_set) value true) λ found.
      if is_empty found
      then err no_suitable_region
      else (and_then (region_filters all_regions value region_sets)
          λ rest. ok (regions (r ∷ region_set) true ∷ rest))

abbrev pub enabled_filters : Option Bool → List Filter
enabled_filters none = []
enabled_filters (some value) = enabled value ∷ []

abbrev pub provider_filters : Dict (List ℕ) → List Filter
provider_filters [] = []
provider_filters (r ∷ requirements) = provider_types (r ∷ requirements) ∷ []

-- `get_workers_for_specs`; an argument that is None is an empty list here.
unfoldable pub get_workers_for_specs :
    ℕ
    → List Service
    → List Region
    → Dict (List ℕ)
    → List (List ℕ)
    → Option Bool
    → Bool
    → Result (List Service)
get_workers_for_specs worker_topic services all_regions requirements region_sets value
      filter_disabled_regions =
    and_then (get_all_worker_services worker_topic services) λ worker_services.
      and_then (region_filters all_regions filter_disabled_regions region_sets) λ sets.
        and_then
          (get_weighted_filtered_services worker_services
            (enabled_filters value ++ sets ++ provider_filters requirements) 1)
          λ scores. ok (map (λ x. x.0) scores)
