-- ===== src/Scheduler/Specs.antt =====
-- The worker services that are found for a set of requirements.
use coriolis.Prelude.{
  ℕ, ltb, leb, ◌==◌, Bool, Bool-cases, true, false, not, ◌&&◌, all, any, select, elem, is_empty,
  Dict, lookup, List, [], ◌∷◌, ◌++◌, map, Option, Option-cases, none, some, ◌≡◌, refl, sym, ◌∙◌,
  subst, arith, inl, inr,
}
use coriolis.Action.{ok}
use coriolis.Action.Laws.{ok-injective, and_then-ok}
use coriolis.Scheduler.{
  Service, Region, Filter, Scores, same, rate_types, rate_providers, rate_service, filter_services,
  get_weighted_filtered_services, filter_regions, get_all_worker_services, region_filters,
  enabled_filters, provider_filters, get_workers_for_specs, regions, topic,
}
use coriolis.Scheduler.Chosen.{accepts, get_weighted_filtered_services-any}

-- The requirements, service by service.
abbrev pub has_types : Option (List ℕ) → List ℕ → Bool
has_types none types = false
has_types (some available) types = all (λ t. elem t available) types

abbrev pub provides : Dict (List ℕ) → Service → Bool
provides [] s = true
provides ((platform, types) ∷ requirements) s =
    has_types (lookup platform s.providers) types && provides requirements s

-- A region of the set is mapped to the service; an empty set asks for nothing.
abbrev pub is_in : List ℕ → Service → Bool
is_in [] s = true
is_in (r ∷ region_set) s = any (λ i. elem i s.mapped_regions) (r ∷ region_set)

abbrev pub is_set_to : Option Bool → Bool → Bool
is_set_to none b = true
is_set_to (some value) b = same b value

abbrev pub suits : Dict (List ℕ) → List (List ℕ) → Option Bool → Service → Bool
suits requirements region_sets value s =
    is_set_to value s.enabled
    && all (λ region_set. is_in region_set s) region_sets
    && provides requirements s

accepts-append :
    (xs ys : List Filter) (s : Service)
    → accepts 1 (xs ++ ys) s ≡ (accepts 1 xs s && accepts 1 ys s)
unfolding all
accepts-append [] ys s = refl
accepts-append (x ∷ xs) ys s = ground (arith, accepts-append xs ys s)

any-not : (p : ℕ → Bool) (xs : List ℕ) → any (λ x. not (p x)) xs ≡ not (all p xs)
unfolding any all
any-not p [] = refl
any-not p (x ∷ xs) = ground (arith, any-not p xs)

rate_providers-provides :
    (requirements : Dict (List ℕ)) (s : Service)
    → leb 1 (rate_providers requirements s) ≡ provides requirements s
unfolding rate_providers rate_types
rate_providers-provides [] s = refl
rate_providers-provides ((platform, types) ∷ requirements) s =
    elim (Option-cases (lookup platform s.providers)) [
      | inl e ↦ rw e refl
      | inr (available, e) ↦
          rw (e, any-not (λ t. elem t available) types)
            (ground (arith, rate_providers-provides requirements s))
    ]

accepts-enabled :
    (value : Option Bool) (s : Service)
    → accepts 1 (enabled_filters value) s ≡ is_set_to value s.enabled
unfolding all rate_service
accepts-enabled none s = refl
accepts-enabled (some value) s = ground arith

accepts-provides :
    (requirements : Dict (List ℕ)) (s : Service)
    → accepts 1 (provider_filters requirements) s ≡ provides requirements s
unfolding all rate_service
accepts-provides [] s = refl
accepts-provides (r ∷ requirements) s = ground (arith, rate_providers-provides (r ∷ requirements) s)

rate-is_in :
    (r : ℕ) (region_set : List ℕ) (s : Service)
    → leb 1 (rate_service (regions (r ∷ region_set) true) s) ≡ is_in (r ∷ region_set) s
unfolding rate_service
rate-is_in r region_set s = ground arith

region_filters-accepts :
    (all_regions : List Region) (value : Bool) (region_sets : List (List ℕ)) {filters : List Filter}
    (s : Service)
    → region_filters all_regions value region_sets ≡ ok filters
    → accepts 1 filters s ≡ all (λ region_set. is_in region_set s) region_sets
unfolding region_filters all
region_filters-accepts all_regions value [] {filters} s h =
    subst (λ fs. accepts 1 fs s ≡ true) (ok-injective [] filters h) refl
region_filters-accepts all_regions value ([] ∷ region_sets) s h =
    region_filters-accepts all_regions value region_sets s h
region_filters-accepts all_regions value ((r ∷ region_set) ∷ region_sets) {filters} s h =
    let (found, _, h') = and_then-ok (filter_regions all_regions (r ∷ region_set) value true) _ h in
    elim (Bool-cases (is_empty found)) [
      | inl q ↦ absurd (let no = rw q at h' in cc)
      | inr q ↦
          let (rest, k, h'') =
            and_then-ok (region_filters all_regions value region_sets) _ (rw q at h') in
          let f = regions (r ∷ region_set) true in
          subst (λ fs. accepts 1 fs s ≡ all (λ x. is_in x s) ((r ∷ region_set) ∷ region_sets))
            (ok-injective (f ∷ rest) filters h'')
            (rw
              (rate-is_in r region_set s, region_filters-accepts all_regions value region_sets s k)
              refl)
    ]

any-select :
    (r p : Service → Bool) (services : List Service)
    → any p (select r services) ≡ any (λ s. r s && p s) services
unfolding any select
any-select r p [] = refl
any-select r p (s ∷ services) = elim (Bool-cases (r s)) [
  | inl q ↦ rw (q, any-select r p services) refl
  | inr q ↦ rw (q, any-select r p services) refl
]

any-same :
    (p q : Service → Bool) (services : List Service)
    → ((s : Service) → p s ≡ q s)
    → any p services ≡ any q services
unfolding any
any-same p q [] h = refl
any-same p q (s ∷ services) h = rw (h s, any-same p q services h) refl

any-map_first : (p : Service → Bool) (xs : Scores) → any p (map (λ x. x.0) xs) ≡ any (λ x. p x.0) xs
unfolding any
any-map_first p [] = refl
any-map_first p (x ∷ xs) = rw (any-map_first p xs) refl

all_workers :
    (worker_topic : ℕ) (services : List Service) {workers : List Service}
    → get_all_worker_services worker_topic services ≡ ok workers
    → workers ≡ select (λ s. ltb 0 (rate_service (topic worker_topic) s)) services
unfolding get_all_worker_services filter_services
all_workers worker_topic services {workers} h =
    elim (Bool-cases (is_empty (filter_services (topic worker_topic) services))) [
      | inl q ↦ absurd (let no = rw q at h in cc)
      | inr q ↦
          ok-injective workers (filter_services (topic worker_topic) services) (sym (rw q at h))
    ]

rate-topic :
    (worker_topic : ℕ) (s : Service)
    → ltb 0 (rate_service (topic worker_topic) s) ≡ (s.topic == worker_topic)
unfolding rate_service
rate-topic worker_topic s = ground arith

module _ (requirements : Dict (List ℕ)) (value : Option Bool) where
  abbrev all_filters : List Filter → List Filter
  all_filters sets = enabled_filters value ++ sets ++ provider_filters requirements

  accepts-suits :
      (all_regions : List Region) (only : Bool) (region_sets : List (List ℕ)) {sets : List Filter}
      → region_filters all_regions only region_sets ≡ ok sets
      → (s : Service) → accepts 1 (all_filters sets) s ≡ suits requirements region_sets value s
  accepts-suits all_regions only region_sets {sets} h s =
      accepts-append (enabled_filters value ++ sets) (provider_filters requirements) s
      ∙ conj
          (accepts-append (enabled_filters value) sets s
            ∙ conj (accepts-enabled value s)
                (region_filters-accepts all_regions only region_sets s h))
          (accepts-provides requirements s)
    where
      conj : {a b c d : Bool} → a ≡ b → c ≡ d → (a && c) ≡ (b && d)
      conj h k = rw (h, k) refl

and_assoc : (a b c : Bool) → (a && (b && c)) ≡ (a && b && c)
and_assoc a b c = ground arith

-- If services are found, a test holds of one of them exactly when it holds of one of the given
-- services that is a worker and suits the requirements: it is enabled or disabled as asked for,
-- each region set that is not empty has a region that is mapped to it, and it has the provider
-- types of each platform.
pub get_workers_for_specs-any :
    (worker_topic : ℕ) (services : List Service) (all_regions : List Region)
    (requirements : Dict (List ℕ)) (region_sets : List (List ℕ)) (value : Option Bool)
    (filter_disabled_regions : Bool) {found : List Service} (p : Service → Bool)
    → get_workers_for_specs worker_topic services all_regions requirements region_sets value
        filter_disabled_regions
      ≡ ok found
    → any p found
      ≡ any (λ s. s.topic == worker_topic && suits requirements region_sets value s && p s) services
unfolding get_workers_for_specs
get_workers_for_specs-any worker_topic services all_regions requirements region_sets value only
      {found} p h =
    let (workers, k, h₁) = and_then-ok (get_all_worker_services worker_topic services) _ h in
    let (sets, k', h₂) = and_then-ok (region_filters all_regions only region_sets) _ h₁ in
    let filters = all_filters requirements value sets in
    let (scores, k'', h₃) = and_then-ok (get_weighted_filtered_services workers filters 1) _ h₂ in
    let is_worker = λ (s : Service). ltb 0 (rate_service (topic worker_topic) s) in
    subst
      (λ v.
        any p v
        ≡ any (λ s. s.topic == worker_topic && suits requirements region_sets value s && p s)
            services)
      (ok-injective (map (λ x. x.0) scores) found h₃)
      (any-map_first p scores
        ∙ get_weighted_filtered_services-any p workers filters 1 k''
        ∙ rw (all_workers worker_topic services k) (
            any-select is_worker (λ s. accepts 1 filters s && p s) services
            ∙ any-same _ _ services λ s.
              rw
                (
                  rate-topic worker_topic s,
                  accepts-suits requirements value all_regions only region_sets k' s,
                )
                (and_assoc (s.topic == worker_topic) (suits requirements region_sets value s)
                  (p s))))
