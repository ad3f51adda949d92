-- ===== src/Minions/Select/Suited.antt =====
-- The check of the pools that an action selects, as a property of the pools.
use coriolis.Prelude.{
  ℕ, ◌==◌, leb, Bool, Bool-cases, true, false, not, ◌&&◌, ◌||◌, if◌then◌else◌, elem, select, length,
  all, Dict, List, [], ◌∷◌, Option, none, some, ◌≡◌, refl, ◌∙◌, inl, inr,
}
use coriolis.Action.{Result, ok, err, and_then}
use coriolis.Minions.{Pool}
use coriolis.Minions.Requests.{is_allocated}
use coriolis.Minions.Transfer.{find_pool, instances_by_pool}
use coriolis.Minions.Select.Grouped.{count_of, groups-entries}
use coriolis.Minions.Select.{
  Selection, or_not_found, is_source, check_pool, check_selected, check_osmorphing_pools,
  check_if_selected, validate_minion_pool_selections_for_action,
}

abbrev pub is_ok : {A : Type 0} → Result A → Bool
is_ok (ok a) = true
is_ok (err e) = false

-- A pool serves an endpoint on one side of the transfer, is ALLOCATED, and may have that many
-- machines.
abbrev pub suits :
    (endpoint_id : ℕ) → (for_source for_transfer : Bool) → (machines : ℕ) → Pool → Bool
suits endpoint_id for_source for_transfer machines p =
    p.endpoint_id == endpoint_id
    && (if for_source then is_source p.platform else not (is_source p.platform))
    && (if for_transfer then p.is_linux else true)
    && is_allocated p.status
    && leb machines p.maximum_minions

abbrev pub holds_of : (Pool → Bool) → Option Pool → Bool
holds_of test none = false
holds_of test (some p) = test p

-- The pools of an action suit it: those of its transfers for all its instances, and each pool to
-- which an instance of its own maps for the number of these instances.
abbrev pub selections_suit : List Pool → Selection → Bool
selections_suit pools s =
    let a = s.action in
    let mapped = select (λ e. elem e.0 a.instances) a.instance_osmorphing_minion_pool_mappings in
    (a.origin_minion_pool_id == 0
      || holds_of (suits s.origin_endpoint_id true true (length a.instances))
          (find_pool a.origin_minion_pool_id pools))
    && ((a.destination_minion_pool_id == 0
          || holds_of (suits s.destination_endpoint_id false true (length a.instances))
              (find_pool a.destination_minion_pool_id pools))
        && all
            (λ e.
              holds_of (suits s.destination_endpoint_id false false (count_of e.1 mapped))
                (find_pool e.1 pools))
            mapped)

check_pool-suits :
    (e : ℕ) (a b : Bool) (is : List ℕ) (p : Pool)
    → is_ok (check_pool e a b is p) ≡ suits e a b (length is) p
check_pool-suits e a b is p = elim (Bool-cases (p.endpoint_id == e)) [
  | inr q ↦ rw q refl
  | inl q ↦ elim (Bool-cases (if a then is_source p.platform else not (is_source p.platform))) [
    | inr r ↦ rw (q, r) refl
    | inl r ↦ elim (Bool-cases (if b then p.is_linux else true)) [
      | inr s ↦ rw (q, r, s) refl
      | inl s ↦ elim (Bool-cases (is_allocated p.status)) [
        | inr t ↦ rw (q, r, s, t) refl
        | inl t ↦ elim (Bool-cases (leb (length is) p.maximum_minions)) [
          | inl u ↦ rw (q, r, s, t, u) refl
          | inr u ↦ rw (q, r, s, t, u) refl
        ]
      ]
    ]
  ]
]

is_ok-and_then : (x y : Result (Unit {0})) → is_ok (and_then x (λ _. y)) ≡ (is_ok x && is_ok y)
is_ok-and_then (ok tt) y = refl
is_ok-and_then (err e) y = refl

module _ (pools : List Pool) where
  check_selected-suits :
      (e : ℕ) (a b : Bool) (p : ℕ) (is : List ℕ)
      → is_ok (check_selected pools e a b p is)
        ≡ holds_of (suits e a b (length is)) (find_pool p pools)
  unfolding check_selected
  check_selected-suits e a b p is = found (find_pool p pools)
    where
      found :
          (x : Option Pool)
          → is_ok (and_then (or_not_found x) λ q. check_pool e a b is q)
            ≡ holds_of (suits e a b (length is)) x
      found none = refl
      found (some q) = check_pool-suits e a b is q

  check_if_selected-suits :
      (e : ℕ) (a : Bool) (p : ℕ) (is : List ℕ)
      → is_ok (check_if_selected pools e a p is)
        ≡ (p == 0 || holds_of (suits e a true (length is)) (find_pool p pools))
  check_if_selected-suits e a p is = elim (Bool-cases (p == 0)) [
    | inl q ↦ rw q refl
    | inr q ↦ rw q (check_selected-suits e a true p is)
  ]

  check_osmorphing_pools-suits :
      (e : ℕ) (groups : Dict (List ℕ))
      → is_ok (check_osmorphing_pools pools e groups)
        ≡ all (λ g. holds_of (suits e false false (length g.1)) (find_pool g.0 pools)) groups
  unfolding check_osmorphing_pools all
  check_osmorphing_pools-suits e [] = refl
  check_osmorphing_pools-suits e ((p, is) ∷ more) =
      is_ok-and_then (check_selected pools e false false p is) (check_osmorphing_pools pools e more)
      ∙ rw (check_selected-suits e false false p is, check_osmorphing_pools-suits e more) refl

  -- The check of the pools that an action selects succeeds exactly when they suit it: each serves the
  -- endpoint on its side of the transfer, is ALLOCATED and may have a machine for each instance that
  -- uses it, and those of transfers have machines with Linux.
  pub validate_minion_pool_selections_for_action-suits :
      (s : Selection)
      → is_ok (validate_minion_pool_selections_for_action pools s) ≡ selections_suit pools s
  unfolding validate_minion_pool_selections_for_action
  validate_minion_pool_selections_for_action-suits s =
      let a = s.action in
      let mapped = select (λ e. elem e.0 a.instances) a.instance_osmorphing_minion_pool_mappings in
      let origin =
        check_if_selected pools s.origin_endpoint_id true a.origin_minion_pool_id a.instances in
      let destination =
        check_if_selected pools s.destination_endpoint_id false a.destination_minion_pool_id
          a.instances in
      let osmorphing =
        check_osmorphing_pools pools s.destination_endpoint_id (instances_by_pool mapped []) in
      is_ok-and_then origin (and_then destination (λ _. osmorphing))
      ∙ rw
          (
            is_ok-and_then destination osmorphing,
            check_if_selected-suits s.origin_endpoint_id true a.origin_minion_pool_id a.instances,
            check_if_selected-suits s.destination_endpoint_id false a.destination_minion_pool_id
                a.instances,
            check_osmorphing_pools-suits s.destination_endpoint_id (instances_by_pool mapped []),
            groups-entries
                (λ p n.
                  holds_of (suits s.destination_endpoint_id false false n) (find_pool p pools))
                mapped,
          )
          refl
