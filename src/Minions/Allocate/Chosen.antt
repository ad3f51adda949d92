-- ===== src/Minions/Allocate/Chosen.antt =====
-- The machines that the loop over the instances chooses: the available ones in their order, then
-- new ones.
use coriolis.Prelude.{
  ℕ, Bool, false, not, ◌||◌, ◌&&◌, if◌then◌else◌, any, elem, is_some, Option-cases, select, All,
  Dict, lookup, insert, lookup-insert, List, [], ◌∷◌, ◌++◌, Option, none, some, ◌≡◌, refl, arith,
  inl, inr,
}
use coriolis.Action.{ok, err, invalid_input}
use coriolis.Minions.{Machine, is_available}
use coriolis.Minions.Rows.{IsFresh, IsDistinct, elem-append}
use coriolis.Minions.Allocate.{
  Plan, no_plan, Outside, values, new_machine, use_machine, create_machine, select_machine,
  plan_machines,
}

-- The machines that may be chosen.
unfoldable pub free : List Machine → List ℕ → List Machine
free ms exclude = select (λ m. not (elem m.id exclude) && is_available m.allocation_status) ms

abbrev first : List Machine → Option Machine
first [] = none
first (m ∷ ms) = some m

select-first :
    (ms : List Machine) (exclude : List ℕ) → select_machine ms exclude ≡ first (free ms exclude)
unfolding select_machine free select
select-first [] exclude = refl
select-first (m ∷ ms) exclude = ground (arith, select-first ms exclude)

free-fresh :
    (u : ℕ) (ms : List Machine) (exclude : List ℕ)
    → IsFresh u ms
    → free ms (exclude ++ (u ∷ [])) ≡ free ms exclude
unfolding free select
free-fresh u [] exclude h = refl
free-fresh u (m ∷ ms) exclude h =
    ground (arith, elem-append m.id u exclude, free-fresh u ms exclude)

free-next :
    (ms : List Machine) (exclude : List ℕ) {m : Machine} {rest : List Machine}
    → IsDistinct ms
    → free ms exclude ≡ m ∷ rest
    → free ms (exclude ++ (m.id ∷ [])) ≡ rest
unfolding free select
free-next [] exclude d e = cc
free-next (n ∷ ms) exclude {m} {rest} d e = ground (
  arith,
  elem-append n.id m.id exclude,
  free-fresh n.id ms exclude,
  free-next ms exclude {m = m} {rest = rest} d.1,
)

values-insert :
    (i v : ℕ) (d : Dict ℕ) → lookup i d ≡ none → values (insert i v d) ≡ values d ++ (v ∷ [])
unfolding lookup insert
values-insert i v [] h = refl
values-insert i v ((j, w) ∷ d) h = ground (arith, values-insert i v d)

-- An instance occurs twice.
unfoldable pub has_repeat : List ℕ → Bool
has_repeat [] = false
has_repeat (i ∷ is) = elem i is || has_repeat is

any-insert :
    (i v : ℕ) (d : Dict ℕ) (is : List ℕ)
    → any (λ j. is_some (lookup j (insert i v d))) is
      ≡ (elem i is || any (λ j. is_some (lookup j d)) is)
unfolding any elem
any-insert i v d [] = refl
any-insert i v d (j ∷ is) = ground (arith, lookup-insert i j v d, any-insert i v d is)

none-known : (is : List ℕ) → any (λ j. is_some (lookup j no_plan.allocations)) is ≡ false
unfolding any lookup
none-known [] = refl
none-known (i ∷ is) = none-known is

free-all : (ms : List Machine) → free ms [] ≡ select (λ m. is_available m.allocation_status) ms
unfolding free elem
free-all ms = refl

module _ (o : Outside) (pool_id action : ℕ) where
  -- The machines of the list are used up one by one, and then new ones are made.
  unfoldable pub pair_up : List Machine → List ℕ → Plan → Plan
  pair_up ms [] p = p
  pair_up [] (i ∷ is) p = pair_up [] is (create_machine i (new_machine pool_id action (o.uuid i)) p)
  pair_up (m ∷ ms) (i ∷ is) p = pair_up ms is (use_machine i m p)

  -- `uuid4` gives no identifier that a machine of the list has.
  abbrev pub IsNew : List Machine → ℕ → Type 0
  IsNew ms i = IsFresh (o.uuid i) ms

  -- An instance of the list is in the dictionary, or occurs twice.
  abbrev meets : List ℕ → Dict ℕ → Bool
  meets is d = any (λ j. is_some (lookup j d)) is || has_repeat is

  meets-next :
      (i v : ℕ) (is : List ℕ) (d : Dict ℕ)
      → lookup i d ≡ none
      → meets (i ∷ is) d ≡ meets is (insert i v d)
  unfolding any has_repeat
  meets-next i v is d h = ground (arith, any-insert i v d is)

  module _ (ms : List Machine) (d : IsDistinct ms) where
    chosen :
        (p : Plan) {avail : List Machine}
        → free ms (values p.allocations) ≡ avail
        → select_machine ms (values p.allocations) ≡ first avail
    chosen p e = rw (← e) (select-first ms (values p.allocations))

    created :
        (i : ℕ) (p : Plan) {avail : List Machine}
        → IsNew ms i
        → lookup i p.allocations ≡ none
        → free ms (values p.allocations) ≡ avail
        → free ms (values (insert i (o.uuid i) p.allocations)) ≡ avail
    created i p n h e =
        rw
          (
            values-insert i (o.uuid i) p.allocations h,
            free-fresh (o.uuid i) ms (values p.allocations) n,
          )
          e

    used :
        (i : ℕ) (p : Plan) {m : Machine} {avail : List Machine}
        → lookup i p.allocations ≡ none
        → free ms (values p.allocations) ≡ m ∷ avail
        → free ms (values (insert i m.id p.allocations)) ≡ avail
    used i p {m} h e =
        rw (values-insert i m.id p.allocations h) (free-next ms (values p.allocations) d e)

    plan_machines-by :
        (avail : List Machine) (is : List ℕ) (p : Plan)
        → All (IsNew ms) is
        → free ms (values p.allocations) ≡ avail
        → plan_machines o pool_id action ms is p
          ≡ (if meets is p.allocations then err invalid_input else ok (pair_up avail is p))
    unfolding plan_machines pair_up any has_repeat
    plan_machines-by [] [] p n e = refl
    plan_machines-by (m ∷ avail) [] p n e = refl
    plan_machines-by [] (i ∷ is) p n e = elim (Option-cases (lookup i p.allocations)) [
      | inr (v, h) ↦ rw h refl
      | inl h ↦
          rw (chosen p e, meets-next i (o.uuid i) is p.allocations h)
            (rw h (
              plan_machines-by [] is (create_machine i (new_machine pool_id action (o.uuid i)) p)
                n.1 (created i p n.0 h e)))
    ]
    plan_machines-by (m ∷ avail) (i ∷ is) p n e = elim (Option-cases (lookup i p.allocations)) [
      | inr (v, h) ↦ rw h refl
      | inl h ↦
          rw (chosen p e, meets-next i m.id is p.allocations h)
            (rw h (plan_machines-by avail is (use_machine i m p) n.1 (used i p h e)))
    ]

    -- The loop chooses the available machines in their order and then new ones, and it raises if an
    -- instance occurs twice.
    pub plan_machines-pair_up :
        (is : List ℕ)
        → All (IsNew ms) is
        → plan_machines o pool_id action ms is no_plan ≡ (
            if has_repeat is
            then err invalid_input
            else ok (pair_up (select (λ m. is_available m.allocation_status) ms) is no_plan))
    plan_machines-pair_up is n =
        rw (plan_machines-by (free ms []) is no_plan n refl, none-known is, free-all ms) refl
