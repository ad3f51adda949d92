-- ===== src/Minions/Release/GivenBack.antt =====
-- A description of what an action gives back, without the groups and the identifiers of the code.
use coriolis.Prelude.{
  ℕ, ◌==◌, ==_refl, Bool, Bool-cases, true, false, ◌&&◌, ◌||◌, if◌then◌else◌, elem, is_some, select,
  All, All-map, List, [], ◌∷◌, none, some, ◌≡◌, refl, ap, ◌∙◌, arith, inl, inr,
}
use coriolis.Action.{ok}
use coriolis.Minions.{Machine, is_uninitialized, is_action, find_machine, machines_of_action}
use coriolis.Minions.Rows.{IsFresh, IsDistinct, filtered, find-select, elem-ids, IsDistinct-select}
use coriolis.Minions.Release.{by_pool, deallocate_minion_machines_for_action}
use coriolis.Minions.Release.View.{release, view}
use coriolis.Minions.Release.Grouped.{
  flat, All-by_pool, by_pool-IsDistinct, has, has-none, has-by_pool,
}
use coriolis.Minions.Release.Returned.{
  is_new, is_old, IsPresent, all_gone, all_freed, release_pools-view, elem-all_gone, elem-all_freed,
}

-- A machine of the action is dropped if it was never deployed, and is available otherwise.
abbrev pub given_back : ℕ → List Machine → List Machine
given_back action [] = []
given_back action (m ∷ ms) =
    if is_action action m.allocated_action
    then (if is_uninitialized m.allocation_status
        then given_back action ms
        else release m ∷ given_back action ms)
    else m ∷ given_back action ms

pub view-all : (ms : List Machine) → view [] [] ms ≡ ms
unfolding view elem
view-all [] = refl
view-all (m ∷ ms) = rw (view-all ms) refl

-- Each machine is found by its identifier.
abbrev pub AreFound : List Machine → List Machine → Type 0
AreFound ms = All (λ m. find_machine m.id ms ≡ some m)

found-cons :
    (u : Machine) (ms xs : List Machine) → IsFresh u.id xs → AreFound ms xs → AreFound (u ∷ ms) xs
unfolding find_machine
found-cons u ms [] f h = tt
found-cons u ms (x ∷ xs) f h =
    let apart : (u.id == x.id) ≡ false = ground arith in (rw apart h.0, found-cons u ms xs f.1 h.1)

pub found_self : (ms : List Machine) → IsDistinct ms → AreFound ms ms
unfolding find_machine
found_self [] d = tt
found_self (m ∷ ms) d = (rw (==_refl m.id) refl, found-cons m ms ms d.0 (found_self ms d.1))

two_tests :
    (a : Bool) (p : Machine → Bool) (m : Machine)
    → (is_some (filtered p (if a then some m else none)) || false) ≡ (a && p m)
two_tests a p m = ground arith

pub All-select :
    (P : Machine → Type 0) (p : Machine → Bool) (xs : List Machine) → All P xs → All P (select p xs)
unfolding select
All-select P p [] h = tt
All-select P p (x ∷ xs) h = elim (Bool-cases (p x)) [
  | inl q ↦ rw q (h.0, All-select P p xs h.1)
  | inr q ↦ rw q (All-select P p xs h.1)
]

module _ (action : ℕ) where
  abbrev of_action : Machine → Bool
  of_action m = is_action action m.allocated_action

  view-given_back :
      (gone freed : List ℕ) (xs : List Machine)
      → All
          (λ m.
            (elem m.id gone ≡ (of_action m && is_new m))
            × (elem m.id freed ≡ (of_action m && is_old m)))
          xs
      → view gone freed xs ≡ given_back action xs
  unfolding view
  view-given_back gone freed [] h = refl
  view-given_back gone freed (m ∷ xs) h = ground (arith, view-given_back gone freed xs h.1)

  module _ (ms : List Machine) (d : IsDistinct ms) where
    has-of_action :
        (p : Machine → Bool) (m : Machine)
        → find_machine m.id ms ≡ some m
        → has p m.id (flat (by_pool (machines_of_action action ms) [])) ≡ (of_action m && p m)
    unfolding machines_of_action
    has-of_action p m h =
        rw
          (
            has-by_pool p m.id (machines_of_action action ms) [],
            has-none p m.id,
            elem-ids m.id (select p (select of_action ms)),
            find-select p m.id (select of_action ms) (IsDistinct-select of_action ms d),
            find-select of_action m.id ms d,
            h,
          )
          (two_tests (of_action m) p m)

    present : IsPresent [] ms (machines_of_action action ms)
    unfolding machines_of_action elem
    present =
        let P : Machine → Type 0 =
          λ m. (is_some (find_machine m.id ms) ≡ true) × (elem m.id [] ≡ false) in
        All-select P of_action ms (All-map (λ m h. (rw h refl, refl)) ms (found_self ms d))

    at_machine :
        (m : Machine)
        → find_machine m.id ms ≡ some m
        → (elem m.id (all_gone ms d (by_pool (machines_of_action action ms) []) [])
            ≡ (of_action m && is_new m))
          × (elem m.id (all_freed ms d (by_pool (machines_of_action action ms) []) [])
              ≡ (of_action m && is_old m))
    unfolding elem
    at_machine m h = (
      rw
          (
            elem-all_gone ms d m.id (by_pool (machines_of_action action ms) []) [],
            has-of_action is_new m h,
          )
          (ground arith),
      rw
          (
            elem-all_freed ms d m.id (by_pool (machines_of_action action ms) []) [],
            has-of_action is_old m h,
          )
          (ground arith),
    )

    machines_of_action-IsDistinct : IsDistinct (machines_of_action action ms)
    unfolding machines_of_action
    machines_of_action-IsDistinct = IsDistinct-select of_action ms d

    -- The machines of an action are given back as described, and nothing is raised.
    pub deallocate_minion_machines_for_action-given_back :
        deallocate_minion_machines_for_action action ms ≡ (ok tt, given_back action ms)
    unfolding deallocate_minion_machines_for_action
    deallocate_minion_machines_for_action-given_back =
        let old = machines_of_action action ms in
        let pools = by_pool old [] in
        let gone = all_gone ms d pools [] in
        let freed = all_freed ms d pools [] in
        let P : Machine → Type 0 =
          λ m. (is_some (find_machine m.id ms) ≡ true) × (elem m.id [] ≡ false) in
        let released =
          release_pools-view ms d pools [] [] (by_pool-IsDistinct old machines_of_action-IsDistinct)
            (All-by_pool P old [] present tt) in
        (rw (view-all ms) at released)
        ∙ ap (λ l. (ok tt, l))
            (view-given_back gone freed ms (All-map at_machine ms (found_self ms d)))
