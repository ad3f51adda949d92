-- ===== src/Minions/Transfer/Freed.antt =====
-- An allocation that fails leaves no machine with the action.
use coriolis.Prelude.{
  ℕ, ◌==◌, Bool, true, false, not, ◌&&◌, elem, is_some, select, All, All-map, Dict, List, [], ◌∷◌,
  ◌++◌, ◌≡◌, refl, arith,
}
use coriolis.Action.{Error, Result, ok, err, ◌>>=◌}
use coriolis.Minions.{Machine, Pool, is_uninitialized, is_action, find_machine, machines_of_action}
use coriolis.Minions.Rows.{IsFresh, IsDistinct, IsDistinct-select}
use coriolis.Minions.Release.{
  by_pool, delete_each, delete_pools, cleanup_machines_with_statuses_for_action,
}
use coriolis.Minions.Release.View.{view, delete-view}
use coriolis.Minions.Release.Grouped.{
  flat, All-left, All-right, All-by_pool, IsDistinct-left, IsDistinct-right, by_pool-IsDistinct,
}
use coriolis.Minions.Release.Returned.{IsPresent, IsPresent-gone}
use coriolis.Minions.Release.GivenBack.{
  given_back, deallocate_minion_machines_for_action-given_back, view-all, found_self, All-select,
}
use coriolis.Minions.Transfer.{
  TransferAction, Allocations, Elsewhere, Board, or_clean_up, clean_up, allocate_minion_machines,
  run_machine_allocation_subflow_for_action,
}
use coriolis.Minions.Transfer.Runs.{run-IsDistinct}

IsFresh-view :
    (i : ℕ) (gone freed : List ℕ) (ms : List Machine)
    → IsFresh i ms
    → IsFresh i (view gone freed ms)
unfolding view
IsFresh-view i gone freed [] h = tt
IsFresh-view i gone freed (m ∷ ms) h = ground (arith, IsFresh-view i gone freed ms)

IsDistinct-view :
    (gone freed : List ℕ) (ms : List Machine) → IsDistinct ms → IsDistinct (view gone freed ms)
unfolding view
IsDistinct-view gone freed [] d = tt
IsDistinct-view gone freed (m ∷ ms) d =
    ground (arith, IsDistinct-view gone freed ms, IsFresh-view m.id gone freed ms)

module _ (ms : List Machine) (freed : List ℕ) where
  -- The machines of the list that are deleted, one after another.
  abbrev after : List Machine → List ℕ → List ℕ
  after [] gone = gone
  after (x ∷ xs) gone = after xs (x.id ∷ gone)

  IsPresent-deleted :
      (xs ys : List Machine) (gone : List ℕ)
      → IsDistinct (xs ++ ys)
      → IsPresent gone ms ys
      → IsPresent (after xs gone) ms ys
  IsPresent-deleted [] ys gone d h = h
  IsPresent-deleted (x ∷ xs) ys gone d h =
      IsPresent-deleted xs ys (x.id ∷ gone) d.1
        (IsPresent-gone ms x.id gone ys (All-right (λ m. (m.id == x.id) ≡ false) xs ys d.0) h)

  delete_each-view :
      (xs : List Machine) (gone : List ℕ)
      → IsDistinct xs
      → IsPresent gone ms xs
      → delete_each xs (view gone freed ms) ≡ (ok tt, view (after xs gone) freed ms)
  unfolding delete_each ◌>>=◌
  delete_each-view [] gone d h = refl
  delete_each-view (x ∷ xs) gone d h =
      rw (delete-view gone ms freed x.id h.0.0 h.0.1)
        (delete_each-view xs (x.id ∷ gone) d.1 (IsPresent-gone ms x.id gone xs d.0 h.1))

  abbrev all_after : Dict (List Machine) → List ℕ → List ℕ
  all_after [] gone = gone
  all_after ((pool_id, xs) ∷ pools) gone = all_after pools (after xs gone)

  delete_pools-view :
      (pools : Dict (List Machine)) (gone : List ℕ)
      → IsDistinct (flat pools)
      → IsPresent gone ms (flat pools)
      → delete_pools pools (view gone freed ms) ≡ (ok tt, view (all_after pools gone) freed ms)
  unfolding delete_pools ◌>>=◌
  delete_pools-view [] gone d h = refl
  delete_pools-view ((pool_id, xs) ∷ pools) gone d h =
      let P : Machine → Type 0 =
        λ m. (is_some (find_machine m.id ms) ≡ true) × (elem m.id gone ≡ false) in
      let right = All-right P xs (flat pools) h in
      rw
        (delete_each-view xs gone (IsDistinct-left xs (flat pools) d)
          (All-left P xs (flat pools) h))
        (delete_pools-view pools (after xs gone) (IsDistinct-right xs (flat pools) d)
          (IsPresent-deleted xs (flat pools) gone d right))

given_back-none :
    (action : ℕ) (ms : List Machine) → machines_of_action action (given_back action ms) ≡ []
unfolding machines_of_action select
given_back-none action [] = refl
given_back-none action (m ∷ ms) = ground (arith, given_back-none action ms)

module _ (action : ℕ) where
  abbrev targeted : Machine → Bool
  targeted m = is_uninitialized m.allocation_status && not (elem m.pool_id [])

  -- The rows that are removed are those of machines that were never deployed.
  abbrev removed : List Machine → List ℕ
  removed ms = all_after ms [] (by_pool (select targeted (machines_of_action action ms)) []) []

  cleanup-view :
      (ms : List Machine)
      → IsDistinct ms
      → cleanup_machines_with_statuses_for_action action is_uninitialized [] ms
        ≡ (ok tt, view (removed ms) [] ms)
  unfolding cleanup_machines_with_statuses_for_action machines_of_action elem
  cleanup-view ms d =
      let of_action : Machine → Bool = λ m. is_action action m.allocated_action in
      let old = select targeted (select of_action ms) in
      let P : Machine → Type 0 =
        λ m. (is_some (find_machine m.id ms) ≡ true) × (elem m.id [] ≡ false) in
      let present : All P ms = All-map (λ m h. (rw h refl, refl)) ms (found_self ms d) in
      let deleted =
        delete_pools-view ms [] (by_pool old []) []
          (by_pool-IsDistinct old
            (IsDistinct-select targeted (select of_action ms) (IsDistinct-select of_action ms d)))
          (All-by_pool P old []
            (All-select P targeted (select of_action ms) (All-select P of_action ms present)) tt) in
      rw (view-all ms) at deleted

  clean_up_lem :
      (e : Error) (s : Board)
      → IsDistinct s.machines
      → clean_up action e s ≡ (
        err e,
        record s {
          machines = given_back action (view (removed s.machines) [] s.machines);
          allocation_errors = action ∷ s.allocation_errors;
        },
      )
  unfolding clean_up ◌>>=◌
  clean_up_lem e s d =
      let ms = view (removed s.machines) [] s.machines in
      rw
        (
          cleanup-view s.machines d,
          deallocate_minion_machines_for_action-given_back action ms
              (IsDistinct-view (removed s.machines) [] s.machines d),
        )
        refl

  or_clean_up-freed :
      (r : Result Allocations) (s : Board) {e : Error}
      → IsDistinct s.machines
      → (or_clean_up action r s).0 ≡ err e
      → (machines_of_action action (or_clean_up action r s).1.machines ≡ [])
        × ((or_clean_up action r s).1.allocation_errors ≡ action ∷ s.allocation_errors)
  or_clean_up-freed (ok a) s d h = absurd (cc)
  or_clean_up-freed (err e) s d h =
      rw (clean_up_lem e s d)
        (given_back-none action (view (removed s.machines) [] s.machines), refl)

-- If an allocation for an action raises, for whatever reason, no machine is left with the action, and
-- the error is reported to the conductor once.
pub allocate_minion_machines-freed :
    (o : Elsewhere) (pools : List Pool) (action : TransferAction) (b c : Bool) (s : Board)
    {e : Error}
    → IsDistinct s.machines
    → (allocate_minion_machines o pools action b c s).0 ≡ err e
    → (machines_of_action action.id (allocate_minion_machines o pools action b c s).1.machines ≡ [])
      × ((allocate_minion_machines o pools action b c s).1.allocation_errors
          ≡ action.id ∷ s.allocation_errors)
unfolding allocate_minion_machines
allocate_minion_machines-freed o pools action b c s d h =
    let run = run_machine_allocation_subflow_for_action o pools action b c s.machines in
    or_clean_up-freed action.id run.0 (record s { machines = run.1 })
      (run-IsDistinct o pools action b c s.machines d) h
