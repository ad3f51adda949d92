-- ===== src/Minions/Release/Returned.antt =====
-- What `deallocate_minion_machines_for_action` leaves of the machines.
use coriolis.Prelude.{
  ℕ, ◌==◌, Bool, Bool-cases, true, false, not, ◌||◌, elem, is_some, select, All, Dict, List, [],
  ◌∷◌, ◌++◌, ◌≡◌, refl, arith, inl, inr,
}
use mathlib.Core.List.{append-nil, append_assoc}
use coriolis.Action.{ok, ◌>>=◌}
use coriolis.Minions.{Machine, is_uninitialized, find_machine}
use coriolis.Minions.Rows.{IsFresh, IsDistinct, ids}
use coriolis.Minions.Release.{sort_out, release_pool, release_pools}
use coriolis.Minions.Release.View.{view, ArePresent, onto, set-view, delete-view}
use coriolis.Minions.Release.Grouped.{
  flat, All-left, All-right, IsDistinct-left, IsDistinct-right, has, has-none, has-append,
}

abbrev pub is_new : Machine → Bool
is_new m = is_uninitialized m.allocation_status

abbrev pub is_old : Machine → Bool
is_old m = not (is_uninitialized m.allocation_status)

abbrev dropped : List Machine → List ℕ
dropped xs = ids (select is_new xs)

abbrev kept : List Machine → List ℕ
kept xs = ids (select is_old xs)

-- The machines are still in the view.
abbrev pub IsPresent : List ℕ → List Machine → List Machine → Type 0
IsPresent gone ms = All (λ m. (is_some (find_machine m.id ms) ≡ true) × (elem m.id gone ≡ false))

elem-onto : (i : ℕ) (is gone : List ℕ) → elem i (onto is gone) ≡ (elem i is || elem i gone)
unfolding elem
elem-onto i [] gone = refl
elem-onto i (j ∷ is) gone = rw (elem-onto i is (j ∷ gone)) (ground arith)

module _ (ms : List Machine) where
  pub IsPresent-gone :
      (i : ℕ) (gone : List ℕ) (xs : List Machine)
      → IsFresh i xs
      → IsPresent gone ms xs
      → IsPresent (i ∷ gone) ms xs
  unfolding elem
  IsPresent-gone i gone [] f h = tt
  IsPresent-gone i gone (x ∷ xs) f h =
      let apart : (i == x.id) ≡ false = ground arith in
      ((h.0.0, ground arith), IsPresent-gone i gone xs f.1 h.1)

  sort_out-view :
      (xs : List Machine) (found gone freed : List ℕ)
      → IsDistinct xs
      → IsPresent gone ms xs
      → sort_out xs found (view gone freed ms)
        ≡ (ok (found ++ kept xs), view (onto (dropped xs) gone) freed ms)
  unfolding sort_out select ◌>>=◌
  sort_out-view [] found gone freed d h = rw append-nil refl
  sort_out-view (x ∷ xs) found gone freed d h =
      elim (Bool-cases (is_uninitialized x.allocation_status)) [
        | inl q ↦
            rw (q, delete-view gone ms freed x.id h.0.0 h.0.1)
              (sort_out-view xs found (x.id ∷ gone) freed d.1 (IsPresent-gone x.id gone xs d.0 h.1))
        | inr q ↦
            rw q (
              rw (sort_out-view xs (found ++ (x.id ∷ [])) gone freed d.1 h.1)
                (rw append_assoc refl))
      ]

  -- A machine that is kept is none of those that are dropped.
  fresh-dropped : (i : ℕ) (xs : List Machine) → IsFresh i xs → elem i (dropped xs) ≡ false
  unfolding select elem
  fresh-dropped i [] f = refl
  fresh-dropped i (x ∷ xs) f = ground (arith, fresh-dropped i xs f.1)

  fresh-kept :
      (i : ℕ) (gone : List ℕ) (xs : List Machine)
      → IsFresh i xs
      → ArePresent gone ms (kept xs)
      → ArePresent (i ∷ gone) ms (kept xs)
  unfolding select elem
  fresh-kept i gone [] f h = tt
  fresh-kept i gone (x ∷ xs) f h = elim (Bool-cases (is_uninitialized x.allocation_status)) [
    | inl q ↦ rw q (fresh-kept i gone xs f.1 (rw q at h))
    | inr q ↦
        let h' = rw q at h in
        let apart : (i == x.id) ≡ false = ground arith in
        rw q ((h'.0.0, rw apart h'.0.1), fresh-kept i gone xs f.1 h'.1)
  ]

  kept-present :
      (gone : List ℕ) (xs : List Machine)
      → IsDistinct xs
      → IsPresent gone ms xs
      → ArePresent (onto (dropped xs) gone) ms (kept xs)
  unfolding select elem
  kept-present gone [] d h = tt
  kept-present gone (x ∷ xs) d h = elim (Bool-cases (is_uninitialized x.allocation_status)) [
    | inl q ↦ rw q (kept-present (x.id ∷ gone) xs d.1 (IsPresent-gone x.id gone xs d.0 h.1))
    | inr q ↦ rw q (
      (h.0.0, rw (elem-onto x.id (dropped xs) gone, fresh-dropped x.id xs d.0) h.0.1),
      kept-present gone xs d.1 h.1,
    )
  ]

  module _ (d : IsDistinct ms) where
    release_pool-view :
        (xs : List Machine) (gone freed : List ℕ)
        → IsDistinct xs
        → IsPresent gone ms xs
        → release_pool xs (view gone freed ms)
          ≡ (ok tt, view (onto (dropped xs) gone) (onto (kept xs) freed) ms)
    unfolding release_pool ◌>>=◌
    release_pool-view xs gone freed e h =
        rw (sort_out-view xs [] gone freed e h)
          (set-view (onto (dropped xs) gone) ms freed (kept xs) d (kept-present gone xs e h))

    -- Dropping the machines of one list does not touch those of another.
    IsPresent-after :
        (xs ys : List Machine) (gone : List ℕ)
        → IsDistinct (xs ++ ys)
        → IsPresent gone ms ys
        → IsPresent (onto (dropped xs) gone) ms ys
    unfolding select
    IsPresent-after [] ys gone e h = h
    IsPresent-after (x ∷ xs) ys gone e h =
        elim (Bool-cases (is_uninitialized x.allocation_status)) [
          | inl q ↦ rw q (
              IsPresent-after xs ys (x.id ∷ gone) e.1
                (IsPresent-gone x.id gone ys (All-right (λ m. (m.id == x.id) ≡ false) xs ys e.0) h))
          | inr q ↦ rw q (IsPresent-after xs ys gone e.1 h)
        ]

    pub all_gone : Dict (List Machine) → List ℕ → List ℕ
    all_gone [] gone = gone
    all_gone ((pool_id, xs) ∷ pools) gone = all_gone pools (onto (dropped xs) gone)

    pub all_freed : Dict (List Machine) → List ℕ → List ℕ
    all_freed [] freed = freed
    all_freed ((pool_id, xs) ∷ pools) freed = all_freed pools (onto (kept xs) freed)

    pub release_pools-view :
        (pools : Dict (List Machine)) (gone freed : List ℕ)
        → IsDistinct (flat pools)
        → IsPresent gone ms (flat pools)
        → release_pools pools (view gone freed ms)
          ≡ (ok tt, view (all_gone pools gone) (all_freed pools freed) ms)
    unfolding release_pools all_gone all_freed ◌>>=◌
    release_pools-view [] gone freed e h = refl
    release_pools-view ((pool_id, xs) ∷ pools) gone freed e h =
        let P : Machine → Type 0 =
          λ m. (is_some (find_machine m.id ms) ≡ true) × (elem m.id gone ≡ false) in
        let right = All-right P xs (flat pools) h in
        rw
          (release_pool-view xs gone freed (IsDistinct-left xs (flat pools) e)
            (All-left P xs (flat pools) h))
          (release_pools-view pools (onto (dropped xs) gone) (onto (kept xs) freed)
            (IsDistinct-right xs (flat pools) e) (IsPresent-after xs (flat pools) gone e right))

    pub elem-all_gone :
        (j : ℕ) (pools : Dict (List Machine)) (gone : List ℕ)
        → elem j (all_gone pools gone) ≡ (has is_new j (flat pools) || elem j gone)
    unfolding all_gone
    elem-all_gone j [] gone = rw (has-none is_new j) refl
    elem-all_gone j ((pool_id, xs) ∷ pools) gone =
        rw
          (
            elem-all_gone j pools (onto (dropped xs) gone),
            elem-onto j (dropped xs) gone,
            has-append is_new j xs (flat pools),
          )
          (ground arith)

    pub elem-all_freed :
        (j : ℕ) (pools : Dict (List Machine)) (freed : List ℕ)
        → elem j (all_freed pools freed) ≡ (has is_old j (flat pools) || elem j freed)
    unfolding all_freed
    elem-all_freed j [] freed = rw (has-none is_old j) refl
    elem-all_freed j ((pool_id, xs) ∷ pools) freed =
        rw
          (
            elem-all_freed j pools (onto (kept xs) freed),
            elem-onto j (kept xs) freed,
            has-append is_old j xs (flat pools),
          )
          (ground arith)
