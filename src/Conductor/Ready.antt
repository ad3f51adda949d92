-- ===== src/Conductor/Ready.antt =====
-- When `_advance_execution_state` starts a task that has parents, described without its tests.
use coriolis.Prelude.{
  ℕ, Bool, Bool-cases, true, false, not, if◌then◌else◌, all, any, select, elem, is_empty, List, [],
  ◌∷◌, ◌≡◌, ◌↔◌, refl, ◌⊎◌, inl, inr, arith, All, Some, all-All, All-all, any-Some, Some-any,
  All-map, Some-map,
}
use coriolis.Constants.{TaskStatus, is_finalized_task, is_completed, is_unscheduled}
use coriolis.Db.{Statuses}
use coriolis.Conductor.Advance.{Decision, decide_from_parents}

-- The parents of a task, each with its status, let the task start.
pub record AllowsStart (on_error : List ℕ) (task_id : ℕ) (parents : Statuses) : Type 0 where
  -- They have all reached a terminal state.
  pub finalized : All (λ p. is_finalized_task p.1 ≡ true) parents
  -- A plain task wants them all to be completed.
  pub plain : elem task_id on_error ≡ false → All (λ p. p.1 ≡ TaskStatus.completed) parents
  -- A cleanup task wants one of them to be completed, and that one to be a plain task unless all
  -- the parents are cleanup tasks.
  pub cleanup :
      elem task_id on_error ≡ true
      → Some (λ p. (p.1 ≡ TaskStatus.completed) × (elem p.0 on_error ≡ false)) parents
        ⊎ Some (λ p. p.1 ≡ TaskStatus.completed) parents
          × All (λ p. elem p.0 on_error ≡ true) parents

completed-eq : (st : TaskStatus) → is_completed st ≡ true → st ≡ TaskStatus.completed
completed-eq st h = ground arith

eq-completed : (st : TaskStatus) → st ≡ TaskStatus.completed → is_completed st ≡ true
eq-completed st h = rw h

module _ (on_error : List ℕ) where
  abbrev is_plain : ℕ × TaskStatus → Bool
  is_plain p = not (elem p.0 on_error)

  -- A completed plain parent.
  select-Some :
      (ps : Statuses)
      → any (λ p. is_completed p.1) (select is_plain ps) ≡ true
      → Some (λ p. (p.1 ≡ TaskStatus.completed) × (elem p.0 on_error ≡ false)) ps
  unfolding any select
  select-Some [] h = cc
  select-Some ((i, st) ∷ ps) h = elim (Bool-cases (elem i on_error)) [
    | inl e ↦ inr (select-Some ps (rw (e, if◌then◌else◌, not) at h))
    | inr e ↦ ground (arith, select-Some ps, completed-eq st)
  ]

  Some-select :
      (ps : Statuses)
      → Some (λ p. (p.1 ≡ TaskStatus.completed) × (elem p.0 on_error ≡ false)) ps
      → any (λ p. is_completed p.1) (select is_plain ps) ≡ true
  unfolding any select
  Some-select [] h = absurd h
  Some-select (p ∷ ps) (inl (c, e)) = rw (e, c)
  Some-select (p ∷ ps) (inr h) = ground (arith, Some-select ps h)

  -- No plain parents at all.
  select-none :
      (ps : Statuses)
      → is_empty (select is_plain ps) ≡ true
      → All (λ p. elem p.0 on_error ≡ true) ps
  unfolding select
  select-none [] h = tt
  select-none (p ∷ ps) h = ground (arith, select-none ps)

  none-select :
      (ps : Statuses)
      → All (λ p. elem p.0 on_error ≡ true) ps
      → is_empty (select is_plain ps) ≡ true
  unfolding select
  none-select [] h = refl
  none-select (p ∷ ps) h = ground (arith, none-select ps)

-- What the tests say where a task is started.
record Tests (on_error : List ℕ) (task_id : ℕ) (ps : Statuses) : Type 0 where
  all_finalized : all (λ p. is_finalized_task p.1) ps ≡ true
  all_completed : elem task_id on_error ≡ false → all (λ p. is_completed p.1) ps ≡ true
  some_completed :
      elem task_id on_error ≡ true
      → (any (λ p. is_completed p.1) (select (is_plain on_error) ps) ≡ true)
        ⊎ (any (λ p. is_completed p.1) ps ≡ true)
          × (is_empty (select (is_plain on_error) ps) ≡ true)

decide-Tests :
    (on_error : List ℕ) (task_id : ℕ) (ps : Statuses)
    → decide_from_parents on_error task_id ps ≡ Decision.start
    → Tests on_error task_id ps
unfolding decide_from_parents
decide-Tests on_error task_id ps h = ground arith

some-unscheduled :
    (ps : Statuses)
    → Some (λ p. p.1 ≡ TaskStatus.completed) ps
    → all (λ p. is_unscheduled p.1) ps ≡ false
unfolding all
some-unscheduled [] h = absurd h
some-unscheduled (p ∷ ps) (inl e) = rw e
some-unscheduled (p ∷ ps) (inr h) = ground (arith, some-unscheduled ps h)

Tests-decide :
    (on_error : List ℕ) (task_id : ℕ) (ps : Statuses)
    → all (λ p. is_unscheduled p.1) ps ≡ false
    → Tests on_error task_id ps
    → decide_from_parents on_error task_id ps ≡ Decision.start
unfolding decide_from_parents
Tests-decide on_error task_id ps h t = ground arith

module _ (on_error : List ℕ) (task_id : ℕ) (p : ℕ × TaskStatus) (ps : Statuses) where
  decide-AllowsStart :
      decide_from_parents on_error task_id (p ∷ ps) ≡ Decision.start
      → AllowsStart on_error task_id (p ∷ ps)
  decide-AllowsStart h =
      let t = decide-Tests on_error task_id (p ∷ ps) h in
      record {
        finalized = all-All _ (p ∷ ps) t.all_finalized;
        plain =
            λ e. All-map (λ q. completed-eq q.1) (p ∷ ps) (all-All _ (p ∷ ps) (t.all_completed e));
        cleanup = λ e. elim (t.some_completed e) [
          | inl s ↦ inl (select-Some on_error (p ∷ ps) s)
          | inr (s, n) ↦ inr (
            Some-map (λ q. completed-eq q.1) (p ∷ ps) (any-Some _ (p ∷ ps) s),
            select-none on_error (p ∷ ps) n,
          )
        ];
      }

  one-completed :
      AllowsStart on_error task_id (p ∷ ps) → Some (λ q. q.1 ≡ TaskStatus.completed) (p ∷ ps)
  one-completed a = elim (Bool-cases (elem task_id on_error)) [
    | inl e ↦ elim (a.cleanup e) [ inl s ↦ Some-map (λ q h. h.0) (p ∷ ps) s | inr (s, _) ↦ s ]
    | inr e ↦ inl (a.plain e).0
  ]

  AllowsStart-decide :
      AllowsStart on_error task_id (p ∷ ps)
      → decide_from_parents on_error task_id (p ∷ ps) ≡ Decision.start
  AllowsStart-decide a =
      Tests-decide on_error task_id (p ∷ ps) (some-unscheduled (p ∷ ps) (one-completed a)) (record {
        all_finalized = All-all _ (p ∷ ps) a.finalized;
        all_completed =
            λ e. All-all _ (p ∷ ps) (All-map (λ q. eq-completed q.1) (p ∷ ps) (a.plain e));
        some_completed = λ e. elim (a.cleanup e) [
          | inl s ↦ inl (Some-select on_error (p ∷ ps) s)
          | inr (s, n) ↦ inr (
            Some-any _ (p ∷ ps) (Some-map (λ q. eq-completed q.1) (p ∷ ps) s),
            none-select on_error (p ∷ ps) n,
          )
        ];
      })

  -- A scheduled task with at least one parent is started exactly when its parents allow it: they
  -- are all in a terminal state, and all completed for a plain task; for a cleanup task one
  -- completed, which is a plain task or else no parent is.
  pub decide_from_parents-start :
      decide_from_parents on_error task_id (p ∷ ps) ≡ Decision.start
      ↔ AllowsStart on_error task_id (p ∷ ps)
  decide_from_parents-start = (decide-AllowsStart, AllowsStart-decide)
