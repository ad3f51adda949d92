-- ===== src/Conductor/FirstStatus.antt =====
-- conductor/rpc/server.py, `_create_task`: when a new task is scheduled at once.
use coriolis.Prelude.{
  ℕ, ◌==◌, ==→≡, ==_refl, Bool, true, false, not, ◌&&◌, any, is_empty, List, ◌≡◌, refl, ◌⊎◌, inl,
  inr, ◌↔◌, arith, Some, any-Some, Some-any, Some-map,
}
use coriolis.Constants.{TaskStatus, is_on_error_only}
use coriolis.Db.{Task}
use coriolis.Conductor.Create.{has_scheduled_dependency, initial_status}

-- One of the dependencies is a task that does not wait for an error.
abbrev pub DependsOnRunnable : List Task → List ℕ → Type 0
DependsOnRunnable tasks depends_on =
    Some (λ d. Some (λ t. (t.id ≡ d) × (is_on_error_only t.status ≡ false)) tasks) depends_on

dependency-Some :
    (tasks : List Task) (depends_on : List ℕ)
    → has_scheduled_dependency tasks depends_on ≡ true
    → DependsOnRunnable tasks depends_on
unfolding has_scheduled_dependency
dependency-Some tasks depends_on h =
    Some-map
      (λ d e.
        Some-map (λ t p. test t d p) tasks
          (any-Some (λ t. t.id == d && not (is_on_error_only t.status)) tasks e))
      depends_on
      (any-Some (λ d. any (λ t. t.id == d && not (is_on_error_only t.status)) tasks) depends_on h)
  where
    test :
        (t : Task) (d : ℕ)
        → (t.id == d && not (is_on_error_only t.status)) ≡ true
        → (t.id ≡ d) × (is_on_error_only t.status ≡ false)
    test t d p = (==→≡ t.id d (ground arith), ground arith)

Some-dependency :
    (tasks : List Task) (depends_on : List ℕ)
    → DependsOnRunnable tasks depends_on
    → has_scheduled_dependency tasks depends_on ≡ true
unfolding has_scheduled_dependency
Some-dependency tasks depends_on h =
    Some-any (λ d. any (λ t. t.id == d && not (is_on_error_only t.status)) tasks) depends_on
      (Some-map
        (λ d e.
          Some-any (λ t. t.id == d && not (is_on_error_only t.status)) tasks
            (Some-map (λ t p. test t d p) tasks e))
        depends_on h)
  where
    test :
        (t : Task) (d : ℕ)
        → (t.id ≡ d) × (is_on_error_only t.status ≡ false)
        → (t.id == d && not (is_on_error_only t.status)) ≡ true
    test t d p = rw (p.0, ==_refl d, p.1) refl

module _ (tasks : List Task) (depends_on : List ℕ) where
  initial_status-tests :
      (on_error on_error_only : Bool)
      → (initial_status tasks depends_on on_error on_error_only ≡ TaskStatus.scheduled) ↔ (
          (on_error_only ≡ false)
          × ((on_error ≡ false)
              ⊎ (is_empty depends_on ≡ true)
              ⊎ (has_scheduled_dependency tasks depends_on ≡ true)))
  unfolding initial_status
  initial_status-tests on_error on_error_only = (λ h. ground arith, λ h. ground arith)

  -- A new task is scheduled at once exactly when it does not only run on errors, and is a plain
  -- task, or has no dependencies, or depends on a task that does not wait for an error.
  pub initial_status-scheduled :
      (on_error on_error_only : Bool)
      → (initial_status tasks depends_on on_error on_error_only ≡ TaskStatus.scheduled) ↔ (
          (on_error_only ≡ false)
          × ((on_error ≡ false)
              ⊎ (is_empty depends_on ≡ true)
              ⊎ DependsOnRunnable tasks depends_on))
  initial_status-scheduled on_error on_error_only =
      let tests = initial_status-tests on_error on_error_only in
      (
        λ h.
            let t = tests.0 h in
            (
              t.0,
              elim t.1 [
                | inl p ↦ inl p
                | inr (inl p) ↦ inr (inl p)
                | inr (inr p) ↦ inr (inr (dependency-Some tasks depends_on p))
              ],
            ),
        λ h. tests.1 (
          h.0,
          elim h.1 [
            | inl p ↦ inl p
            | inr (inl p) ↦ inr (inl p)
            | inr (inr p) ↦ inr (inr (Some-dependency tasks depends_on p))
          ],
        ),
      )
