-- ===== src/Conductor/Rpc/Debugging.antt =====
-- An execution that is stopped for debugging a failed OSMorphing task.
use coriolis.Prelude.{
  ℕ, ◌==◌, Bool, ==→≡, Bool-cases, true, false, ◌||◌, some, ◌≡◌, sym, ◌∙◌, arith, List, [], ◌∷◌,
  inl, inr,
}
use coriolis.Constants.{TaskStatus, is_active_task, is_os_morphing, is_scheduled, is_on_error_only}
use coriolis.Action.{coriolis_exception}
use coriolis.Action.Laws.{pure-then, raise-then}
use coriolis.Db.{Store, Task, find_task, with_status, set_status}
use coriolis.Db.Tasks.{IsDistinct, find-change}
use coriolis.Conductor.Cancel.{may_start}
use coriolis.Conductor.Handlers.{cancel_for_debugging}
use coriolis.Conductor.Steps.Current.{AreCurrent, AreCurrent-set, set_task_status-then}
use coriolis.Conductor.Rpc.Events.{Reported, row, Trace, nil, Trace-trans, Trace-Event}

-- The outcome from `s`: changes of the relation, which keep the row `r` of the task `i`.
pub record Stopped (fails : ℕ → Bool) (i : ℕ) (r : Task) (s u : Store) : Type 0 where
  pub trace : Trace fails s u
  pub kept : find_task i u.tasks ≡ some r

debuggable :
    (st : TaskStatus) → (is_scheduled st || is_on_error_only st) ≡ true → may_start st ≡ true
debuggable st h = ground arith

module _ (i : ℕ) (r : Task) (morphing : is_os_morphing r.task_type ≡ true) where
  set-kept :
      (t : Task) (st : TaskStatus) (s : Store)
      → find_task i s.tasks ≡ some r
      → find_task t.id s.tasks ≡ some t
      → is_os_morphing t.task_type ≡ false
      → find_task i (set_status t.id st s).tasks ≡ some r
  unfolding set_status
  set-kept t st s e c m = elim (Bool-cases (t.id == i)) [
    | inl q ↦ absurd (other q)
    | inr q ↦ rw (find-change t.id i st s.tasks c, q) e
  ]
    where
      other : (t.id == i) ≡ true → ⊥
      other q =
          let same : some t ≡ some r = sym c ∙ (rw (==→≡ t.id i q) e) in
          ground (arith, same, m, morphing)

  stopped :
      {fails : ℕ → Bool} (t : Task) (s : Store) {u : Store}
      → find_task t.id s.tasks ≡ some t
      → may_start t.status ≡ true
      → Stopped fails i r (set_status t.id TaskStatus.canceled_for_debugging s) u
      → Stopped fails i r s u
  unfolding set_status
  stopped t s c h rest = record {
    trace =
        Trace-trans
          (Trace-Event
            (row t.id t (with_status TaskStatus.canceled_for_debugging) c (Reported.debug h)))
          rest.trace;
    kept = rest.kept;
  }

  pub cancel_for_debugging-Stopped :
      {fails : ℕ → Bool} (ts : List Task) (s : Store)
      → AreCurrent s.tasks ts
      → IsDistinct ts
      → find_task i s.tasks ≡ some r
      → Stopped fails i r s (cancel_for_debugging ts s).1
  unfolding cancel_for_debugging
  cancel_for_debugging-Stopped [] s c d e = record { trace = nil; kept = e }
  cancel_for_debugging-Stopped (t ∷ ts) s c d e = elim (Bool-cases (is_os_morphing t.task_type)) [
    | inl m ↦ simp (m, pure-then) (cancel_for_debugging-Stopped ts s c.1 d.1 e)
    | inr m ↦ elim (Bool-cases (is_active_task t.status)) [
      | inl a ↦
          simp (m, a)
            (rw
              (raise-then {A = Unit {0}} {B = Unit {0}} coriolis_exception
                (λ _. cancel_for_debugging ts) s)
              (record { trace = nil; kept = e }))
      | inr a ↦ elim (Bool-cases (is_scheduled t.status || is_on_error_only t.status)) [
        | inl q ↦
            simp (m, a, q)
              (rw (set_task_status-then t.id TaskStatus.canceled_for_debugging _ s c.0) (
                stopped t s c.0 (debuggable t.status q) (
                  cancel_for_debugging-Stopped ts
                    (set_status t.id TaskStatus.canceled_for_debugging s)
                    (AreCurrent-set t TaskStatus.canceled_for_debugging s ts d.0 c) d.1
                    (set-kept t TaskStatus.canceled_for_debugging s e c.0 m))))
        | inr q ↦ simp (m, a, q, pure-then) (cancel_for_debugging-Stopped ts s c.1 d.1 e)
      ]
    ]
  ]
