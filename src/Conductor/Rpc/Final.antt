-- ===== src/Conductor/Rpc/Final.antt =====
-- What no request changes: tasks and executions that are over.
use coriolis.Prelude.{
  ℕ, ◌==◌, ==→≡, Bool, Bool-cases, true, false, some, ◌≡◌, refl, sym, ◌∙◌, arith, List, inl, inr,
  All,
}
use coriolis.Constants.{TaskStatus, is_finalized_execution}
use coriolis.Db.{Store, Task, find_task}
use coriolis.Db.Tasks.{IsDistinct, find-change_by}
use coriolis.Conductor.Env.{Env}
use coriolis.Conductor.Cancel.{may_start}
use coriolis.Conductor.Handlers.{accepts_process, status_completed, status_canceled}
use coriolis.Conductor.Steps.Settled.{is_settled, Reach-settled, Reach-finalized}
use coriolis.Conductor.Rpc.{Request, IsAllowed, run}
use coriolis.Conductor.Rpc.Events.{
  accepts_host, Reported, Reported-id, Event, Trace, own, row, merge, nil, snoc,
}
use coriolis.Conductor.Rpc.Runs.{run-Trace}

host-unsettled : (st : TaskStatus) → accepts_host st ≡ true → is_settled st ≡ false
host-unsettled st h = ground arith

process-unsettled : (st : TaskStatus) → accepts_process st ≡ true → is_settled st ≡ false
process-unsettled st h = ground arith

completed-unsettled :
    (st : TaskStatus) {u : TaskStatus} → status_completed st ≡ some u → is_settled st ≡ false
unfolding status_completed
completed-unsettled st e = ground arith

canceled-unsettled :
    (st : TaskStatus) {u : TaskStatus} → status_canceled st ≡ some u → is_settled st ≡ false
unfolding status_canceled
canceled-unsettled st e = ground arith

may_start-unsettled : (st : TaskStatus) → may_start st ≡ true → is_settled st ≡ false
may_start-unsettled st e = ground arith

Reported-settled :
    {fails : Bool} {t : Task} {f : Task → Task}
    → Reported fails t f
    → fails ≡ false
    → is_settled t.status ≡ true
    → f t ≡ t
Reported-settled {t = t} (Reported.host name a) q h =
    let no = host-unsettled t.status a in absurd (cc)
Reported-settled (Reported.start p k) q h = absurd (cc)
Reported-settled {t = t} (Reported.process n a) q h =
    let no = process-unsettled t.status a in absurd (cc)
Reported-settled {t = t} (Reported.run a k) q h =
    let no = process-unsettled t.status a in absurd (cc)
Reported-settled Reported.same q h = refl
Reported-settled {t = t} (Reported.complete e) q h =
    let no = completed-unsettled t.status e in absurd (cc)
Reported-settled {t = t} (Reported.cancel e) q h =
    let no = canceled-unsettled t.status e in absurd (cc)
Reported-settled (Reported.fail k) q h = absurd (cc)
Reported-settled {t = t} (Reported.debug m) q h =
    let no = may_start-unsettled t.status m in absurd (cc)

module _ {fails : ℕ → Bool} (i : ℕ) (unfailed : fails i ≡ false) where
  Event-settled :
      {s u : Store} {t : Task}
      → Event fails s u
      → find_task i s.tasks ≡ some t
      → is_settled t.status ≡ true
      → find_task i u.tasks ≡ some t
  Event-settled (own r) e h = Reach-settled i r e h
  Event-settled {s = s} {t = t} (row j t' f e' r) e h =
      rw (find-change_by f (Reported-id r) j i s.tasks e') (elim (Bool-cases (j == i)) [
        | inl q ↦
            let same : some t' ≡ some t = sym e' ∙ rw (==→≡ j i q) e in
            let kept : f t' ≡ t' =
              Reported-settled r (rw (==→≡ j i q) unfailed) (ground (arith, same, h)) in
            rw (q, kept) same
        | inr q ↦ rw q e
      ])
  Event-settled (merge info) e h = e

  pub Trace-settled :
      {s u : Store} {t : Task}
      → Trace fails s u
      → find_task i s.tasks ≡ some t
      → is_settled t.status ≡ true
      → find_task i u.tasks ≡ some t
  Trace-settled nil e h = e
  Trace-settled (snoc r ev) e h = Event-settled ev (Trace-settled r e h) h

Event-finalized :
    {fails : ℕ → Bool} {s u : Store}
    → Event fails s u
    → is_finalized_execution s.status ≡ true
    → is_finalized_execution u.status ≡ true
Event-finalized (own r) h = Reach-finalized r h
Event-finalized (row i t f e r) h = h
Event-finalized (merge info) h = h

Trace-finalized :
    {fails : ℕ → Bool} {s u : Store}
    → Trace fails s u
    → is_finalized_execution s.status ≡ true
    → is_finalized_execution u.status ≡ true
Trace-finalized nil h = h
Trace-finalized (snoc r e) h = Event-finalized e (Trace-finalized r h)

-- Requests of which none reports that the task `i` has failed keep its row, once its status is
-- final and not FAILED_TO_CANCEL.
pub run-settled :
    (env : Env) (fails : ℕ → Bool) (rs : List Request) (s : Store) (i : ℕ) (t : Task)
    → All (IsAllowed fails) rs
    → IsDistinct s.tasks
    → fails i ≡ false
    → find_task i s.tasks ≡ some t
    → is_settled t.status ≡ true
    → find_task i (run env rs s).tasks ≡ some t
run-settled env fails rs s i t a d q e h =
    Trace-settled i q (run-Trace {fails = fails} env rs s a d) e h

-- An execution whose status is final has a final status after any requests.
pub run-finalized :
    (env : Env) (fails : ℕ → Bool) (rs : List Request) (s : Store)
    → All (IsAllowed fails) rs
    → IsDistinct s.tasks
    → is_finalized_execution s.status ≡ true
    → is_finalized_execution (run env rs s).status ≡ true
run-finalized env fails rs s a d h = Trace-finalized (run-Trace {fails = fails} env rs s a d) h
