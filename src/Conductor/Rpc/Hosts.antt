-- ===== src/Conductor/Rpc/Hosts.antt =====
-- A task on which a worker acts has a host, whatever requests arrive.
use coriolis.Prelude.{
  ℕ, Bool, true, false, if◌then◌else◌, Option, none, some, ◌≡◌, refl, arith, List, All, all,
}
use coriolis.Constants.{TaskStatus}
use coriolis.Db.{Store, Task, set_status, with_status, with_host, is_truthy}
use coriolis.Db.Tasks.{IsDistinct, all-change_task}
use coriolis.Conductor.Env.{Env}
use coriolis.Conductor.Handlers.{status_completed, status_canceled, status_errored}
use coriolis.Conductor.Steps.{
  Move, Step, Reach, change, aside, here, next, start, unschedule, no_worker, revoke, request, lose,
  spare, force, release, strand,
}
use coriolis.Conductor.Rpc.{Request, IsAllowed, run}
use coriolis.Conductor.Rpc.Events.{Reported, Event, Trace, own, row, merge, nil, snoc}
use coriolis.Conductor.Rpc.Runs.{run-Trace}

-- The statuses between the report of a host and the end of the task.
abbrev pub is_on_host : TaskStatus → Bool
is_on_host TaskStatus.starting = true
is_on_host TaskStatus.running = true
is_on_host TaskStatus.cancelling = true
is_on_host TaskStatus.cancelling_after_completion = true
is_on_host TaskStatus.failed_to_cancel = true
is_on_host _ = false

abbrev pub is_hosted : Task → Bool
is_hosted t = if is_on_host t.status then is_truthy t.host else true

abbrev pub IsHosted : Store → Type 0
IsHosted s = all is_hosted s.tasks ≡ true

Move-is_hosted :
    {s : Store} {t : Task} {st : TaskStatus}
    → Move s t st
    → is_hosted t ≡ true
    → is_hosted (with_status st t) ≡ true
Move-is_hosted (start e r) h = refl
Move-is_hosted (unschedule e) h = refl
Move-is_hosted (no_worker e) h = refl
Move-is_hosted (revoke e) h = refl
Move-is_hosted (request e o) h = ground arith
Move-is_hosted (lose e) h = rw e at h
Move-is_hosted (spare e o) h = ground arith
Move-is_hosted (force e) h = refl
Move-is_hosted (release e) h = refl
Move-is_hosted (strand e) h = refl

completed-off :
    (st : TaskStatus) {u : TaskStatus} → status_completed st ≡ some u → is_on_host u ≡ false
unfolding status_completed
completed-off st e = ground arith

canceled-off :
    (st : TaskStatus) {u : TaskStatus} → status_canceled st ≡ some u → is_on_host u ≡ false
unfolding status_canceled
canceled-off st e = ground arith

errored-off : (st : TaskStatus) → is_on_host (status_errored st) ≡ false
unfolding status_errored
errored-off st = ground arith

host-is_hosted :
    (t : Task) (h p : Option ℕ) → is_hosted t ≡ true → is_hosted (with_host h p t) ≡ true
host-is_hosted t h p e = ground arith

off-is_hosted :
    (t : Task) (st : TaskStatus) → is_on_host st ≡ false → is_hosted (with_status st t) ≡ true
off-is_hosted t st e = rw e

on-is_hosted :
    (t : Task) (st : TaskStatus) → is_truthy t.host ≡ true → is_hosted (with_status st t) ≡ true
on-is_hosted t st e = ground arith

Reported-is_hosted :
    {fails : Bool} {t : Task} {f : Task → Task}
    → Reported fails t f
    → is_hosted t ≡ true
    → is_hosted (f t) ≡ true
Reported-is_hosted {t = t} (Reported.host name a) h = host-is_hosted t (some name) none h
Reported-is_hosted {t = t} (Reported.start p k) h = on-is_hosted t TaskStatus.starting k
Reported-is_hosted {t = t} (Reported.process n a) h = host-is_hosted t none (some n) h
Reported-is_hosted {t = t} (Reported.run a k) h = on-is_hosted t TaskStatus.running k
Reported-is_hosted Reported.same h = h
Reported-is_hosted {t = t} (Reported.complete {st = st} e) h =
    off-is_hosted t st (completed-off t.status e)
Reported-is_hosted {t = t} (Reported.cancel {st = st} e) h =
    off-is_hosted t st (canceled-off t.status e)
Reported-is_hosted {t = t} (Reported.fail k) h =
    off-is_hosted t (status_errored t.status) (errored-off t.status)
Reported-is_hosted (Reported.debug m) h = refl

Step-IsHosted : {s u : Store} → Step s u → IsHosted s → IsHosted u
unfolding set_status
Step-IsHosted {s} (change t st e m) h =
    all-change_task is_hosted t.id (with_status st) s.tasks (Move-is_hosted m) e h
Step-IsHosted (aside a) h = rw a.tasks_kept h

Reach-IsHosted : {s u : Store} → Reach s u → IsHosted s → IsHosted u
Reach-IsHosted here h = h
Reach-IsHosted (next r st) h = Step-IsHosted st (Reach-IsHosted r h)

Event-IsHosted : {fails : ℕ → Bool} {s u : Store} → Event fails s u → IsHosted s → IsHosted u
Event-IsHosted (own r) h = Reach-IsHosted r h
Event-IsHosted {s = s} (row i t f e r) h =
    all-change_task is_hosted i f s.tasks (Reported-is_hosted r) e h
Event-IsHosted (merge info) h = h

Trace-IsHosted : {fails : ℕ → Bool} {s u : Store} → Trace fails s u → IsHosted s → IsHosted u
Trace-IsHosted nil h = h
Trace-IsHosted (snoc r e) h = Event-IsHosted e (Trace-IsHosted r h)

-- If each task of the store that is starting, running, being cancelled or failed to cancel has a
-- host, the same holds after any sequence of requests in which workers give their names.
pub run-IsHosted :
    (env : Env) (fails : ℕ → Bool) (rs : List Request) (s : Store)
    → All (IsAllowed fails) rs
    → IsDistinct s.tasks
    → IsHosted s
    → IsHosted (run env rs s)
run-IsHosted env fails rs s a d h = Trace-IsHosted (run-Trace {fails = fails} env rs s a d) h
