-- ===== src/Conductor/Steps/Settled.antt =====
-- What no step of the conductor changes.
use mathlib.Core.Option.{some-injective}
use coriolis.Prelude.{
  ℕ, ◌==◌, ==→≡, Bool, Bool-cases, true, false, if◌then◌else◌, some, ◌≡◌, sym, ap, ◌∙◌, ◌⊎◌, arith,
  inl, inr,
}
use coriolis.Constants.{TaskStatus, is_finalized_task, is_finalized_execution}
use coriolis.Db.{Store, Task, find_task, set_status, with_status}
use coriolis.Db.Tasks.{find-change}
use coriolis.Conductor.Steps.{
  Move, Step, Reach, IsReady, change, aside, here, next, start, unschedule, no_worker, revoke,
  request, lose, spare, force, release, strand,
}

-- A final status of a task: all of FINALIZED_TASK_STATUSES but FAILED_TO_CANCEL, which is retried.
abbrev pub is_settled : TaskStatus → Bool
is_settled TaskStatus.failed_to_cancel = false
is_settled st = is_finalized_task st

Move-unsettled :
    {s : Store} {t : Task} {st : TaskStatus} → Move s t st → is_settled t.status ≡ false
Move-unsettled (start e r) = rw e
Move-unsettled (unschedule e) = rw e
Move-unsettled (no_worker e) = rw e
Move-unsettled (revoke (inl e)) = rw e
Move-unsettled (revoke (inr e)) = rw e
Move-unsettled (request e o) = ground arith
Move-unsettled (lose e) = rw e
Move-unsettled (spare e o) = ground arith
Move-unsettled (force e) = ground arith
Move-unsettled (release e) = rw e
Move-unsettled (strand e) = ground arith

Step-settled :
    {s u : Store} (i : ℕ) {t : Task}
    → Step s u
    → find_task i s.tasks ≡ some t
    → is_settled t.status ≡ true
    → find_task i u.tasks ≡ some t
unfolding set_status
Step-settled {s} i {t} (change t' st e m) f h =
    rw (find-change t'.id i st s.tasks e) (ground (arith, ==→≡ t'.id i, Move-unsettled m))
Step-settled i (aside a) f h = rw a.tasks_kept f

pub Reach-settled :
    {s u : Store} (i : ℕ) {t : Task}
    → Reach s u
    → find_task i s.tasks ≡ some t
    → is_settled t.status ≡ true
    → find_task i u.tasks ≡ some t
Reach-settled i here f h = f
Reach-settled i (next r st) f h = Step-settled i st (Reach-settled i r f h) h

Step-finalized :
    {s u : Store}
    → Step s u
    → is_finalized_execution s.status ≡ true
    → is_finalized_execution u.status ≡ true
unfolding set_status
Step-finalized (change t st e m) h = h
Step-finalized (aside a) h = a.finalized_kept h

pub Reach-finalized :
    {s u : Store}
    → Reach s u
    → is_finalized_execution s.status ≡ true
    → is_finalized_execution u.status ≡ true
Reach-finalized here h = h
Reach-finalized (next r st) h = Step-finalized st (Reach-finalized r h)

Move-pending :
    {s : Store} {t : Task} {st : TaskStatus}
    → Move s t st
    → st ≡ TaskStatus.pending
    → (t.status ≡ TaskStatus.scheduled) × IsReady s t
Move-pending (start e r) p = (e, r)
Move-pending (unschedule e) p = absurd (cc)
Move-pending (no_worker e) p = absurd (cc)
Move-pending (revoke e) p = absurd (cc)
Move-pending (request e o) p = absurd (cc)
Move-pending (lose e) p = absurd (cc)
Move-pending (spare e o) p = absurd (cc)
Move-pending (force e) p = absurd (cc)
Move-pending (release e) p = absurd (cc)
Move-pending (strand e) p = absurd (cc)

-- The first row is that of a task that is ready in the store, the second what becomes of it.
abbrev pub IsStarted : Store → Task → Task → Type 0
IsStarted s w t =
    (t ≡ with_status TaskStatus.pending w) × (w.status ≡ TaskStatus.scheduled) × IsReady s w

Step-pending :
    {s u : Store} (i : ℕ) {t : Task}
    → Step s u
    → find_task i u.tasks ≡ some t
    → t.status ≡ TaskStatus.pending
    → (find_task i s.tasks ≡ some t)
      ⊎ ((w : Task) × (find_task i s.tasks ≡ some w) × IsStarted s w t)
unfolding set_status
Step-pending {s} i {t} (change t' st e m) f p =
    let f' = rw (find-change t'.id i st s.tasks e) at f in
    elim (Bool-cases (t'.id == i)) [
      | inl q ↦
          let g : some (with_status st t') ≡ some t = rw (q, if◌then◌else◌) at f' in
          let same : st ≡ TaskStatus.pending = ground (arith, g, p) in
          let row : t ≡ with_status TaskStatus.pending t' =
            sym (some-injective _ _ g) ∙ ap (λ x. with_status x t') same in
          inr (t', rw (← ==→≡ t'.id i q) e, (row, (Move-pending m same).0, (Move-pending m same).1))
      | inr q ↦ inl (rw (q, if◌then◌else◌) at f')
    ]
Step-pending i (aside a) f p = inl (rw a.tasks_kept at f)

-- A task that is pending was so at the beginning, or was ready when it was started.
pub Reach-pending :
    {s u : Store} (i : ℕ) {t : Task}
    → Reach s u
    → find_task i u.tasks ≡ some t
    → t.status ≡ TaskStatus.pending
    → (find_task i s.tasks ≡ some t)
      ⊎ ((v : Store) × (w : Task) × Reach s v × (find_task i v.tasks ≡ some w) × IsStarted v w t)
Reach-pending i here f p = inl f
Reach-pending i (next {t = v} r st) f p = elim (Step-pending i st f p) [
  | inl g ↦ Reach-pending i r g p
  | inr (w, g, started) ↦ inr (v, w, r, g, started)
]
