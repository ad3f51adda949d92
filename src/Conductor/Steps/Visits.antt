-- ===== src/Conductor/Steps/Visits.antt =====
-- The loop of `_advance_execution_state`, as steps.
use coriolis.Prelude.{
  ℕ, ◌≤◌, ◌<◌, Bool-cases, lookup, insert, List, [], ◌∷◌, ◌++◌, Option-cases, some, ◌≡◌, refl, sym,
  ◌∙◌, ap, subst, arith, inl, inr,
}
use coriolis.Constants.{TaskStatus, ExecutionStatus, is_scheduled}
use coriolis.Action.{Action, Result, ok, err, ◌>>=◌, key_error}
use coriolis.Action.Laws.{bind-ok, bind-eq}
use coriolis.Db.{
  Store, Task, Statuses, change_task, with_status, set_status, statuses_of, emit, Effect,
}
use coriolis.Db.Tasks.{IsDistinct, lookup-statuses, statuses-change}
use coriolis.Conductor.Env.{Env}
use coriolis.Conductor.Advance.{
  Decision, unschedule, wait, decide, on_error_ids, start_task, carry_out, consider, visit_task,
  visit_tasks,
}
use coriolis.Conductor.Cancel.{waiting}
use coriolis.Conductor.Steps.{Move, Step, Reach, IsReady, change, here, Reach-Step}
use coriolis.Conductor.Steps.Current.{AreCurrent, AreCurrent-set, set_task_status-then}
use coriolis.Conductor.Steps.Goes.{Goes, Goes-ok, Goes-err, bind-Goes}
use coriolis.Conductor.Steps.Keeps.{Step-IsDistinct, Step-waiting-le}
use coriolis.Conductor.Steps.Start.{called, scheduled-eq, start_task-ok, start_task-Goes}

on_error_ids-change :
    (i : ℕ) (st : TaskStatus) (ts : List Task)
    → on_error_ids (change_task i (with_status st) ts) ≡ on_error_ids ts
unfolding change_task
on_error_ids-change i st [] = refl
on_error_ids-change i st (t ∷ ts) = ground (arith, on_error_ids-change i st ts)

ok-injective : {A : Type 0} {a b : A} → ok a ≡ ok b → a ≡ b
ok-injective e = cc

-- The loop's variables agree with the store, and so do the tasks that are left to visit.
pub record Agrees (n : ℕ) (on_error : List ℕ) (st : ExecutionStatus) (ts : List Task)
    (statuses : Statuses) (s : Store) : Type 0 where
  pub statuses_agree : statuses ≡ statuses_of s.tasks
  pub on_error_agree : on_error ≡ on_error_ids s.tasks
  pub status_kept : s.status ≡ st
  pub current : AreCurrent s.tasks ts
  pub distinct : IsDistinct s.tasks
  pub distinct_left : IsDistinct ts
  pub bound : waiting s.tasks ≤ n

module _ {n : ℕ} {on_error : List ℕ} {st : ExecutionStatus} {t : Task} {ts : List Task}
    {statuses : Statuses} {s : Store} (a : Agrees n on_error st (t ∷ ts) statuses s) where
  pub Agrees-skip : Agrees n on_error st ts statuses s
  Agrees-skip = record {
    statuses_agree = a.statuses_agree;
    on_error_agree = a.on_error_agree;
    status_kept = a.status_kept;
    current = a.current.1;
    distinct = a.distinct;
    distinct_left = a.distinct_left.1;
    bound = a.bound;
  }

  pub Agrees-set :
      (new : TaskStatus)
      → Move s t new
      → Agrees n on_error st ts (insert t.id new statuses) (set_status t.id new s)
  unfolding set_status
  Agrees-set new m =
      let made : Step s (set_status t.id new s) = change t new a.current.0 m in
      record {
        statuses_agree =
            ap (insert t.id new) a.statuses_agree
            ∙ sym (statuses-change t.id new s.tasks a.current.0);
        on_error_agree = a.on_error_agree ∙ sym (on_error_ids-change t.id new s.tasks);
        status_kept = a.status_kept;
        current = AreCurrent-set t new s ts a.distinct_left.0 a.current;
        distinct = Step-IsDistinct made a.distinct;
        distinct_left = a.distinct_left.1;
        bound = omega (arith, Step-waiting-le made, a.bound);
      }

Agrees-sent :
    {n : ℕ} {on_error : List ℕ} {st : ExecutionStatus} (ts : List Task) {statuses : Statuses}
    (e : Effect) (s : Store)
    → Agrees n on_error st ts statuses s
    → Agrees n on_error st ts statuses (emit e (called s))
Agrees-sent ts e s a = record {
  statuses_agree = a.statuses_agree;
  on_error_agree = a.on_error_agree;
  status_kept = a.status_kept;
  current = a.current;
  distinct = a.distinct;
  distinct_left = a.distinct_left;
  bound = a.bound;
}

module _ (env : Env) (cancel : Action Store (Unit {0})) (n : ℕ)
    (cancel-Goes : (u : Store) → IsDistinct u.tasks → waiting u.tasks < n → Goes u (cancel u))
    (on_error : List ℕ) (st : ExecutionStatus) where
  -- The outcome of a visit, from `s`.
  pub record Visited (ts : List Task) (s : Store) (o : Result (Statuses × List ℕ) × Store)
      : Type 0 where
    pub goes : Goes s o
    pub agrees : (a : Statuses × List ℕ) → o.0 ≡ ok a → Agrees n on_error st ts a.0 o.1

  Visited-ok :
      (ts : List Task) (locals : Statuses × List ℕ) {s u : Store}
      → Reach s u
      → Agrees n on_error st ts locals.0 u
      → Visited ts s (ok locals, u)
  Visited-ok ts locals {s} {u} r a = record {
    goes = Goes-ok locals r;
    agrees =
        λ b e. subst (λ (l : Statuses × List ℕ). Agrees n on_error st ts l.0 u) (ok-injective e) a;
  }

  Visited-key_error : (ts : List Task) (s : Store) → Visited ts s (err key_error, s)
  Visited-key_error ts s = record {
    goes = Goes-err key_error here (λ e. cc);
    agrees = λ a e. absurd (cc);
  }

  started-Agrees :
      (t : Task) (ts : List Task) {statuses : Statuses} (started : List ℕ) (b : Statuses × List ℕ)
      (s : Store)
      → Agrees n on_error st (t ∷ ts) statuses s
      → t.status ≡ TaskStatus.scheduled
      → IsReady s t
      → (carry_out env cancel t (statuses, started) Decision.start s).0 ≡ ok b
      → start_task env cancel t.id s ≡ (
        ok TaskStatus.pending,
        emit (Effect.begin_task t.id) (called (set_status t.id TaskStatus.pending s)),
      )
      → Agrees n on_error st ts b.0 (carry_out env cancel t (statuses, started) Decision.start s).1
  unfolding carry_out ◌>>=◌
  started-Agrees t ts {statuses} started b s a p ready h eq = rw eq (
      (Visited-ok ts (insert t.id TaskStatus.pending statuses, started ++ t.id ∷ []) here
          (Agrees-sent ts (Effect.begin_task t.id) _
            (Agrees-set a TaskStatus.pending (Move.start p ready)))).agrees
        b (rw eq at h))

  carry_out-Visited :
      (t : Task) (ts : List Task) (locals : Statuses × List ℕ) (d : Decision) (s : Store)
      → Agrees n on_error st (t ∷ ts) locals.0 s
      → t.status ≡ TaskStatus.scheduled
      → decide on_error locals.0 t.id t.depends_on ≡ some d
      → Visited ts s (carry_out env cancel t locals d s)
  unfolding carry_out
  carry_out-Visited t ts (statuses, started) Decision.start s a p e =
      let ready : IsReady s t = rw (← a.on_error_agree, ← a.statuses_agree) e in
      let go =
        start_task-Goes env cancel n cancel-Goes t s p ready a.current.0 a.distinct a.bound in
      record {
        goes = bind-Goes (start_task env cancel t.id) _ s go (λ x q. Goes-ok _ here);
        agrees = λ b h.
            let (x, q, r) = bind-ok (start_task env cancel t.id) _ s h in
            started-Agrees t ts started b s a p ready h
              (start_task-ok env cancel t s {a = x} a.current.0 q);
      }
  carry_out-Visited t ts (statuses, started) unschedule s a p e =
      rw (set_task_status-then t.id TaskStatus.unscheduled _ s a.current.0) (
        Visited-ok ts _ (Reach-Step (change t _ a.current.0 (Move.unschedule p)))
          (Agrees-set a TaskStatus.unscheduled (Move.unschedule p)))
  carry_out-Visited t ts (statuses, started) wait s a p e =
      Visited-ok ts (statuses, started) here (Agrees-skip a)

  consider-Visited :
      (t : Task) (ts : List Task) (locals : Statuses × List ℕ) (s : Store)
      → Agrees n on_error st (t ∷ ts) locals.0 s
      → Visited ts s (consider env cancel on_error t locals t.status s)
  unfolding consider ◌>>=◌
  consider-Visited t ts (statuses, started) s a = elim (Bool-cases (is_scheduled t.status)) [
    | inl p ↦ elim (Option-cases (decide on_error statuses t.id t.depends_on)) [
      | inl e ↦ rw (p, e) (Visited-key_error ts s)
      | inr (d, e) ↦
          rw (p, e) (carry_out-Visited t ts (statuses, started) d s a (scheduled-eq t.status p) e)
    ]
    | inr p ↦ rw p (Visited-ok ts (statuses, started) here (Agrees-skip a))
  ]

  visit_task-Visited :
      (t : Task) (ts : List Task) (locals : Statuses × List ℕ) (s : Store)
      → Agrees n on_error st (t ∷ ts) locals.0 s
      → Visited ts s (visit_task env cancel on_error t locals s)
  unfolding visit_task ◌>>=◌
  visit_task-Visited t ts (statuses, started) s a =
      let known = ap (lookup t.id) a.statuses_agree ∙ lookup-statuses t.id s.tasks a.current.0 in
      rw known (consider-Visited t ts (statuses, started) s a)

  bind-Visited :
      (ts : List Task) (m : Action Store (Statuses × List ℕ))
      (f : Statuses × List ℕ → Action Store (Statuses × List ℕ)) (s : Store)
      → Visited ts s (m s)
      → ((l : Statuses × List ℕ)
          → Agrees n on_error st ts l.0 (m s).1
          → Visited [] (m s).1 (f l (m s).1))
      → Visited [] s ((m >>= f) s)
  bind-Visited ts m f s v rest = record {
    goes = bind-Goes m f s v.goes (λ l e. (rest l (v.agrees l e)).goes);
    agrees = λ b h.
        let (l, q, r) = bind-ok m f s h in
        rw (bind-eq m f s q) ((rest l (v.agrees l q)).agrees b r);
  }

  pub visit_tasks-Goes :
      (ts : List Task) (locals : Statuses × List ℕ) (s : Store)
      → Agrees n on_error st ts locals.0 s
      → Visited [] s (visit_tasks env cancel on_error ts locals s)
  unfolding visit_tasks
  visit_tasks-Goes [] locals s a = Visited-ok [] locals here a
  visit_tasks-Goes (t ∷ ts) locals s a =
      bind-Visited ts (visit_task env cancel on_error t locals) _ s
        (visit_task-Visited t ts locals s a) (λ l b. visit_tasks-Goes ts l _ b)
