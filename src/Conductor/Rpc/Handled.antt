-- ===== src/Conductor/Rpc/Handled.antt =====
-- Each report but that of a failure makes changes of the relation only.
use coriolis.Prelude.{
  subst, ◌<◌, ==_refl, ℕ, Bool, true, if◌then◌else◌, Option, Option-cases, none, some, ◌≡◌, refl,
  arith, [], ◌∷◌, inl, inr, lookup,
}
use coriolis.Constants.{TaskStatus}
use coriolis.Action.{Action, ok, pure, gets, ◌>>=◌}
use coriolis.Db.{
  Store, Task, TaskInfo, find_task, change_task, with_status, with_host, set_status,
  set_task_status, set_task_host_properties, change_found, is_truthy,
  update_transfer_action_info_for_instance,
}
use coriolis.Db.Tasks.{IsDistinct, find_self, set_task_status-found, find-change_by}
use coriolis.Conductor.Env.{Env}
use coriolis.Conductor.Cancel.{run_cancel, run_advance}
use coriolis.Conductor.PostTask.{handle_post_task_actions}
use coriolis.Conductor.Rpc.PostTask.{handle_post_task_actions-Trace}
use coriolis.Conductor.Handlers.{
  get_task, status_with_host, set_task_host, set_task_process, status_completed, merge_result,
  process_result, complete_task, task_completed, status_canceled, confirm_canceled,
  confirm_task_cancellation,
}
use coriolis.Conductor.Steps.Cancel.{run_cancel-Goes, run_advance-Goes}
use coriolis.Conductor.Rpc.Events.{
  Reported, own, row, merge, Trace, nil, Trace-trans, Trace-Event, Trace-IsDistinct, bind-Trace,
  require-Trace,
}

set_task_host_properties-eq :
    (i : ℕ) (h p : Option ℕ) (s : Store) {t : Task}
    → find_task i s.tasks ≡ some t
    → set_task_host_properties i h p s
      ≡ (ok tt, record s { tasks = change_task i (with_host h p) s.tasks })
unfolding set_task_host_properties change_found
set_task_host_properties-eq i h p s e = rw (e, change_found)

named :
    (name : ℕ) (h : Option ℕ)
    → 0 < name
    → is_truthy (if is_truthy (some name) then some name else h) ≡ true
named name h n = ground arith

module _ {fails : ℕ → Bool} where
  get-Trace :
      {B : Type 0} (i : ℕ) (k : Task → Action Store B) (s : Store)
      → ((t : Task) → find_task i s.tasks ≡ some t → Trace fails s (k t s).1)
      → Trace fails s ((get_task i >>= k) s).1
  unfolding get_task ◌>>=◌
  get-Trace i k s g = elim (Option-cases (find_task i s.tasks)) [
    | inl e ↦ rw e nil
    | inr (t, e) ↦ rw e (g t e)
  ]

  pub set-Trace :
      (i : ℕ) (t : Task) (st : TaskStatus) (s : Store)
      → find_task i s.tasks ≡ some t
      → Reported (fails i) t (with_status st)
      → Trace fails s (set_task_status i st s).1
  unfolding set_status
  set-Trace i t st s e r =
      rw (set_task_status-found i st s e) (Trace-Event (row i t (with_status st) e r))

  -- A write of the host or the process, and a write of the status.
  host-then-Trace :
      (i : ℕ) (h p : Option ℕ) (st : TaskStatus) (s : Store) (t : Task)
      → find_task i s.tasks ≡ some t
      → Reported (fails i) t (with_host h p)
      → Reported (fails i) (with_host h p t) (with_status st)
      → Trace fails s ((set_task_host_properties i h p >>= λ _. set_task_status i st) s).1
  unfolding ◌>>=◌
  host-then-Trace i h p st s t e r q = rw (set_task_host_properties-eq i h p s e) (
      Trace-trans (Trace-Event (row i t (with_host h p) e r)) (
        set-Trace i (with_host h p t) st _
          (rw (find-change_by (with_host h p) (λ _. refl) i i s.tasks e, ==_refl i)) q))

  -- A worker that has a name takes the task.
  pub set_task_host-Trace :
      (i name : ℕ) (s : Store) → 0 < name → Trace fails s (set_task_host i name s).1
  unfolding set_task_host status_with_host ◌>>=◌
  set_task_host-Trace i name s n = get-Trace i _ s λ t e. accepted t.status t e refl
    where
      accepted :
          (st : TaskStatus) (t : Task)
          → find_task i s.tasks ≡ some t
          → t.status ≡ st
          → Trace fails s
              ((status_with_host st >>= λ new.
                  set_task_host_properties i (some name) none >>= λ _. set_task_status i new)
                s).1
      accepted TaskStatus.pending t e p =
          host-then-Trace i (some name) none TaskStatus.starting s t e (Reported.host name (rw p))
            (Reported.start p (named name t.host n))
      accepted TaskStatus.cancelling_after_completion t e p =
          host-then-Trace i (some name) none TaskStatus.cancelling_after_completion s t e
            (Reported.host name (rw p))
            (subst (λ st. Reported (fails i) (with_host (some name) none t) (with_status st)) p
              Reported.same)
      accepted _ t e p = nil

  pub set_task_process-Trace :
      (i process_id : ℕ) (s : Store) → Trace fails s (set_task_process i process_id s).1
  unfolding set_task_process
  set_task_process-Trace i process_id s = get-Trace i _ s λ t e. require-Trace _ _ _ s λ h.
      require-Trace _ _ _ s λ a.
        host-then-Trace i none (some process_id) TaskStatus.running s t e
          (Reported.process process_id a) (Reported.run a h)

  module _ (env : Env) where
    pub cancel-Trace :
        (force : Bool) (s : Store) → IsDistinct s.tasks → Trace fails s (run_cancel env force s).1
    cancel-Trace force s d = Trace-Event (own (run_cancel-Goes env force s d).reach)

    pub advance-Trace :
        (instance : Option ℕ) (s : Store)
        → IsDistinct s.tasks
        → Trace fails s ((run_advance env instance >>= λ _. pure tt) s).1
    advance-Trace instance s d =
        bind-Trace (run_advance env instance) _ s
          (Trace-Event (own (run_advance-Goes env instance s d).reach)) (λ _ _. nil)

    merge_result-Trace :
        (t : Task) (result : TaskInfo) (s : Store) → Trace fails s (merge_result t result s).1
    unfolding merge_result update_transfer_action_info_for_instance
    merge_result-Trace t [] s = elim (Option-cases (lookup t.instance_id s.info)) [
      | inl e ↦ rw e nil
      | inr (v, e) ↦ rw e nil
    ]
    merge_result-Trace t (f ∷ result) s = Trace-Event (merge _)

    pub process_result-Trace :
        (t : Task) (result : TaskInfo) (s : Store)
        → IsDistinct s.tasks
        → Trace fails s (process_result env t result s).1
    unfolding process_result
    process_result-Trace t result s d =
        let merged = merge_result-Trace t result s in
        bind-Trace (merge_result t result) _ s merged λ info _.
          let s₁ = (merge_result t result s).1 in
          bind-Trace (gets (λ u. u.tasks)) _ s₁ nil λ tasks _.
            let acted = handle_post_task_actions-Trace env t.task_type t tasks info s₁ in
            bind-Trace (handle_post_task_actions env t.task_type t tasks info) _ s₁ acted λ _ _.
              advance-Trace (some t.instance_id) _
                (Trace-IsDistinct acted (Trace-IsDistinct merged d))

    pub task_completed-Trace :
        (i : ℕ) (result : TaskInfo) (s : Store)
        → IsDistinct s.tasks
        → Trace fails s (task_completed env i result s).1
    unfolding task_completed complete_task
    task_completed-Trace i result s d = get-Trace i _ s λ t e.
        elim (Option-cases (status_completed t.status)) [
          | inl h ↦ rw h nil
          | inr (st, h) ↦
              let set = set-Trace t.id t st s (find_self i s.tasks e) (Reported.complete h) in
              rw h (
                bind-Trace (set_task_status t.id st) _ s set
                  λ _ _. process_result-Trace t result _ (Trace-IsDistinct set d))
        ]

    pub confirm_task_cancellation-Trace :
        (i : ℕ) (s : Store)
        → IsDistinct s.tasks
        → Trace fails s (confirm_task_cancellation env i s).1
    unfolding confirm_task_cancellation confirm_canceled
    confirm_task_cancellation-Trace i s d = get-Trace i _ s λ t e.
        elim (Option-cases (status_canceled t.status)) [
          | inl h ↦ rw h (set-Trace t.id t t.status s (find_self i s.tasks e) Reported.same)
          | inr (st, h) ↦
              let set = set-Trace t.id t st s (find_self i s.tasks e) (Reported.cancel h) in
              rw h (
                bind-Trace (set_task_status t.id st) _ s set
                  λ _ _. advance-Trace none _ (Trace-IsDistinct set d))
        ]
