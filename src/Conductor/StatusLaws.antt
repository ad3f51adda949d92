-- ===== src/Conductor/StatusLaws.antt =====
-- What the status of an execution says about its tasks.
use coriolis.Prelude.{
  subst, Bool, Bool-cases, true, false, not, ◌&&◌, if◌then◌else◌, any, [], ◌∷◌, ◌≡◌, ◌↔◌, refl, ◌⊎◌,
  inl, inr, arith, All, Some, any-Some, Some-any, Some-map, All-map, any-none, none-any,
}
use coriolis.Constants.{TaskStatus, ExecutionStatus, is_active_task, is_canceled_task, is_scheduled}
use coriolis.Db.{Statuses}
use coriolis.Conductor.Status.{get_execution_status, is_errord, is_cancelling}

-- Some task is in, and no task is in.
abbrev Has : (TaskStatus → Bool) → Statuses → Type 0
Has p statuses = Some (λ t. p t.1 ≡ true) statuses

abbrev Lacks : (TaskStatus → Bool) → Statuses → Type 0
Lacks p statuses = All (λ t. p t.1 ≡ false) statuses

-- What each status of an execution promises about the tasks.
abbrev pub Promises : Statuses → ExecutionStatus → Type 0
Promises ts ExecutionStatus.deadlocked = Has is_scheduled ts × Lacks is_active_task ts
Promises ts ExecutionStatus.cancelling =
    Has is_active_task ts × (Has is_cancelling ts ⊎ Has is_canceled_task ts)
Promises ts ExecutionStatus.running =
    Has is_active_task ts × Lacks is_canceled_task ts × Lacks is_cancelling ts
Promises ts ExecutionStatus.error =
    Has is_errord ts × Lacks is_active_task ts × Lacks is_scheduled ts
Promises ts ExecutionStatus.canceled =
    Has is_canceled_task ts × Lacks is_active_task ts × Lacks is_scheduled ts × Lacks is_errord ts
Promises ts ExecutionStatus.completed =
    All (λ t. (t.1 ≡ TaskStatus.completed) ⊎ (t.1 ≡ TaskStatus.on_error_only)) ts
Promises ts _ = ⊥

Has-any : (p : TaskStatus → Bool) (ts : Statuses) → Has p ts → any (λ t. p t.1) ts ≡ true
Has-any p ts h = Some-any (λ t. p t.1) ts h

any-Has : (p : TaskStatus → Bool) (ts : Statuses) → any (λ t. p t.1) ts ≡ true → Has p ts
any-Has p ts h = any-Some (λ t. p t.1) ts h

Lacks-any : (p : TaskStatus → Bool) (ts : Statuses) → Lacks p ts → any (λ t. p t.1) ts ≡ false
Lacks-any p ts h = none-any (λ t. p t.1) ts h

any-Lacks : (p : TaskStatus → Bool) (ts : Statuses) → any (λ t. p t.1) ts ≡ false → Lacks p ts
any-Lacks p ts h = any-none (λ t. p t.1) ts h

cancelling-active :
    (ts : Statuses)
    → any (λ t. is_cancelling t.1) ts ≡ true
    → any (λ t. is_active_task t.1) ts ≡ true
cancelling-active ts h =
    Has-any is_active_task ts (Some-map (λ t. within t.1) ts (any-Has is_cancelling ts h))
  where
    within : (st : TaskStatus) → is_cancelling st ≡ true → is_active_task st ≡ true
    within st h = ground arith

quiet-completed :
    (st : TaskStatus)
    → is_active_task st ≡ false
    → is_canceled_task st ≡ false
    → is_errord st ≡ false
    → is_scheduled st ≡ false
    → (st ≡ TaskStatus.completed) ⊎ (st ≡ TaskStatus.on_error_only)
quiet-completed st a c e s = ground arith

all-quiet :
    (ts : Statuses)
    → Lacks is_active_task ts
    → Lacks is_canceled_task ts
    → Lacks is_errord ts
    → Lacks is_scheduled ts
    → All (λ t. (t.1 ≡ TaskStatus.completed) ⊎ (t.1 ≡ TaskStatus.on_error_only)) ts
all-quiet [] a c e s = tt
all-quiet (t ∷ ts) a c e s = (quiet-completed t.1 a.0 c.0 e.0 s.0, all-quiet ts a.1 c.1 e.1 s.1)

module _ (p : TaskStatus → Bool) (p_completed : p TaskStatus.completed ≡ false)
    (p_on_error_only : p TaskStatus.on_error_only ≡ false) where
  quiet-lacks :
      (ts : Statuses)
      → All (λ t. (t.1 ≡ TaskStatus.completed) ⊎ (t.1 ≡ TaskStatus.on_error_only)) ts
      → any (λ t. p t.1) ts ≡ false
  quiet-lacks ts h = Lacks-any p ts (All-map (λ t. one t.1) ts h)
    where
      one :
          (st : TaskStatus)
          → (st ≡ TaskStatus.completed) ⊎ (st ≡ TaskStatus.on_error_only)
          → p st ≡ false
      one st (inl e) = rw e p_completed
      one st (inr e) = rw e p_on_error_only

module _ (ts : Statuses) where
  abbrev scheduled : Bool
  scheduled = any (λ t. is_scheduled t.1) ts

  abbrev active : Bool
  active = any (λ t. is_active_task t.1) ts

  inactive :
      (scheduled && not active) ≡ false
      → active ≡ false
      → Promises ts (
          if any (λ t. is_errord t.1) ts
          then ExecutionStatus.error
          else if any (λ t. is_canceled_task t.1) ts
          then ExecutionStatus.canceled
          else ExecutionStatus.completed)
  inactive d a =
      let s : scheduled ≡ false = ground arith in
      let la = any-Lacks is_active_task ts a in
      let ls = any-Lacks is_scheduled ts s in
      elim (Bool-cases (any (λ t. is_errord t.1) ts)) [
        | inl e ↦ rw e (any-Has is_errord ts e, la, ls)
        | inr e ↦ elim (Bool-cases (any (λ t. is_canceled_task t.1) ts)) [
          | inl c ↦ rw (e, c) (any-Has is_canceled_task ts c, la, ls, any-Lacks is_errord ts e)
          | inr c ↦
              rw (e, c)
                (all-quiet ts la (any-Lacks is_canceled_task ts c) (any-Lacks is_errord ts e) ls)
        ]
      ]

  promised : Promises ts (get_execution_status ts)
  unfolding get_execution_status
  promised = elim (Bool-cases (scheduled && not active)) [
    | inl d ↦
        rw d (any-Has is_scheduled ts (ground arith), any-Lacks is_active_task ts (ground arith))
    | inr d ↦ elim (Bool-cases (any (λ t. is_cancelling t.1) ts)) [
      | inl g ↦
          rw (d, g)
            (any-Has is_active_task ts (cancelling-active ts g), inl (any-Has is_cancelling ts g))
      | inr g ↦ elim (Bool-cases active) [
        | inl a ↦ elim (Bool-cases (any (λ t. is_canceled_task t.1) ts)) [
          | inl c ↦
              rw (d, g, a, c) (any-Has is_active_task ts a, inr (any-Has is_canceled_task ts c))
          | inr c ↦
              rw (d, g, a, c)
                (
                  any-Has is_active_task ts a,
                  any-Lacks is_canceled_task ts c,
                  any-Lacks is_cancelling ts g,
                )
        ]
        | inr a ↦ rw (d, g, a) (inactive d a)
      ]
    ]
  ]

  determined : (st : ExecutionStatus) → Promises ts st → get_execution_status ts ≡ st
  unfolding get_execution_status
  determined ExecutionStatus.deadlocked (h, l) =
      ground (arith, Has-any is_scheduled ts h, Lacks-any is_active_task ts l)
  determined ExecutionStatus.cancelling (a, inl g) =
      ground (arith, Has-any is_active_task ts a, Has-any is_cancelling ts g)
  determined ExecutionStatus.cancelling (a, inr c) =
      ground (arith, Has-any is_active_task ts a, Has-any is_canceled_task ts c)
  determined ExecutionStatus.running (a, c, g) = ground (
    arith,
    Has-any is_active_task ts a,
    Lacks-any is_canceled_task ts c,
    Lacks-any is_cancelling ts g,
  )
  determined ExecutionStatus.error (e, a, s) = ground (
    arith,
    Has-any is_errord ts e,
    Lacks-any is_active_task ts a,
    Lacks-any is_scheduled ts s,
    cancelling-active ts,
  )
  determined ExecutionStatus.canceled (c, a, s, e) = ground (
    arith,
    Has-any is_canceled_task ts c,
    Lacks-any is_active_task ts a,
    Lacks-any is_scheduled ts s,
    Lacks-any is_errord ts e,
    cancelling-active ts,
  )
  determined ExecutionStatus.completed h = ground (
    arith,
    quiet-lacks is_active_task refl refl ts h,
    quiet-lacks is_canceled_task refl refl ts h,
    quiet-lacks is_errord refl refl ts h,
    quiet-lacks is_scheduled refl refl ts h,
    cancelling-active ts,
  )
  determined _ h = absurd h

  -- The status that is computed is exactly the one whose promise the tasks keep: DEADLOCKED where
  -- a task is scheduled and none is active, COMPLETED where every task is completed or waits for
  -- an error only, and so on.
  pub get_execution_status-Promises :
      (st : ExecutionStatus) → (get_execution_status ts ≡ st) ↔ Promises ts st
  get_execution_status-Promises st = ((λ h. subst (Promises ts) h promised), determined st)
