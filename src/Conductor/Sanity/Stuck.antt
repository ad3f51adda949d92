-- ===== src/Conductor/Sanity/Stuck.antt =====
-- When the check of the tasks of an instance finds a deadlock, and that it ends.
use coriolis.Prelude.{
  length, ℕ, zero, suc, Bool, Bool-cases, true, false, not, ◌&&◌, if◌then◌else◌, all, any, select,
  elem, is_empty, List, [], ◌∷◌, ◌++◌, Option, none, some, ◌≡◌, ◌≢◌, refl, sym, subst, arith, inl,
  inr,
}
use coriolis.Constants.{TaskType}
use coriolis.Action.{Error, ok, err, execution_deadlock, out_of_fuel}
use coriolis.Action.Laws.{ok-injective, and_then-ok, and_then-err}
use coriolis.Db.{Task, TaskInfo}
use coriolis.Conductor.Sanity.{
  Runner, Modified, is_left, met, queue, gather, names, remaining, register, info_keys,
  check_requirements, collect_fields, check_queued, round, check_rounds, check_instance,
}
use coriolis.Conductor.Sanity.Rounds.{ready, gather-ready}

-- The errors of the parts.
queue-err :
    (left : List Task) (processed : List ℕ) (t : Task) {e : Error}
    → queue left processed t ≡ err e
    → (e ≢ execution_deadlock) × (e ≢ out_of_fuel)
unfolding queue
queue-err left processed t h = ground arith

gather-err :
    (left : List Task) (processed : List ℕ) (ts : List Task) {e : Error}
    → gather left processed ts ≡ err e
    → (e ≢ execution_deadlock) × (e ≢ out_of_fuel)
unfolding gather
gather-err left processed [] h = absurd (cc)
gather-err left processed (t ∷ ts) h = elim (and_then-err (queue left processed t) _ h) [
  | inl k ↦ queue-err left processed t k
  | inr (b, _, h') ↦ elim (and_then-err (gather left processed ts) _ h') [
    | inl k ↦ gather-err left processed ts k
    | inr (rest, _, h'') ↦ absurd (cc)
  ]
]

met-err :
    (keys : List ℕ) (r : Option Runner) {e : Error}
    → met keys r ≡ err e
    → (e ≢ execution_deadlock) × (e ≢ out_of_fuel)
met-err keys none h = ground arith
met-err keys (some r) h = ground arith

module _ (runner : TaskType → Option Runner) (keys : List ℕ) where
  collect_fields-err :
      (q : List Task) (m : Modified) {e : Error}
      → collect_fields runner keys q m ≡ err e
      → (e ≢ execution_deadlock) × (e ≢ out_of_fuel)
  unfolding collect_fields check_requirements
  collect_fields-err [] m h = absurd (cc)
  collect_fields-err (t ∷ q) m h = elim (and_then-err (check_requirements runner keys t) _ h) [
    | inl k ↦ met-err keys (runner t.task_type) k
    | inr (fields, _, h') ↦ collect_fields-err q _ h'
  ]

  -- Only an empty round is a deadlock.
  check_queued-err :
      (q : List Task) {e : Error}
      → check_queued runner keys q ≡ err e
      → ((e ≡ execution_deadlock) → is_empty q ≡ true) × (e ≢ out_of_fuel)
  unfolding check_queued
  check_queued-err [] h = (λ k. refl, ground arith)
  check_queued-err (t ∷ q) h = elim (and_then-err (collect_fields runner keys (t ∷ q) []) _ h) [
    | inl k ↦ let no = collect_fields-err (t ∷ q) [] k in ((λ k'. absurd (no.0 k')), no.1)
    | inr (m, _, h') ↦ ground arith
  ]

  pub round-err :
      (processed : List ℕ) (left : List Task) {e : Error}
      → round runner keys processed left ≡ err e
      → ((e ≡ execution_deadlock) → is_empty (ready processed left) ≡ true) × (e ≢ out_of_fuel)
  unfolding round
  round-err processed left {e} h = elim (and_then-err (gather left processed left) _ h) [
    | inl k ↦ let no = gather-err left processed left k in ((λ k'. absurd (no.0 k')), no.1)
    | inr (q, k, h') ↦ elim (and_then-err (check_queued runner keys q) _ h') [
      | inl k' ↦
          subst (λ v. ((e ≡ execution_deadlock) → is_empty v ≡ true) × (e ≢ out_of_fuel))
            (gather-ready left processed left k) (check_queued-err q k')
      | inr (m, _, h'') ↦ absurd (cc)
    ]
  ]

-- A task that is not queued waits for one that is left.
abbrev pub waits : List Task → Task → Bool
waits left t = any (λ d. is_left left d) t.depends_on

left-any :
    (p q : ℕ → Bool) (ds : List ℕ)
    → any (λ d. not (p d) && not (q d)) ds ≡ false
    → all q ds ≡ false
    → any p ds ≡ true
unfolding any all
left-any p q [] h k = absurd (cc)
left-any p q (d ∷ ds) h k = ground (arith, left-any p q ds)

queue-waits :
    (left : List Task) (processed : List ℕ) (t : Task)
    → queue left processed t ≡ ok false
    → waits left t ≡ true
unfolding queue
queue-waits left processed t h =
    ground (arith, left-any (is_left left) (λ d. elem d processed) t.depends_on)

gather-waits :
    (left : List Task) (processed : List ℕ) (ts : List Task) {q : List Task}
    → gather left processed ts ≡ ok q
    → is_empty q ≡ true
    → all (waits left) ts ≡ true
unfolding gather all
gather-waits left processed [] h k = refl
gather-waits left processed (t ∷ ts) {q} h k =
    let (b, e, h') = and_then-ok (queue left processed t) _ h in
    let (rest, e', h'') = and_then-ok (gather left processed ts) _ h' in
    let same : (if b then t ∷ rest else rest) ≡ q =
      ok-injective (if b then t ∷ rest else rest) q h'' in
    let empty = subst (λ v. is_empty v ≡ true) (sym same) k in
    let (unqueued, none_left) = split b rest empty in
    rw
      (
        queue-waits left processed t (rw (← unqueued) e),
        gather-waits left processed ts e' none_left,
      )
      refl
  where
    split :
        (b : Bool) (rest : List Task)
        → is_empty (if b then t ∷ rest else rest) ≡ true
        → (b ≡ false) × (is_empty rest ≡ true)
    split true rest h = absurd (cc)
    split false rest h = (refl, h)

select-select :
    (p r : Task → Bool) (ts : List Task) → select p (select r ts) ≡ select (λ t. r t && p t) ts
unfolding select
select-select p r [] = refl
select-select p r (t ∷ ts) = elim (Bool-cases (r t)) [
  | inl q ↦ rw (q, select-select p r ts) refl
  | inr q ↦ rw (q, select-select p r ts) refl
]

select-all : (ts : List Task) → select (λ t. true) ts ≡ ts
unfolding select
select-all [] = refl
select-all (t ∷ ts) = rw (select-all ts) refl

-- Some of the tasks are there, and each of them depends on one of them.
abbrev pub HasCycle : List Task → Type 0
HasCycle tasks =
    (p : Task → Bool) × (is_empty (select p tasks) ≡ false)
    × (all (waits (select p tasks)) (select p tasks) ≡ true)

HasCycle-all :
    (t : Task) (ts : List Task) → all (waits (t ∷ ts)) (t ∷ ts) ≡ true → HasCycle (t ∷ ts)
HasCycle-all t ts h = ((λ u. true), (rw (select-all (t ∷ ts)) refl), (rw (select-all (t ∷ ts)) h))

HasCycle-select : (r : Task → Bool) (ts : List Task) → HasCycle (select r ts) → HasCycle ts
HasCycle-select r ts (p, h, k) =
    ((λ u. r u && p u), (rw (← select-select p r ts) h), (rw (← select-select p r ts) k))

module _ (runner : TaskType → Option Runner) where
  round-waits :
      (keys processed : List ℕ) (left : List Task)
      → round runner keys processed left ≡ err execution_deadlock
      → all (waits left) left ≡ true
  unfolding round
  round-waits keys processed left h = elim (and_then-err (gather left processed left) _ h) [
    | inl k ↦ absurd ((gather-err left processed left k).0 refl)
    | inr (q, k, h') ↦ elim (and_then-err (check_queued runner keys q) _ h') [
      | inl k' ↦ gather-waits left processed left k ((check_queued-err runner keys q k').0 refl)
      | inr (m, _, h'') ↦ absurd (cc)
    ]
  ]

  check_rounds-HasCycle :
      (fuel : ℕ) (keys processed : List ℕ) (left : List Task)
      → check_rounds runner fuel keys processed left ≡ err execution_deadlock
      → HasCycle left
  unfolding check_rounds
  check_rounds-HasCycle fuel keys processed [] h = absurd (cc)
  check_rounds-HasCycle zero keys processed (t ∷ left) h = absurd (cc)
  check_rounds-HasCycle (suc fuel) keys processed (t ∷ left) h =
      elim (and_then-err (round runner keys processed (t ∷ left)) _ h) [
        | inl k ↦ HasCycle-all t left (round-waits keys processed (t ∷ left) k)
        | inr (r, _, h') ↦
            HasCycle-select (λ u. not (is_left r.0 u.id)) (t ∷ left)
              (check_rounds-HasCycle fuel (keys ++ names r.1) (register r.0 processed)
                (remaining r.0 (t ∷ left)) h')
      ]

  -- If the check of the tasks of an instance says that they are bound to deadlock, then there are
  -- tasks among them of which each depends on another of them or on itself.
  pub check_instance-HasCycle :
      (info : TaskInfo) (tasks : List Task)
      → check_instance runner info tasks ≡ err execution_deadlock
      → HasCycle tasks
  unfolding check_instance
  check_instance-HasCycle info tasks h =
      check_rounds-HasCycle (length tasks) (info_keys info) [] tasks h
