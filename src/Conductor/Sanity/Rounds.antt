-- ===== src/Conductor/Sanity/Rounds.antt =====
-- What it means that the check of the tasks of an instance succeeds.
use mathlib.Core.Bool.{true≢false}
use coriolis.Prelude.{
  length, lookup, ℕ, zero, suc, Bool, Bool-cases, true, false, ◌||◌, if◌then◌else◌, all, any,
  select, elem, is_empty, List, [], ◌∷◌, ◌++◌, Option, none, some, ◌≡◌, refl, sym, ◌∙◌, ◌⊎◌, arith,
  inl, inr, subst, All, All-map, all-All,
}
use coriolis.Constants.{TaskType}
use coriolis.Action.{ok, err, task_fields_conflict}
use coriolis.Action.Laws.{ok-injective, and_then-ok}
use coriolis.Db.{Task, TaskInfo}
use coriolis.Conductor.Sanity.{
  met, Runner, Modified, queue, gather, add_fields, is_shared, names, remaining, register,
  info_keys, check_requirements, collect_fields, check_queued, round, check_rounds, check_instance,
}
use coriolis.Conductor.Sanity.Fields.{
  add_seen, Apart, Fills, Conflict, Conflict-any, add_fields-Fills, add_fields-Apart,
  add_fields-Conflict, elem-names,
}

-- The tasks whose dependencies are all processed.
abbrev pub ready : List ℕ → List Task → List Task
ready processed left = select (λ t. all (λ d. elem d processed) t.depends_on) left

abbrev pub fields_of : Option Runner → List ℕ
fields_of none = []
fields_of (some r) = r.returned

-- The task has a runner, whose required fields are there.
abbrev pub IsSupplied : List ℕ → Option Runner → Type 0
IsSupplied keys none = ⊥
IsSupplied keys (some r) = All (λ p. elem p keys ≡ true) r.required

module _ (runner : TaskType → Option Runner) where
  -- No two of the tasks return the same field, given those that were seen.
  abbrev pub AreApart : List ℕ → List Task → Type 0
  AreApart seen [] = Unit {0}
  AreApart seen (t ∷ ts) =
      let fields = fields_of (runner t.task_type) in
      Apart seen fields × AreApart (add_seen fields seen) ts

  abbrev pub returned_by : List ℕ → List Task → List ℕ
  returned_by seen [] = seen
  returned_by seen (t ∷ ts) = returned_by (add_seen (fields_of (runner t.task_type)) seen) ts

  -- The tasks can be run in rounds: in each, those that run are all whose dependencies were
  -- processed in earlier rounds, there is at least one, they find the fields that they require,
  -- and no two of them return the same field.
  pub data Rounds : List ℕ → List ℕ → List Task → Type 0 where
    finished : {keys processed : List ℕ} → Rounds keys processed []
    next :
        {keys processed : List ℕ} {t : Task} {left : List Task}
        → is_empty (ready processed (t ∷ left)) ≡ false
        → All (λ u. IsSupplied keys (runner u.task_type)) (ready processed (t ∷ left))
        → AreApart [] (ready processed (t ∷ left))
        → Rounds
            (keys ++ returned_by [] (ready processed (t ∷ left)))
            (register (ready processed (t ∷ left)) processed)
            (remaining (ready processed (t ∷ left)) (t ∷ left))
        → Rounds keys processed (t ∷ left)

empty-all : (p : ℕ → Bool) (ds : List ℕ) → is_empty ds ≡ true → all p ds ≡ true
unfolding all
empty-all p [] h = refl
empty-all p (d ∷ ds) h = absurd (cc)

pub queue-ok :
    (left : List Task) (processed : List ℕ) (t : Task) {b : Bool}
    → queue left processed t ≡ ok b
    → b ≡ all (λ d. elem d processed) t.depends_on
unfolding queue
queue-ok left processed t h = ground (arith, empty-all (λ d. elem d processed) t.depends_on)

pub gather-ready :
    (left : List Task) (processed : List ℕ) (ts : List Task) {q : List Task}
    → gather left processed ts ≡ ok q
    → q ≡ ready processed ts
unfolding gather select
gather-ready left processed [] {q} h = ok-injective q [] (sym h)
gather-ready left processed (t ∷ ts) {q} h =
    let (b, k, h') = and_then-ok (queue left processed t) _ h in
    let (rest, k', h'') = and_then-ok (gather left processed ts) _ h' in
    ok-injective q (if b then t ∷ rest else rest) (sym h'')
    ∙ rw (queue-ok left processed t k, gather-ready left processed ts k') refl

elem-append : (f : ℕ) (xs ys : List ℕ) → elem f (xs ++ ys) ≡ (elem f xs || elem f ys)
unfolding elem
elem-append f [] ys = refl
elem-append f (x ∷ xs) ys = ground (arith, elem-append f xs ys)

met-ok :
    (keys : List ℕ) (r : Option Runner) {fields : List ℕ}
    → met keys r ≡ ok fields
    → IsSupplied keys r × (fields ≡ fields_of r)
met-ok keys none h = absurd (cc)
met-ok keys (some r) {fields} h = elim (Bool-cases (all (λ p. elem p keys) r.required)) [
  | inl q ↦
      (all-All (λ p. elem p keys) r.required q, ok-injective fields r.returned (sym (rw q at h)))
  | inr q ↦ absurd (let h' = rw q at h in cc)
]

module _ (runner : TaskType → Option Runner) (keys : List ℕ) where
  collect_fields-Conflict :
      (q : List Task) (m : Modified) {m' : Modified}
      → collect_fields runner keys q m ≡ ok m'
      → Conflict m
      → Conflict m'
  unfolding collect_fields
  collect_fields-Conflict [] m {m'} h c = subst Conflict (ok-injective m m' h) c
  collect_fields-Conflict (t ∷ q) m h c =
      let (fields, k, h') = and_then-ok (check_requirements runner keys t) _ h in
      collect_fields-Conflict q (add_fields t.id fields m) h' (add_fields-Conflict t.id fields m c)

  collect_fields-ok :
      (q : List Task) (seen : List ℕ) (m : Modified) {m' : Modified}
      → collect_fields runner keys q m ≡ ok m'
      → Fills seen m
      → (Conflict m' → ⊥)
      → All (λ u. IsSupplied keys (runner u.task_type)) q
        × AreApart runner seen q
        × Fills (returned_by runner seen q) m'
  unfolding collect_fields check_requirements
  collect_fields-ok [] seen m {m'} h w quiet = (tt, tt, subst (Fills seen) (ok-injective m m' h) w)
  collect_fields-ok (t ∷ q) seen m h w quiet =
      let (fields, k, h') = and_then-ok (check_requirements runner keys t) _ h in
      let (supplied, same) = met-ok keys (runner t.task_type) k in
      let m₁ = add_fields t.id fields m in
      let seen₁ = add_seen fields seen in
      let w₁ = add_fields-Fills t.id fields seen m w in
      let (all_supplied, apart, fills) = collect_fields-ok q seen₁ m₁ h' w₁ quiet in
      let fresh =
        add_fields-Apart t.id fields seen m w (λ c. quiet (collect_fields-Conflict q m₁ h' c)) in
      rw (← same) ((supplied, all_supplied), (fresh, apart), fills)

  -- What one turn of the loop has found out.
  pub record Checked (q : List Task) (m : Modified) : Type 0 where
    pub inhabited : is_empty q ≡ false
    supplied : All (λ u. IsSupplied keys (runner u.task_type)) q
    apart : AreApart runner [] q
    fills : Fills (returned_by runner [] q) m

  Fills-nothing : Fills [] []
  unfolding elem lookup
  Fills-nothing = record { known = λ f. refl; inhabited = λ f h. cc }

  check_queued-Checked :
      (q : List Task) {m : Modified} → check_queued runner keys q ≡ ok m → Checked q m
  unfolding check_queued
  check_queued-Checked [] h = absurd (cc)
  check_queued-Checked (t ∷ q) {m} h =
      let (m₁, k, h') = and_then-ok (collect_fields runner keys (t ∷ q) []) _ h in
      unshared m₁ k h' (Bool-cases (any (λ e. is_shared e.1) m₁))
    where
      unshared :
          (m₁ : Modified)
          → collect_fields runner keys (t ∷ q) [] ≡ ok m₁
          → (if any (λ e. is_shared e.1) m₁ then err task_fields_conflict else ok m₁) ≡ ok m
          → (any (λ e. is_shared e.1) m₁ ≡ true) ⊎ (any (λ e. is_shared e.1) m₁ ≡ false)
          → Checked (t ∷ q) m
      unshared m₁ k h' (inl p) = absurd (let g = rw p at h' in cc)
      unshared m₁ k h' (inr p) =
          let same = ok-injective m₁ m (rw p at h') in
          let (supplied, apart, fills) =
            collect_fields-ok (t ∷ q) [] [] k Fills-nothing
              (λ c. true≢false (sym (Conflict-any m₁ c) ∙ p)) in
          record {
            inhabited = refl;
            supplied = supplied;
            apart = apart;
            fills = subst (Fills (returned_by runner [] (t ∷ q))) same fills;
          }

  pub round-Checked :
      (processed : List ℕ) (left : List Task) (r : List Task × Modified)
      → round runner keys processed left ≡ ok r
      → (r.0 ≡ ready processed left) × Checked r.0 r.1
  unfolding round
  round-Checked processed left r h =
      let (q, k, h') = and_then-ok (gather left processed left) _ h in
      let (m, k', h'') = and_then-ok (check_queued runner keys q) _ h' in
      subst (λ v. (v.0 ≡ ready processed left) × Checked v.0 v.1) (ok-injective (q, m) r h'')
        (gather-ready left processed left k, check_queued-Checked q k')

IsSupplied-same :
    (keys keys' : List ℕ)
    → ((f : ℕ) → elem f keys ≡ elem f keys')
    → (r : Option Runner) → IsSupplied keys r
    → IsSupplied keys' r
IsSupplied-same keys keys' same none h = h
IsSupplied-same keys keys' same (some r) h = All-map (λ p e. sym (same p) ∙ e) r.required h

module _ (runner : TaskType → Option Runner) where
  check_rounds-Rounds :
      (fuel : ℕ) (keys keys' processed : List ℕ) (left : List Task)
      → ((f : ℕ) → elem f keys ≡ elem f keys')
      → check_rounds runner fuel keys processed left ≡ ok tt
      → Rounds runner keys' processed left
  unfolding check_rounds
  check_rounds-Rounds fuel keys keys' processed [] same h = finished
  check_rounds-Rounds zero keys keys' processed (t ∷ left) same h = absurd (cc)
  check_rounds-Rounds (suc fuel) keys keys' processed (t ∷ left) same h =
      let (r, k, h') = and_then-ok (round runner keys processed (t ∷ left)) _ h in
      let (e, c) = round-Checked runner keys processed (t ∷ left) r k in
      let added = λ (f : ℕ).
        elem-append f keys (names r.1)
        ∙ rw (same f, elem-names f r.1, ← c.fills.known f)
            (sym (elem-append f keys' (returned_by runner [] r.0))) in
      let rest =
        check_rounds-Rounds fuel (keys ++ names r.1) (keys' ++ returned_by runner [] r.0)
          (register r.0 processed) (remaining r.0 (t ∷ left)) added h' in
      next (rw (← e) c.inhabited)
        (rw (← e)
          (All-map (λ u. IsSupplied-same keys keys' same (runner u.task_type)) r.0 c.supplied))
        (rw (← e) c.apart) (rw (← e) rest)

  -- If the check of the tasks of an instance succeeds, they can be run in rounds, from the initial
  -- task info: in each round all tasks whose dependencies are processed, of which there is one at
  -- least, with the fields that they require, and no two of which return the same field.
  pub check_instance-Rounds :
      (info : TaskInfo) (tasks : List Task)
      → check_instance runner info tasks ≡ ok tt
      → Rounds runner (info_keys info) [] tasks
  unfolding check_instance
  check_instance-Rounds info tasks h =
      check_rounds-Rounds (length tasks) (info_keys info) (info_keys info) [] tasks (λ f. refl) h
