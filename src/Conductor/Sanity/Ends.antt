-- ===== src/Conductor/Sanity/Ends.antt =====
-- The check of the tasks of an instance ends.
use coriolis.Prelude.{
  length, ℕ, zero, suc, ◌≤◌, ◌<◌, ==_refl, Bool, Bool-cases, true, false, not, if◌then◌else◌, all,
  any, select, elem, is_empty, List, [], ◌∷◌, ◌++◌, Option, ◌≡◌, ◌≢◌, refl, subst, arith, inl, inr,
  All, All-map,
}
use coriolis.Constants.{TaskType}
use coriolis.Action.{err, out_of_fuel}
use coriolis.Action.Laws.{and_then-err}
use coriolis.Db.{Task, TaskInfo}
use coriolis.Conductor.Sanity.{
  Runner, is_left, names, remaining, register, info_keys, round, check_rounds, check_instance,
}
use coriolis.Conductor.Sanity.Rounds.{ready, round-Checked}
use coriolis.Conductor.Sanity.Stuck.{round-err}

-- Each round leaves fewer tasks.
select-shorter :
    (p : Task → Bool) (ts : List Task)
    → (length (select (λ t. not (p t)) ts) ≤ length ts)
      × (any p ts ≡ true → length (select (λ t. not (p t)) ts) < length ts)
unfolding select any
select-shorter p [] = (omega arith, λ h. absurd (cc))
select-shorter p (t ∷ ts) =
    let (a, b) = select-shorter p ts in
    elim (Bool-cases (p t)) [
      | inl q ↦ rw q ((omega arith), λ h. omega arith)
      | inr q ↦ rw q ((omega arith), λ h. omega (arith, b h))
    ]

ready-left :
    (r : Task → Bool) (ts q : List Task)
    → All (λ u. is_left q u.id ≡ true) (select r ts)
    → is_empty (select r ts) ≡ false
    → any (λ t. is_left q t.id) ts ≡ true
unfolding select any
ready-left r [] q h k = absurd (cc)
ready-left r (t ∷ ts) q h k = elim (Bool-cases (r t)) [
  | inl e ↦ let h' = rw (e, if◌then◌else◌) at h in ground (arith, h'.0)
  | inr e ↦
      let rest = ready-left r ts q (rw (e, if◌then◌else◌) at h) (rw (e, if◌then◌else◌) at k) in
      ground (arith, rest)
]

is_left_self : (q : List Task) → All (λ u. is_left q u.id ≡ true) q
unfolding any
is_left_self [] = tt
is_left_self (t ∷ q) = ((rw (==_refl t.id) refl), All-map (λ u h. later t u h) q (is_left_self q))
  where
    later : (v u : Task) → is_left q u.id ≡ true → is_left (v ∷ q) u.id ≡ true
    later v u h = ground (arith, h)

ready-shorter :
    (processed : List ℕ) (left q : List Task)
    → q ≡ ready processed left
    → is_empty q ≡ false
    → length (remaining q left) < length left
ready-shorter processed left q e h = (select-shorter (λ t. is_left q t.id) left).1 (
    ready-left (λ t. all (λ d. elem d processed) t.depends_on) left q
      (subst (All (λ u. is_left q u.id ≡ true)) e (is_left_self q))
      (subst (λ v. is_empty v ≡ false) e h))

module _ (runner : TaskType → Option Runner) where
  check_rounds-fueled :
      (fuel : ℕ) (keys processed : List ℕ) (left : List Task)
      → length left ≤ fuel
      → check_rounds runner fuel keys processed left ≢ err out_of_fuel
  unfolding check_rounds
  check_rounds-fueled fuel keys processed [] w h = cc
  check_rounds-fueled zero keys processed (t ∷ left) w h = absurd (omega arith)
  check_rounds-fueled (suc fuel) keys processed (t ∷ left) w h =
      elim (and_then-err (round runner keys processed (t ∷ left)) _ h) [
        | inl k ↦ (round-err runner keys processed (t ∷ left) k).1 refl
        | inr (r, k, h') ↦
            let (e, c) = round-Checked runner keys processed (t ∷ left) r k in
            let less = ready-shorter processed (t ∷ left) r.0 e c.inhabited in
            check_rounds-fueled fuel (keys ++ names r.1) (register r.0 processed)
              (remaining r.0 (t ∷ left)) (omega (arith, less)) h'
      ]

  -- The check of the tasks of an instance ends: each round processes a task at least, so as many
  -- rounds as there are tasks are enough.
  pub check_instance-fueled :
      (info : TaskInfo) (tasks : List Task) → check_instance runner info tasks ≢ err out_of_fuel
  unfolding check_instance
  check_instance-fueled info tasks h =
      check_rounds-fueled (length tasks) (info_keys info) [] tasks (omega arith) h
