-- ===== src/Conductor/Plans/More.antt =====
-- A check of tasks that succeeds does so with more fields in the task info too.
use coriolis.Prelude.{
  ℕ, zero, suc, ◌==◌, Bool-cases, true, ◌||◌, if◌then◌else◌, all, elem, insert, update, List, [],
  ◌∷◌, ◌++◌, Option, none, some, length, ◌≡◌, refl, arith, inl, inr,
}
use coriolis.Constants.{TaskType}
use coriolis.Action.{Result, ok, err, and_then}
use coriolis.Db.{Task, TaskInfo}
use coriolis.Conductor.Sanity.{
  Runner, Modified, met, check_requirements, collect_fields, check_queued, gather, round,
  check_rounds, check_instance, names, remaining, register, info_keys, add_fields,
}

abbrev pub Sub : List ℕ → List ℕ → Type 0
Sub xs ys = (f : ℕ) → elem f xs ≡ true → elem f ys ≡ true

-- Where the first succeeds, so does the second, with the same value.
abbrev Refines : {A : Type 0} → Result A → Result A → Type 0
Refines {A} x y = (a : A) → x ≡ ok a → y ≡ ok a

and_then-Refines :
    {A B : Type 0} (x y : Result A) (f g : A → Result B)
    → Refines x y
    → ((a : A) → Refines (f a) (g a))
    → Refines (and_then x f) (and_then y g)
and_then-Refines (ok a) y f g r s b h = rw (r a refl) (s a b h)
and_then-Refines (err e) y f g r s b h = absurd (cc)

all-Sub :
    (ps xs ys : List ℕ)
    → Sub xs ys
    → all (λ p. elem p xs) ps ≡ true
    → all (λ p. elem p ys) ps ≡ true
unfolding all
all-Sub [] xs ys s h = refl
all-Sub (p ∷ ps) xs ys s h = ground (arith, s p, all-Sub ps xs ys s)

elem_append : (f : ℕ) (xs ys : List ℕ) → elem f (xs ++ ys) ≡ (elem f xs || elem f ys)
unfolding elem
elem_append f [] ys = refl
elem_append f (x ∷ xs) ys = ground (arith, elem_append f xs ys)

append-Sub : (xs ys zs : List ℕ) → Sub xs ys → Sub (xs ++ zs) (ys ++ zs)
append-Sub xs ys zs s f h = ground (arith, elem_append f xs zs, elem_append f ys zs, s f)

module _ (runner : TaskType → Option Runner) where
  met-Refines : (xs ys : List ℕ) (r : Option Runner) → Sub xs ys → Refines (met xs r) (met ys r)
  met-Refines xs ys none s a h = absurd (cc)
  met-Refines xs ys (some r) s a h = elim (Bool-cases (all (λ p. elem p xs) r.required)) [
    | inl q ↦ rw (all-Sub r.required xs ys s q) (rw (q, if◌then◌else◌) at h)
    | inr q ↦ let h' = rw (q, if◌then◌else◌) at h in absurd (cc)
  ]

  collect_fields-Refines :
      (xs ys : List ℕ) (ts : List Task) (m : Modified)
      → Sub xs ys
      → Refines (collect_fields runner xs ts m) (collect_fields runner ys ts m)
  unfolding collect_fields check_requirements
  collect_fields-Refines xs ys [] m s = λ a h. h
  collect_fields-Refines xs ys (t ∷ ts) m s =
      and_then-Refines (met xs (runner t.task_type)) (met ys (runner t.task_type)) _ _
        (met-Refines xs ys (runner t.task_type) s)
        λ fields. collect_fields-Refines xs ys ts (add_fields t.id fields m) s

  check_queued-Refines :
      (xs ys : List ℕ) (ts : List Task)
      → Sub xs ys
      → Refines (check_queued runner xs ts) (check_queued runner ys ts)
  unfolding check_queued
  check_queued-Refines xs ys [] s = λ a h. absurd (cc)
  check_queued-Refines xs ys (t ∷ ts) s =
      and_then-Refines (collect_fields runner xs (t ∷ ts) []) (collect_fields runner ys (t ∷ ts) [])
        _ _ (collect_fields-Refines xs ys (t ∷ ts) [] s) λ m a h. h

  round-Refines :
      (xs ys processed : List ℕ) (left : List Task)
      → Sub xs ys
      → Refines (round runner xs processed left) (round runner ys processed left)
  unfolding round
  round-Refines xs ys processed left s =
      and_then-Refines (gather left processed left) (gather left processed left) _ _ (λ a h. h)
        λ queued.
          and_then-Refines (check_queued runner xs queued) (check_queued runner ys queued) _ _
            (check_queued-Refines xs ys queued s) λ m a h. h

  check_rounds-Refines :
      (fuel : ℕ) (xs ys processed : List ℕ) (left : List Task)
      → Sub xs ys
      → Refines
          (check_rounds runner fuel xs processed left)
          (check_rounds runner fuel ys processed left)
  unfolding check_rounds
  check_rounds-Refines fuel xs ys processed [] s = λ a h. h
  check_rounds-Refines zero xs ys processed (t ∷ left) s = λ a h. absurd (cc)
  check_rounds-Refines (suc fuel) xs ys processed (t ∷ left) s =
      and_then-Refines (round runner xs processed (t ∷ left)) (round runner ys processed (t ∷ left))
        _ _ (round-Refines xs ys processed (t ∷ left) s)
        λ r.
          check_rounds-Refines fuel (xs ++ names r.1) (ys ++ names r.1) (register r.0 processed)
            (remaining r.0 (t ∷ left)) (append-Sub xs ys (names r.1) s)

  pub check_instance-more :
      (d e : TaskInfo) (ts : List Task)
      → Sub (info_keys d) (info_keys e)
      → check_instance runner d ts ≡ ok tt
      → check_instance runner e ts ≡ ok tt
  unfolding check_instance
  check_instance-more d e ts s h =
      check_rounds-Refines (length ts) (info_keys d) (info_keys e) [] ts s tt h

elem-insert :
    (f k v : ℕ) (d : TaskInfo)
    → elem f (info_keys (insert k v d)) ≡ (k == f || elem f (info_keys d))
unfolding elem insert
elem-insert f k v [] = refl
elem-insert f k v ((j, w) ∷ d) = ground (arith, elem-insert f k v d)

pub insert-Sub :
    (k v w : ℕ) (d e : TaskInfo)
    → Sub (info_keys d) (info_keys e)
    → Sub (info_keys (insert k v d)) (info_keys (insert k w e))
insert-Sub k v w d e s f h = ground (arith, elem-insert f k v d, elem-insert f k w e, s f)

pub update-Sub :
    (d e c : TaskInfo)
    → Sub (info_keys d) (info_keys e)
    → Sub (info_keys (update d c)) (info_keys (update e c))
unfolding update
update-Sub d e [] s = s
update-Sub d e ((k, v) ∷ c) s = update-Sub (insert k v d) (insert k v e) c (insert-Sub k v v d e s)

pub update-grows : (d c : TaskInfo) → Sub (info_keys d) (info_keys (update d c))
unfolding update
update-grows d [] f h = h
update-grows d ((k, v) ∷ c) f h =
    update-grows (insert k v d) c f (ground (arith, elem-insert f k v d))
