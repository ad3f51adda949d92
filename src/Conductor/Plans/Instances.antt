-- ===== src/Conductor/Plans/Instances.antt =====
-- The tasks and the task info of one instance among those of an execution.
use coriolis.Prelude.{
  ℕ, ◌==◌, ==→≡, ==_refl, Bool, Bool-cases, true, false, select, elem, All, lookup, lookup-insert,
  length, map, Dict, List, [], ◌∷◌, ◌++◌, some, ◌≡◌, refl, ap, ◌∙◌, inl, inr,
}
use coriolis.Db.{Task, TaskInfo, get_or_empty}
use coriolis.Conductor.Plans.Info.{Given, ExecutionKind, create_tasks, prepare_info}
use coriolis.Conductor.Plans.Uuids.{with_uuids, create_all, prepare_all}
use coriolis.Conductor.Plans.Owned.{IsOwned, create_tasks-owned}

-- The tasks of an instance, and all identifiers of a list differ.
abbrev pub of_instance : ℕ → Task → Bool
of_instance i t = t.instance_id == i

abbrev pub AreDistinct : List ℕ → Type 0
AreDistinct [] = Unit {0}
AreDistinct (i ∷ is) = (elem i is ≡ false) × AreDistinct is

append-nil : {A : Type 0} (xs : List A) → xs ++ [] ≡ xs
append-nil [] = refl
append-nil (x ∷ xs) = ap (λ ys. x ∷ ys) (append-nil xs)

pub All-elem : (P : ℕ → Type 0) (xs : List ℕ) (i : ℕ) → All P xs → elem i xs ≡ true → P i
unfolding elem
All-elem P [] i h e = absurd (cc)
All-elem P (x ∷ xs) i h e = elim (Bool-cases (x == i)) [
  | inl q ↦ rw (← ==→≡ x i q) h.0
  | inr q ↦ All-elem P xs i h.1 (rw (q) at e)
]

select-append :
    (p : Task → Bool) (xs ys : List Task) → select p (xs ++ ys) ≡ select p xs ++ select p ys
unfolding select
select-append p [] ys = refl
select-append p (x ∷ xs) ys = elim (Bool-cases (p x)) [
  | inl q ↦ rw (q, select-append p xs ys) refl
  | inr q ↦ rw (q, select-append p xs ys) refl
]

module _ (u : ℕ → ℕ) (k i j : ℕ) where
  select-own :
      (ts : List Task)
      → (j == i) ≡ true
      → All (IsOwned j) ts
      → select (of_instance i) (map (with_uuids u k) ts) ≡ map (with_uuids u k) ts
  unfolding select
  select-own [] e h = refl
  select-own (t ∷ ts) e h = rw (h.0, e, select-own ts e h.1) refl

  select-other :
      (ts : List Task)
      → (j == i) ≡ false
      → All (IsOwned j) ts
      → select (of_instance i) (map (with_uuids u k) ts) ≡ []
  unfolding select
  select-other [] e h = refl
  select-other (t ∷ ts) e h = rw (h.0, e, select-other ts e h.1) refl

module _ (uuid : ℕ → ℕ → ℕ) (kind : ℕ → ExecutionKind) (i : ℕ) where
  -- What the tasks of another instance add.
  others-none :
      (j : ℕ) (ts : List Task)
      → (j == i) ≡ false
      → select
          (of_instance i)
          (ts ++ map (with_uuids (uuid j) (length ts)) (create_tasks j (kind j) []).1)
        ≡ select (of_instance i) ts
  others-none j ts e =
      select-append (of_instance i) ts _
      ∙ rw
          (select-other (uuid j) (length ts) i j (create_tasks j (kind j) []).1 e
            (create_tasks-owned j (kind j)))
          (append-nil (select (of_instance i) ts))

  create_all-others :
      (is : List ℕ) (ts : List Task)
      → elem i is ≡ false
      → select (of_instance i) (create_all uuid kind is ts) ≡ select (of_instance i) ts
  unfolding create_all elem
  create_all-others [] ts h = refl
  create_all-others (j ∷ is) ts h = elim (Bool-cases (j == i)) [
    | inl q ↦ let h' = rw (q) at h in absurd (cc)
    | inr q ↦ create_all-others is _ (rw (q) at h) ∙ others-none j ts q
  ]

  pub create_all-own :
      (is : List ℕ) (ts : List Task)
      → AreDistinct is
      → elem i is ≡ true
      → select (of_instance i) ts ≡ []
      → (k : ℕ) × (select (of_instance i) (create_all uuid kind is ts)
          ≡ map (with_uuids (uuid i) k) (create_tasks i (kind i) []).1)
  unfolding create_all elem
  create_all-own [] ts d h n = absurd (cc)
  create_all-own (j ∷ is) ts d h n = elim (Bool-cases (j == i)) [
    | inl q ↦
        let e = ==→≡ j i q in
        (
          length ts,
          create_all-others is _ (rw (← e) d.0)
              ∙ select-append (of_instance i) ts _
              ∙ rw (n, e)
                  (select-own (uuid i) (length ts) i i (create_tasks i (kind i) []).1 (==_refl i)
                    (create_tasks-owned i (kind i))),
        )
    | inr q ↦ create_all-own is _ d.1 (rw (q) at h) (others-none j ts q ∙ n)
  ]

module _ (kind : ℕ → ExecutionKind) (i : ℕ) (given : ℕ → Given) where
  prepare_all-others :
      (is : List ℕ) (info : Dict TaskInfo)
      → elem i is ≡ false
      → lookup i (prepare_all kind given is info) ≡ lookup i info
  unfolding prepare_all elem
  prepare_all-others [] info h = refl
  prepare_all-others (j ∷ is) info h = elim (Bool-cases (j == i)) [
    | inl q ↦ let h' = rw (q) at h in absurd (cc)
    | inr q ↦ prepare_all-others is _ (rw (q) at h) ∙ lookup-insert j i _ info ∙ rw q refl
  ]

  pub prepare_all-own :
      (is : List ℕ) (info : Dict TaskInfo)
      → AreDistinct is
      → elem i is ≡ true
      → lookup i (prepare_all kind given is info)
        ≡ some (prepare_info (given i) (kind i) (get_or_empty (lookup i info)))
  unfolding prepare_all elem
  prepare_all-own [] info d h = absurd (cc)
  prepare_all-own (j ∷ is) info d h = elim (Bool-cases (j == i)) [
    | inl q ↦
        let e = ==→≡ j i q in
        prepare_all-others is _ (rw (← e) d.0) ∙ lookup-insert j i _ info ∙ rw (q, e) refl
    | inr q ↦
        prepare_all-own is _ d.1 (rw (q) at h)
        ∙ rw
            (
              lookup-insert j i (prepare_info (given j) (kind j) (get_or_empty (lookup j info)))
                  info,
              q,
            )
            refl
  ]
