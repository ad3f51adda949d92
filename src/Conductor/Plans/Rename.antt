-- ===== src/Conductor/Plans/Rename.antt =====
-- The check of tasks does not depend on their identifiers, as long as these are distinct.
use coriolis.Prelude.{
  ℕ, zero, suc, ◌==◌, Bool, Bool-cases, true, false, not, ◌&&◌, if◌then◌else◌, any, elem, is_empty,
  lookup, insert, length, map, List, [], ◌∷◌, ◌++◌, Option, ◌≡◌, refl, ◌∙◌, inl, inr,
}
use coriolis.Constants.{TaskType}
use coriolis.Action.{ok, err, task_fields_conflict}
use coriolis.Db.{Task, TaskInfo}
use coriolis.Conductor.Sanity.{
  Runner, Modified, is_left, met, check_requirements, collect_fields, check_queued, gather, queue,
  round, check_rounds, check_instance, names, remaining, register, info_keys, is_shared, add_fields,
  ids_of,
}
use coriolis.Conductor.Plans.Uuids.{with_uuids}
use coriolis.Conductor.Plans.Mapped.{
  Maps, and_then-Maps, any-map, all-map, length-map, any-same, all-same, select-map, map-append,
  ok-Maps,
}

module _ (u : ℕ → ℕ) (inj : (a b : ℕ) → (u a == u b) ≡ (a == b)) (k : ℕ) where
  abbrev place : Task → Task
  place = with_uuids u k

  elem-map : (a : ℕ) (xs : List ℕ) → elem (u a) (map u xs) ≡ elem a xs
  unfolding elem
  elem-map a [] = refl
  elem-map a (x ∷ xs) = rw (inj x a, elem-map a xs) refl

  is_left-map : (left : List Task) (d : ℕ) → is_left (map place left) (u d) ≡ is_left left d
  is_left-map left d =
      any-map place (λ t. t.id == u d) left
      ∙ any-same (λ t. u t.id == u d) (λ t. t.id == d) (λ t. inj t.id d) left

  queue-map :
      (left : List Task) (processed : List ℕ) (t : Task)
      → queue (map place left) (map u processed) (place t) ≡ queue left processed t
  unfolding queue
  queue-map left processed t =
      let unknown =
        any-map u (λ d. not (is_left (map place left) d) && not (elem d (map u processed)))
          t.depends_on
        ∙ any-same _ (λ d. not (is_left left d) && not (elem d processed))
            (λ d. rw (is_left-map left d, elem-map d processed) refl) t.depends_on in
      let ready =
        all-map u (λ d. elem d (map u processed)) t.depends_on
        ∙ all-same _ (λ d. elem d processed) (λ d. elem-map d processed) t.depends_on in
      rw (unknown, ready, is_empty-map t.depends_on) refl
    where
      is_empty-map : (xs : List ℕ) → is_empty (map u xs) ≡ is_empty xs
      is_empty-map [] = refl
      is_empty-map (x ∷ xs) = refl

  gather-Maps :
      (left : List Task) (processed : List ℕ) (ts : List Task)
      → Maps
          (map place)
          (gather left processed ts)
          (gather (map place left) (map u processed) (map place ts))
  unfolding gather
  gather-Maps left processed [] = ok-Maps (map place) [] [] refl
  gather-Maps left processed (t ∷ ts) =
      and_then-Maps (λ b. b) (map place) (queue left processed t) _ _ _
        (λ b h. queue-map left processed t ∙ h)
        λ b.
          and_then-Maps (map place) (map place) (gather left processed ts) _ _ _
            (gather-Maps left processed ts) (kept b)
    where
      kept :
          (b : Bool) (rest : List Task)
          → Maps
              (map place)
              (ok (if b then t ∷ rest else rest))
              (ok (if b then place t ∷ map place rest else map place rest))
      kept true rest = ok-Maps (map place) (t ∷ rest) _ refl
      kept false rest = ok-Maps (map place) rest _ refl

  abbrev renamed : Modified → Modified
  renamed [] = []
  renamed ((f, ids) ∷ m) = (f, map u ids) ∷ renamed m

  ids_of-renamed :
      (f : ℕ) (m : Modified) → ids_of (lookup f (renamed m)) ≡ map u (ids_of (lookup f m))
  unfolding lookup
  ids_of-renamed f [] = refl
  ids_of-renamed f ((g, ids) ∷ m) = elim (Bool-cases (g == f)) [
    | inl q ↦ rw q refl
    | inr q ↦ rw q (ids_of-renamed f m)
  ]

  insert-renamed :
      (f : ℕ) (ids : List ℕ) (m : Modified)
      → insert f (map u ids) (renamed m) ≡ renamed (insert f ids m)
  unfolding insert
  insert-renamed f ids [] = refl
  insert-renamed f ids ((g, xs) ∷ m) = elim (Bool-cases (g == f)) [
    | inl q ↦ rw q refl
    | inr q ↦ rw (q, insert-renamed f ids m) refl
  ]

  add_fields-renamed :
      (i : ℕ) (fields : List ℕ) (m : Modified)
      → add_fields (u i) fields (renamed m) ≡ renamed (add_fields i fields m)
  unfolding add_fields
  add_fields-renamed i [] m = refl
  add_fields-renamed i (f ∷ fields) m =
      let ids = ids_of (lookup f m) in
      rw (ids_of-renamed f m, ← map-append u ids (i ∷ []), insert-renamed f (ids ++ i ∷ []) m)
        (add_fields-renamed i fields (insert f (ids ++ i ∷ []) m))

  names-renamed : (m : Modified) → names (renamed m) ≡ names m
  names-renamed [] = refl
  names-renamed ((f, ids) ∷ m) = rw (names-renamed m) refl

  is_shared-map : (ids : List ℕ) → is_shared (map u ids) ≡ is_shared ids
  is_shared-map [] = refl
  is_shared-map (i ∷ []) = refl
  is_shared-map (i ∷ j ∷ ids) = refl

  shared-renamed :
      (m : Modified) → any (λ e. is_shared e.1) (renamed m) ≡ any (λ e. is_shared e.1) m
  unfolding any
  shared-renamed [] = refl
  shared-renamed ((f, ids) ∷ m) = rw (is_shared-map ids, shared-renamed m) refl

  register-map :
      (queued : List Task) (processed : List ℕ)
      → register (map place queued) (map u processed) ≡ map u (register queued processed)
  register-map [] processed = refl
  register-map (t ∷ queued) processed = register-map queued (t.id ∷ processed)

  remaining-map :
      (queued left : List Task)
      → remaining (map place queued) (map place left) ≡ map place (remaining queued left)
  remaining-map queued left =
      select-map place _ (λ t. not (is_left queued t.id)) (λ t. rw (is_left-map queued t.id) refl)
        left

  module _ (runner : TaskType → Option Runner) where
    collect_fields-Maps :
        (keys : List ℕ) (ts : List Task) (m : Modified)
        → Maps renamed
            (collect_fields runner keys ts m)
            (collect_fields runner keys (map place ts) (renamed m))
    unfolding collect_fields check_requirements
    collect_fields-Maps keys [] m = ok-Maps renamed m (renamed m) refl
    collect_fields-Maps keys (t ∷ ts) m =
        and_then-Maps (λ fs. fs) renamed (met keys (runner t.task_type)) _ _ _ (λ fs h. h)
          λ fs.
            rw (add_fields-renamed t.id fs m) (collect_fields-Maps keys ts (add_fields t.id fs m))

    check_queued-Maps :
        (keys : List ℕ) (ts : List Task)
        → Maps renamed (check_queued runner keys ts) (check_queued runner keys (map place ts))
    unfolding check_queued
    check_queued-Maps keys [] = λ a h. absurd (cc)
    check_queued-Maps keys (t ∷ ts) =
        and_then-Maps renamed renamed (collect_fields runner keys (t ∷ ts) []) _ _ _
          (collect_fields-Maps keys (t ∷ ts) []) λ m. rw (shared-renamed m) (apart m)
      where
        apart :
            (m : Modified)
            → Maps renamed
                (if any (λ e. is_shared e.1) m then err task_fields_conflict else ok m)
                (if any (λ e. is_shared e.1) m then err task_fields_conflict else ok (renamed m))
        apart m = elim (Bool-cases (any (λ e. is_shared e.1) m)) [
          | inl q ↦ rw q (λ a h. absurd (cc))
          | inr q ↦ rw q (ok-Maps renamed m (renamed m) refl)
        ]

    round-Maps :
        (keys processed : List ℕ) (left : List Task)
        → Maps
            (λ r. (map place r.0, renamed r.1))
            (round runner keys processed left)
            (round runner keys (map u processed) (map place left))
    unfolding round
    round-Maps keys processed left =
        and_then-Maps (map place) _ (gather left processed left) _ _ _
          (gather-Maps left processed left)
          λ queued.
            and_then-Maps renamed _ (check_queued runner keys queued) _ _ _
              (check_queued-Maps keys queued)
              λ m. ok-Maps _ (queued, m) (map place queued, renamed m) refl

    check_rounds-Maps :
        (fuel : ℕ) (keys processed : List ℕ) (left : List Task)
        → Maps
            (λ x. x)
            (check_rounds runner fuel keys processed left)
            (check_rounds runner fuel keys (map u processed) (map place left))
    unfolding check_rounds
    check_rounds-Maps fuel keys processed [] = λ a h. h
    check_rounds-Maps zero keys processed (t ∷ left) = λ a h. absurd (cc)
    check_rounds-Maps (suc fuel) keys processed (t ∷ left) =
        and_then-Maps (λ r. (map place r.0, renamed r.1)) (λ x. x)
          (round runner keys processed (t ∷ left)) _ _ _ (round-Maps keys processed (t ∷ left))
          λ r.
            rw (names-renamed r.1, register-map r.0 processed, remaining-map r.0 (t ∷ left))
              (check_rounds-Maps fuel (keys ++ names r.1) (register r.0 processed)
                (remaining r.0 (t ∷ left)))

    pub check_instance-renamed :
        (info : TaskInfo) (ts : List Task)
        → check_instance runner info ts ≡ ok tt
        → check_instance runner info (map place ts) ≡ ok tt
    unfolding check_instance
    check_instance-renamed info ts h =
        rw (length-map place ts) (check_rounds-Maps (length ts) (info_keys info) [] ts tt h)
