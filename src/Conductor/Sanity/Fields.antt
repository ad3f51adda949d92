-- ===== src/Conductor/Sanity/Fields.antt =====
-- The fields that the tasks of one round return, and the test that no two return the same.
use mathlib.Core.Bool.{true≢false}
use mathlib.Core.Option.{some-injective}
use coriolis.Prelude.{
  ◌⊎◌, ℕ, ◌==◌, ==→≡, ==_refl, Bool-cases, true, false, if◌then◌else◌, any, elem, is_some, lookup,
  insert, lookup-insert, List, [], ◌∷◌, ◌++◌, Option-cases, some, ◌≡◌, ◌≢◌, refl, sym, ◌∙◌, arith,
  inl, inr,
}
use coriolis.Conductor.Sanity.{Modified, ids_of, add_fields, is_shared, names}

-- The fields in front of those that were seen before.
abbrev pub add_seen : List ℕ → List ℕ → List ℕ
add_seen [] seen = seen
add_seen (f ∷ fields) seen = add_seen fields (f ∷ seen)

-- None of the fields was seen before, and none is there twice.
abbrev pub Apart : List ℕ → List ℕ → Type 0
Apart seen [] = Unit {0}
Apart seen (f ∷ fields) = (elem f seen ≡ false) × Apart (f ∷ seen) fields

-- What a dictionary says if it was filled with the fields that were seen.
pub record Fills (seen : List ℕ) (m : Modified) : Type 0 where
  pub known : (f : ℕ) → elem f seen ≡ is_some (lookup f m)
  pub inhabited : (f : ℕ) → lookup f m ≢ some []

-- Two tasks return one field.
abbrev pub Conflict : Modified → Type 0
Conflict m = (f : ℕ) × (ids : List ℕ) × (lookup f m ≡ some ids) × (is_shared ids ≡ true)

pub Conflict-any : (m : Modified) → Conflict m → any (λ e. is_shared e.1) m ≡ true
unfolding any lookup
Conflict-any [] (f, ids, e, h) = absurd (cc)
Conflict-any ((g, js) ∷ m) (f, ids, e, h) = elim (Bool-cases (g == f)) [
  | inl q ↦ ground (arith, rw (q, if◌then◌else◌) at e, h)
  | inr q ↦ ground (arith, Conflict-any m (f, ids, (rw (q, if◌then◌else◌) at e), h))
]

shared-append : (ids : List ℕ) (i : ℕ) → is_shared ids ≡ true → is_shared (ids ++ i ∷ []) ≡ true
shared-append [] i h = absurd (cc)
shared-append (j ∷ []) i h = absurd (cc)
shared-append (j ∷ k ∷ ids) i h = refl

append-inhabited : (ids : List ℕ) (i : ℕ) → (ids ++ i ∷ []) ≢ []
append-inhabited [] i h = cc
append-inhabited (j ∷ ids) i h = cc

append-shared : (ids : List ℕ) (i : ℕ) → ids ≢ [] → is_shared (ids ++ i ∷ []) ≡ true
append-shared [] i h = absurd (h refl)
append-shared (j ∷ []) i h = refl
append-shared (j ∷ k ∷ ids) i h = refl

abbrev add_field : ℕ → ℕ → Modified → Modified
add_field task_id f m = insert f (ids_of (lookup f m) ++ task_id ∷ []) m

add_field-Conflict : (i f : ℕ) (m : Modified) → Conflict m → Conflict (add_field i f m)
add_field-Conflict i f m (g, ids, e, h) = elim (Bool-cases (f == g)) [
  | inl q ↦ (
    g,
    ids_of (lookup f m) ++ i ∷ [],
    (rw (lookup-insert f g (ids_of (lookup f m) ++ i ∷ []) m, q) refl),
    (rw (==→≡ f g q, e) (shared-append ids i h)),
  )
  | inr q ↦ (g, ids, (rw (lookup-insert f g (ids_of (lookup f m) ++ i ∷ []) m, q) e), h)
]

add_field-Fills :
    (i f : ℕ) (seen : List ℕ) (m : Modified) → Fills seen m → Fills (f ∷ seen) (add_field i f m)
unfolding elem
add_field-Fills i f seen m w = record {
  known = λ g. rw (lookup-insert f g (ids_of (lookup f m) ++ i ∷ []) m) (ground (arith, w.known g));
  inhabited = λ g e. elim (Bool-cases (f == g)) [
    | inl q ↦ append-inhabited (ids_of (lookup f m)) i (
        some-injective (ids_of (lookup f m) ++ i ∷ []) []
          (rw (lookup-insert f g (ids_of (lookup f m) ++ i ∷ []) m, q, if◌then◌else◌) at e))
    | inr q ↦
        w.inhabited g
          (rw (lookup-insert f g (ids_of (lookup f m) ++ i ∷ []) m, q, if◌then◌else◌) at e)
  ];
}

add_field-again :
    (i f : ℕ) (seen : List ℕ) (m : Modified)
    → Fills seen m
    → elem f seen ≡ true
    → Conflict (add_field i f m)
add_field-again i f seen m w h = elim (Option-cases (lookup f m)) [
  | inl e ↦ absurd (true≢false (sym h ∙ w.known f ∙ rw e refl))
  | inr (ids, e) ↦ (
    f,
    ids ++ i ∷ [],
    (rw (lookup-insert f f (ids_of (lookup f m) ++ i ∷ []) m, ==_refl f, e) refl),
    append-shared ids i (λ p. w.inhabited f (rw p at e)),
  )
]

pub add_fields-Conflict :
    (i : ℕ) (fields : List ℕ) (m : Modified) → Conflict m → Conflict (add_fields i fields m)
unfolding add_fields
add_fields-Conflict i [] m h = h
add_fields-Conflict i (f ∷ fields) m h =
    add_fields-Conflict i fields (add_field i f m) (add_field-Conflict i f m h)

pub add_fields-Fills :
    (i : ℕ) (fields seen : List ℕ) (m : Modified)
    → Fills seen m
    → Fills (add_seen fields seen) (add_fields i fields m)
unfolding add_fields
add_fields-Fills i [] seen m w = w
add_fields-Fills i (f ∷ fields) seen m w =
    add_fields-Fills i fields (f ∷ seen) (add_field i f m) (add_field-Fills i f seen m w)

-- Without a conflict in the end, the fields were not there before.
pub add_fields-Apart :
    (i : ℕ) (fields seen : List ℕ) (m : Modified)
    → Fills seen m
    → (Conflict (add_fields i fields m) → ⊥)
    → Apart seen fields
unfolding add_fields
add_fields-Apart i [] seen m w quiet = tt
add_fields-Apart i (f ∷ fields) seen m w quiet = (
  fresh (Bool-cases (elem f seen)),
  add_fields-Apart i fields (f ∷ seen) (add_field i f m) (add_field-Fills i f seen m w) quiet,
)
  where
    fresh : (elem f seen ≡ true) ⊎ (elem f seen ≡ false) → elem f seen ≡ false
    fresh (inl q) =
        absurd
          (quiet (add_fields-Conflict i fields (add_field i f m) (add_field-again i f seen m w q)))
    fresh (inr q) = q

pub elem-names : (f : ℕ) (m : Modified) → elem f (names m) ≡ is_some (lookup f m)
unfolding elem lookup
elem-names f [] = refl
elem-names f ((g, ids) ∷ m) = ground (arith, elem-names f m)
