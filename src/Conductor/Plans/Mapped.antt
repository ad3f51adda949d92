-- ===== src/Conductor/Plans/Mapped.antt =====
-- Results that succeed together, and `map` under the tests on lists.
use coriolis.Prelude.{
  Bool, Bool-cases, all, any, select, length, map, List, [], ◌∷◌, ◌++◌, ◌≡◌, refl, inl, inr,
}
use coriolis.Action.{Result, ok, err, and_then}

-- Where the first succeeds, so does the second, with the image of its value.
abbrev pub Maps : {A B : Type 0} → (A → B) → Result A → Result B → Type 0
Maps {A} h x y = (a : A) → x ≡ ok a → y ≡ ok (h a)

pub and_then-Maps :
    {A B C D : Type 0} (h : A → B) (k : C → D) (x : Result A) (y : Result B) (f : A → Result C)
    (g : B → Result D)
    → Maps h x y
    → ((a : A) → Maps k (f a) (g (h a)))
    → Maps k (and_then x f) (and_then y g)
and_then-Maps h k (ok a) y f g r s c e = rw (r a refl) (s a c e)
and_then-Maps h k (err x) y f g r s c e = absurd (cc)

module _ {A B : Type 0} (f : A → B) where
  pub any-map : (p : B → Bool) (xs : List A) → any p (map f xs) ≡ any (λ x. p (f x)) xs
  unfolding any
  any-map p [] = refl
  any-map p (x ∷ xs) = rw (any-map p xs) refl

  pub all-map : (p : B → Bool) (xs : List A) → all p (map f xs) ≡ all (λ x. p (f x)) xs
  unfolding all
  all-map p [] = refl
  all-map p (x ∷ xs) = rw (all-map p xs) refl

  pub length-map : (xs : List A) → length (map f xs) ≡ length xs
  length-map [] = refl
  length-map (x ∷ xs) = rw (length-map xs) refl

module _ {A : Type 0} (p q : A → Bool) (e : (x : A) → p x ≡ q x) where
  pub any-same : (xs : List A) → any p xs ≡ any q xs
  unfolding any
  any-same [] = refl
  any-same (x ∷ xs) = rw (e x, any-same xs) refl

  pub all-same : (xs : List A) → all p xs ≡ all q xs
  unfolding all
  all-same [] = refl
  all-same (x ∷ xs) = rw (e x, all-same xs) refl

pub select-map :
    {A : Type 0} (f : A → A) (p q : A → Bool)
    → ((x : A) → p (f x) ≡ q x)
    → (xs : List A) → select p (map f xs) ≡ map f (select q xs)
unfolding select
select-map f p q g [] = refl
select-map f p q g (x ∷ xs) = elim (Bool-cases (q x)) [
  | inl h ↦ rw (g x, h, select-map f p q g xs) refl
  | inr h ↦ rw (g x, h, select-map f p q g xs) refl
]

pub map-append :
    {A B : Type 0} (f : A → B) (xs ys : List A) → map f (xs ++ ys) ≡ map f xs ++ map f ys
map-append f [] ys = refl
map-append f (x ∷ xs) ys = rw (map-append f xs ys) refl

pub ok-Maps : {A B : Type 0} (h : A → B) (a : A) (b : B) → b ≡ h a → Maps h (ok a) (ok b)
ok-Maps h a b e c d = cc
