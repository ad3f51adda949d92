-- ===== src/Prelude/Every.antt =====
-- Predicates on all and on some of the members of a list, and the Boolean tests for them.
use mathlib.Core.Path.{◌≡◌, refl}
use mathlib.Core.Logic.{◌⊎◌, inl, inr}
use mathlib.Core.Bool.{Bool, true, false}
use mathlib.Core.List.{List, [], ◌∷◌}
use native.Mathlib.Omega.{arith}
use coriolis.Prelude.Tests.{all, any}

module _ {ℓ} {A : Type ℓ} (P : A → Type 0) where
  abbrev pub All : List A → Type 0
  All [] = Unit {0}
  All (x ∷ xs) = P x × All xs

  abbrev pub Some : List A → Type 0
  Some [] = ⊥
  Some (x ∷ xs) = P x ⊎ Some xs

module _ {ℓ} {A : Type ℓ} (p : A → Bool) where
  pub all-All : (xs : List A) → all p xs ≡ true → All (λ x. p x ≡ true) xs
  unfolding all
  all-All [] h = tt
  all-All (x ∷ xs) h = ground (arith, all-All xs)

  pub All-all : (xs : List A) → All (λ x. p x ≡ true) xs → all p xs ≡ true
  unfolding all
  All-all [] h = refl
  All-all (x ∷ xs) h = ground (arith, All-all xs)

  pub any-Some : (xs : List A) → any p xs ≡ true → Some (λ x. p x ≡ true) xs
  unfolding any
  any-Some [] h = cc
  any-Some (x ∷ xs) h = ground (arith, any-Some xs)

  pub Some-any : (xs : List A) → Some (λ x. p x ≡ true) xs → any p xs ≡ true
  unfolding any
  Some-any [] h = absurd h
  Some-any (x ∷ xs) h = ground (arith, Some-any xs)

  pub any-none : (xs : List A) → any p xs ≡ false → All (λ x. p x ≡ false) xs
  unfolding any
  any-none [] h = tt
  any-none (x ∷ xs) h = ground (arith, any-none xs)

  pub none-any : (xs : List A) → All (λ x. p x ≡ false) xs → any p xs ≡ false
  unfolding any
  none-any [] h = refl
  none-any (x ∷ xs) h = ground (arith, none-any xs)

module _ {ℓ} {A : Type ℓ} {P Q : A → Type 0} (f : (x : A) → P x → Q x) where
  pub All-map : (xs : List A) → All P xs → All Q xs
  All-map [] h = tt
  All-map (x ∷ xs) h = (f x h.0, All-map xs h.1)

  pub Some-map : (xs : List A) → Some P xs → Some Q xs
  Some-map [] h = h
  Some-map (x ∷ xs) (inl h) = inl (f x h)
  Some-map (x ∷ xs) (inr h) = inr (Some-map xs h)
