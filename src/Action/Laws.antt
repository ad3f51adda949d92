-- ===== src/Action/Laws.antt =====
-- Laws of the statements.
use coriolis.Prelude.{ap, ◌⊎◌, inl, inr, ◌≡◌, ◌≢◌, refl, arith}
use coriolis.Action.{Action, Error, Result, ok, err, pure, raise, modify, continue, and_then, ◌>>=◌}

module _ {S A B : Type 0} where
  pub pure-then : (a : A) (f : A → Action S B) (s : S) → (pure a >>= f) s ≡ f a s
  unfolding ◌>>=◌
  pure-then a f s = refl

  continue-ok :
      (r : Result A) (f : A → Action S B) (t : S) {b : B}
      → (continue r f t).0 ≡ ok b
      → (a : A) × (r ≡ ok a) × ((f a t).0 ≡ ok b)
  continue-ok (ok a) f t h = (a, refl, h)
  continue-ok (err e) f t h = cc

  -- The value of a sequence comes from values of its parts.
  pub bind-ok :
      (m : Action S A) (f : A → Action S B) (s : S) {b : B}
      → ((m >>= f) s).0 ≡ ok b
      → (a : A) × ((m s).0 ≡ ok a) × ((f a (m s).1).0 ≡ ok b)
  unfolding ◌>>=◌
  bind-ok m f s h = continue-ok (m s).0 f (m s).1 h

  continue-eq :
      (r : Result A) (f : A → Action S B) (t : S) {a : A} → r ≡ ok a → continue r f t ≡ f a t
  continue-eq (ok b) f t h = ground arith
  continue-eq (err e) f t h = cc

  -- The rest of a sequence, where its first part returns.
  pub bind-eq :
      (m : Action S A) (f : A → Action S B) (s : S) {a : A}
      → (m s).0 ≡ ok a
      → (m >>= f) s ≡ f a (m s).1
  unfolding ◌>>=◌
  bind-eq m f s h = continue-eq (m s).0 f (m s).1 h

pub modify-then :
    {S B : Type 0} (g : S → S) (f : Unit {0} → Action S B) (s : S) → (modify g >>= f) s ≡ f tt (g s)
unfolding ◌>>=◌
modify-then g f s = refl

pub then-raise :
    {S A B : Type 0} (m : Action S A) (e : Error) (s : S) {b : B}
    → ((m >>= λ _. raise e) s).0 ≢ ok b
then-raise m e s h = let (a, _, p) = bind-ok m (λ _. raise e) s h in cc

pub raise-then :
    {S A B : Type 0} (e : Error) (f : A → Action S B) (s : S) → (raise e >>= f) s ≡ (err e, s)
unfolding ◌>>=◌
raise-then e f s = refl

abbrev value_or : {A : Type 0} → A → Result A → A
value_or a (ok b) = b
value_or a (err e) = a

pub ok-injective : {A : Type 0} (a b : A) → ok a ≡ ok b → a ≡ b
ok-injective a b h = ap (value_or a) h

pub and_then-ok :
    {A B : Type 0} (r : Result A) (f : A → Result B) {b : B}
    → and_then r f ≡ ok b
    → (a : A) × (r ≡ ok a) × (f a ≡ ok b)
and_then-ok (ok a) f h = (a, refl, h)
and_then-ok (err e) f h = absurd (cc)

pub and_then-err :
    {A B : Type 0} (r : Result A) (f : A → Result B) {e : Error}
    → and_then r f ≡ err e
    → (r ≡ err e) ⊎ ((a : A) × (r ≡ ok a) × (f a ≡ err e))
and_then-err (ok a) f h = inr (a, refl, h)
and_then-err (err e) f h = inl (cc)
