-- ===== src/Minions/Rows.antt =====
-- db/api.py: lemmas on the rows of machines, whose identifiers are primary keys.
use coriolis.Prelude.{
  ℕ, ◌==◌, ==→≡, Bool, Bool-cases, false, ◌||◌, if◌then◌else◌, elem, is_some, length, Option, ℕ,
  select, All, List, [], ◌∷◌, ◌++◌, none, some, ◌≡◌, refl, arith, inl, inr, map,
}
use mathlib.Core.Option
use coriolis.Minions.{Machine, find_machine, change_machine, minion_machines, set_each}

-- No machine of the list has the identifier.
abbrev pub IsFresh : ℕ → List Machine → Type 0
IsFresh i = All (λ m. (m.id == i) ≡ false)

abbrev pub IsDistinct : List Machine → Type 0
IsDistinct [] = Unit {0}
IsDistinct (m ∷ ms) = IsFresh m.id ms × IsDistinct ms

pub elem-append : (a x : ℕ) (xs : List ℕ) → elem a (xs ++ (x ∷ [])) ≡ (elem a xs || x == a)
unfolding elem
elem-append a x [] = ground arith
elem-append a x (y ∷ ys) = ground (arith, elem-append a x ys)

pub IsFresh-select :
    (p : Machine → Bool) (i : ℕ) (ms : List Machine) → IsFresh i ms → IsFresh i (select p ms)
unfolding select
IsFresh-select p i [] h = tt
IsFresh-select p i (m ∷ ms) h = ground (arith, IsFresh-select p i ms)

pub IsDistinct-select :
    (p : Machine → Bool) (ms : List Machine) → IsDistinct ms → IsDistinct (select p ms)
unfolding select
IsDistinct-select p [] h = tt
IsDistinct-select p (m ∷ ms) h = ground (arith, IsDistinct-select p ms, IsFresh-select p m.id ms)

abbrev pub ids : List Machine → List ℕ
ids ms = map (λ m. m.id) ms

abbrev pub filtered : (Machine → Bool) → Option Machine → Option Machine
filtered p none = none
filtered p (some m) = if p m then some m else none

pub find-fresh : (i : ℕ) (ms : List Machine) → IsFresh i ms → find_machine i ms ≡ none
unfolding find_machine
find-fresh i [] h = refl
find-fresh i (m ∷ ms) h = ground (arith, find-fresh i ms)

pub find-select :
    (p : Machine → Bool) (i : ℕ) (ms : List Machine)
    → IsDistinct ms
    → find_machine i (select p ms) ≡ filtered p (find_machine i ms)
unfolding find_machine select
find-select p i [] d = refl
find-select p i (m ∷ ms) d = elim (Bool-cases (m.id == i)) [
  | inl e ↦
      let same = ==→≡ m.id i e in
      let last = find-fresh m.id ms d.0 in
      let gone = find-fresh m.id (select p ms) (IsFresh-select p m.id ms d.0) in ground arith
  | inr e ↦ ground (arith, find-select p i ms d.1)
]

pub elem-ids : (i : ℕ) (ms : List Machine) → elem i (ids ms) ≡ is_some (find_machine i ms)
unfolding elem find_machine
elem-ids i [] = refl
elem-ids i (m ∷ ms) = ground (arith, elem-ids i ms)

pub find-append :
    (i : ℕ) (ms ns : List Machine) {m : Machine}
    → find_machine i ms ≡ some m
    → find_machine i (ms ++ ns) ≡ some m
unfolding find_machine
find-append i [] ns h = cc
find-append i (n ∷ ms) ns {m} h = ground (arith, find-append i ms ns {m = m})

pub find-id : (i : ℕ) (ms : List Machine) {m : Machine} → find_machine i ms ≡ some m → m.id ≡ i
unfolding find_machine
find-id i [] h = cc
find-id i (n ∷ ms) {m} h = ground (arith, find-id i ms {m = m})

-- A change that keeps the keys of a row.
pub record IsKeyed (f : Machine → Machine) : Type 0 where
  pub id_kept : (m : Machine) → (f m).id ≡ m.id
  pub pool_kept : (m : Machine) → (f m).pool_id ≡ m.pool_id

module _ (f : Machine → Machine) (k : IsKeyed f) where
  find-change :
      (i j : ℕ) (ms : List Machine)
      → find_machine j (change_machine i f ms)
        ≡ (if i == j then Option.map f (find_machine j ms) else find_machine j ms)
  unfolding find_machine change_machine
  find-change i j [] = ground arith
  find-change i j (m ∷ ms) = ground (arith, k.id_kept m, find-change i j ms)

  pub find-set_each :
      (is : List ℕ) (j : ℕ) (ms : List Machine)
      → elem j is ≡ false
      → find_machine j (set_each is f ms) ≡ find_machine j ms
  unfolding set_each elem
  find-set_each [] j ms h = refl
  find-set_each (i ∷ is) j ms h =
      ground (arith, find-set_each is j (change_machine i f ms), find-change i j ms)

  length-change :
      (pool_id i : ℕ) (ms : List Machine)
      → length (minion_machines pool_id (change_machine i f ms))
        ≡ length (minion_machines pool_id ms)
  unfolding minion_machines select change_machine
  length-change pool_id i [] = refl
  length-change pool_id i (m ∷ ms) = ground (arith, k.pool_kept m, length-change pool_id i ms)

  pub length-set_each :
      (pool_id : ℕ) (is : List ℕ) (ms : List Machine)
      → length (minion_machines pool_id (set_each is f ms)) ≡ length (minion_machines pool_id ms)
  unfolding set_each
  length-set_each pool_id [] ms = refl
  length-set_each pool_id (i ∷ is) ms =
      rw (length-set_each pool_id is (change_machine i f ms)) (length-change pool_id i ms)
