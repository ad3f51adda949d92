-- ===== src/Minions/Release/View.antt =====
-- What deletions and releases by identifiers do to the list of machines.
use coriolis.Prelude.{
  ℕ, ◌==◌, ==→≡, Bool-cases, true, false, not, ◌&&◌, if◌then◌else◌, elem, all, is_some, select, All,
  List, [], ◌∷◌, none, ◌≡◌, refl, arith, inl, inr,
}
use coriolis.Action.{ok, ◌>>=◌}
use coriolis.Minions.{
  Machine, MachineStatus, find_machine, change_machine, set_each, with_allocation,
  set_minion_machines_allocation_statuses, delete_minion_machine,
}
use coriolis.Minions.Rows.{IsFresh, IsDistinct}

abbrev pub release : Machine → Machine
release m = with_allocation none MachineStatus.available m

-- The list without the machines of `gone`, in which those of `freed` are released.
unfoldable pub view : (gone freed : List ℕ) → List Machine → List Machine
view gone freed [] = []
view gone freed (m ∷ ms) =
    let rest = view gone freed ms in
    if elem m.id gone then rest else (if elem m.id freed then release m else m) ∷ rest

module _ (gone freed : List ℕ) where
  view-delete :
      (i : ℕ) (ms : List Machine)
      → select (λ m. not (m.id == i)) (view gone freed ms) ≡ view (i ∷ gone) freed ms
  unfolding view select elem
  view-delete i [] = refl
  view-delete i (m ∷ ms) = ground (arith, view-delete i ms)

  view-fresh :
      (i : ℕ) (ms : List Machine) → IsFresh i ms → view gone (i ∷ freed) ms ≡ view gone freed ms
  unfolding view elem
  view-fresh i [] h = refl
  view-fresh i (m ∷ ms) h = ground (arith, view-fresh i ms)

  view-release :
      (i : ℕ) (ms : List Machine)
      → IsDistinct ms
      → elem i gone ≡ false
      → change_machine i release (view gone freed ms) ≡ view gone (i ∷ freed) ms
  unfolding view change_machine elem
  view-release i [] d h = refl
  view-release i (m ∷ ms) d h = elim (Bool-cases (m.id == i)) [
    | inl e ↦ let same = ==→≡ m.id i e in let last = view-fresh m.id ms d.0 in ground arith
    | inr e ↦ ground (arith, view-release i ms d.1 h)
  ]

  find-view :
      (i : ℕ) (ms : List Machine)
      → is_some (find_machine i (view gone freed ms))
        ≡ (is_some (find_machine i ms) && not (elem i gone))
  unfolding view find_machine
  find-view i [] = refl
  find-view i (m ∷ ms) = elim (Bool-cases (m.id == i)) [
    | inl e ↦ let same = ==→≡ m.id i e in ground (arith, find-view i ms)
    | inr e ↦ ground (arith, find-view i ms)
  ]

-- The identifiers of two lists, those of the first in reverse.
abbrev pub onto : List ℕ → List ℕ → List ℕ
onto [] freed = freed
onto (i ∷ is) freed = onto is (i ∷ freed)

-- The identifiers are those of machines that are still in the view.
abbrev pub ArePresent : (gone : List ℕ) → List Machine → List ℕ → Type 0
ArePresent gone ms = All (λ i. (is_some (find_machine i ms) ≡ true) × (elem i gone ≡ false))

module _ (gone : List ℕ) (ms : List Machine) where
  all-present :
      (freed is : List ℕ)
      → ArePresent gone ms is
      → all (λ i. is_some (find_machine i (view gone freed ms))) is ≡ true
  unfolding all
  all-present freed [] h = refl
  all-present freed (i ∷ is) h =
      rw (find-view gone freed i ms, h.0.0, h.0.1) (all-present freed is h.1)

  set_each-view :
      (freed is : List ℕ)
      → IsDistinct ms
      → ArePresent gone ms is
      → set_each is release (view gone freed ms) ≡ view gone (onto is freed) ms
  unfolding set_each
  set_each-view freed [] d h = refl
  set_each-view freed (i ∷ is) d h =
      rw (view-release gone freed i ms d h.0.1) (set_each-view (i ∷ freed) is d h.1)

  pub set-view :
      (freed is : List ℕ)
      → IsDistinct ms
      → ArePresent gone ms is
      → set_minion_machines_allocation_statuses is none MachineStatus.available none
          (view gone freed ms)
        ≡ (ok tt, view gone (onto is freed) ms)
  unfolding set_minion_machines_allocation_statuses ◌>>=◌
  set-view freed is d h = rw (all-present freed is h) (rw (set_each-view freed is d h) refl)

  pub delete-view :
      (freed : List ℕ) (i : ℕ)
      → is_some (find_machine i ms) ≡ true
      → elem i gone ≡ false
      → delete_minion_machine i (view gone freed ms) ≡ (ok tt, view (i ∷ gone) freed ms)
  unfolding delete_minion_machine ◌>>=◌
  delete-view freed i h g =
      rw (find-view gone freed i ms, h, g) (rw (view-delete gone freed i ms) refl)
