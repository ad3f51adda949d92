-- ===== src/Db/Info.antt =====
-- The task info that the results of tasks are merged into.
use coriolis.Prelude.{
  ℕ, ◌==◌, ==→≡, Bool-cases, if◌then◌else◌, [], ◌∷◌, Option, ◌≡◌, refl, inl, inr, Dict, lookup,
  update, lookup-insert, last, lookup-update,
}
use coriolis.Db.{
  Store, TaskInfo, get_or_empty, updated_info, update_transfer_action_info_for_instance,
}

-- The value of a field in the task info of an instance.
abbrev field : ℕ → ℕ → Dict TaskInfo → Option ℕ
field instance k info = lookup k (get_or_empty (lookup instance info))

-- After a result is merged, each field of the instance has its value in the result, or if it is
-- not there its old one, and the fields of other instances are what they were.
update_transfer_action_info_for_instance-field :
    (i j k : ℕ) (new_info : TaskInfo) (s : Store)
    → field j k (update_transfer_action_info_for_instance i new_info s).1.info
      ≡ (if i == j then last k (field j k s.info) new_info else field j k s.info)
unfolding update_transfer_action_info_for_instance updated_info
update_transfer_action_info_for_instance-field i j k [] s = elim (Bool-cases (i == j)) [
  | inl q ↦ rw q refl
  | inr q ↦ rw q refl
]
update_transfer_action_info_for_instance-field i j k (f ∷ new_info) s =
    rw (lookup-insert i j (update (get_or_empty (lookup i s.info)) (f ∷ new_info)) s.info)
      (elim (Bool-cases (i == j)) [
        | inl q ↦ rw (q, ==→≡ i j q) (lookup-update k _ (f ∷ new_info))
        | inr q ↦ rw q refl
      ])
