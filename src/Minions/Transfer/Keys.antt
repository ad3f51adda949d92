-- ===== src/Minions/Transfer/Keys.antt =====
-- The identifiers of machines stay distinct when one pool gives machines.
use coriolis.Prelude.{
  ℕ, ◌==◌, Bool-cases, false, ◌||◌, all, is_some, is_empty, List, [], ◌∷◌, ◌++◌, Option, none, some,
  ◌≡◌, arith, inl, inr,
}
use coriolis.Action.{Error, Result, ok, err, ◌>>=◌}
use coriolis.Minions.{
  Machine, MachineStatus, Pool, find_machine, change_machine, set_each, minion_machines,
  with_allocation, with_use, set_minion_machines_allocation_statuses, add_minion_machine,
}
use coriolis.Minions.Rows.{IsFresh, IsDistinct, IsKeyed}
use coriolis.Minions.Allocate.{
  Plan, Written, Outside, add_each, revert_allocation, finish_write, write_new, mark_existing,
  write_plan, no_plan, plan_machines, write_planned, is_short, make_allocation_subflow,
}
use coriolis.Minions.Allocate.Bounds.{allocation-IsKeyed}

module _ (f : Machine → Machine) (k : IsKeyed f) where
  IsFresh-change : (i j : ℕ) (ms : List Machine) → IsFresh i ms → IsFresh i (change_machine j f ms)
  unfolding change_machine
  IsFresh-change i j [] h = tt
  IsFresh-change i j (m ∷ ms) h = ground (arith, k.id_kept m, IsFresh-change i j ms)

  IsDistinct-change :
      (j : ℕ) (ms : List Machine) → IsDistinct ms → IsDistinct (change_machine j f ms)
  unfolding change_machine
  IsDistinct-change j [] d = tt
  IsDistinct-change j (m ∷ ms) d =
      ground (arith, k.id_kept m, IsDistinct-change j ms, IsFresh-change m.id j ms)

  IsDistinct-set_each :
      (is : List ℕ) (ms : List Machine) → IsDistinct ms → IsDistinct (set_each is f ms)
  unfolding set_each
  IsDistinct-set_each [] ms d = d
  IsDistinct-set_each (i ∷ is) ms d =
      IsDistinct-set_each is (change_machine i f ms) (IsDistinct-change i ms d)

set-IsDistinct :
    (is : List ℕ) (action : Option ℕ) (st : MachineStatus) (used : Option ℕ) (ms : List Machine)
    → IsDistinct ms
    → IsDistinct (set_minion_machines_allocation_statuses is action st used ms).1
unfolding set_minion_machines_allocation_statuses ◌>>=◌
set-IsDistinct is action st used ms d =
    elim (Bool-cases (all (λ i. is_some (find_machine i ms)) is)) [
      | inl q ↦ rw q (
          IsDistinct-set_each (λ m. with_allocation action st (with_use used m))
            (allocation-IsKeyed action st used) is ms d)
      | inr q ↦ rw q d
    ]

find_machine-IsFresh :
    (i : ℕ) (ms : List Machine) → is_some (find_machine i ms) ≡ false → IsFresh i ms
unfolding find_machine
find_machine-IsFresh i [] h = tt
find_machine-IsFresh i (m ∷ ms) h = ground (arith, find_machine-IsFresh i ms)

IsFresh-add :
    (i : ℕ) (m : Machine) (ms : List Machine)
    → (m.id == i) ≡ false
    → IsFresh i ms
    → IsFresh i (ms ++ (m ∷ []))
IsFresh-add i m [] a h = (a, tt)
IsFresh-add i m (n ∷ ms) a h = (h.0, IsFresh-add i m ms a h.1)

IsDistinct-add :
    (m : Machine) (ms : List Machine)
    → IsFresh m.id ms
    → IsDistinct ms
    → IsDistinct (ms ++ (m ∷ []))
IsDistinct-add m [] f d = (tt, tt)
IsDistinct-add m (n ∷ ms) f d =
    let apart : (m.id == n.id) ≡ false = ground arith in
    (IsFresh-add n.id m ms apart d.0, IsDistinct-add m ms f.1 d.1)

add-IsDistinct :
    (m : Machine) (ms : List Machine) → IsDistinct ms → IsDistinct (add_minion_machine m ms).1
unfolding add_minion_machine
add-IsDistinct m ms d = elim (Bool-cases (is_some (find_machine m.id ms))) [
  | inl q ↦ rw q d
  | inr q ↦ rw q (IsDistinct-add m ms (find_machine-IsFresh m.id ms q) d)
]

module _ (o : Outside) where
  add_each-IsDistinct :
      (new : List Machine) (added : List ℕ) (ms : List Machine)
      → IsDistinct ms
      → IsDistinct (add_each o new added ms).rows
  unfolding add_each
  add_each-IsDistinct [] added ms d = d
  add_each-IsDistinct (m ∷ new) added ms d =
      elim (Bool-cases (o.refuses m.id || is_some (find_machine m.id ms))) [
        | inl q ↦ rw q d
        | inr q ↦ rw q (
            add_each-IsDistinct new (added ++ (m.id ∷ [])) (add_minion_machine m ms).1
              (add-IsDistinct m ms d))
      ]

  finish-IsDistinct :
      (e : Option Error) (p : Plan) (w : Written)
      → IsDistinct w.rows
      → IsDistinct (finish_write e p w).1
  unfolding revert_allocation
  finish-IsDistinct none p w d = d
  finish-IsDistinct (some e) p w d = elim (Bool-cases (is_empty w.added)) [
    | inl q ↦ rw q (set-IsDistinct p.existing none MachineStatus.available none w.rows d)
    | inr q ↦ rw q d
  ]

  write_new-IsDistinct :
      (p : Plan) (r : Result (Unit {0})) (ms : List Machine)
      → IsDistinct ms
      → IsDistinct (write_new o p r ms).1
  unfolding revert_allocation
  write_new-IsDistinct p (ok u) ms d =
      let w = add_each o p.new [] ms in
      finish-IsDistinct w.failure p w (add_each-IsDistinct p.new [] ms d)
  write_new-IsDistinct p (err e) ms d =
      set-IsDistinct p.existing none MachineStatus.available none ms d

  mark-IsDistinct :
      (action : ℕ) (is : List ℕ) (ms : List Machine)
      → IsDistinct ms
      → IsDistinct (mark_existing o action is ms).1
  mark-IsDistinct action [] ms d = d
  mark-IsDistinct action (i ∷ is) ms d =
      set-IsDistinct (i ∷ is) (some action) MachineStatus.reserved (some o.now) ms d

  write_planned-IsDistinct :
      (action : ℕ) (r : Result Plan) (ms : List Machine)
      → IsDistinct ms
      → IsDistinct (write_planned o action r ms).1
  unfolding write_plan
  write_planned-IsDistinct action (ok p) ms d =
      let marked = mark_existing o action p.existing ms in
      write_new-IsDistinct p marked.0 marked.1 (mark-IsDistinct action p.existing ms d)
  write_planned-IsDistinct action (err e) ms d = d

  pub make-IsDistinct :
      (pool : Pool) (action : ℕ) (is : List ℕ) (ms : List Machine)
      → IsDistinct ms
      → IsDistinct (make_allocation_subflow o pool action is ms).1
  unfolding make_allocation_subflow
  make-IsDistinct pool action is ms d =
      let machines = minion_machines pool.id ms in
      elim (Bool-cases (is_short pool is machines)) [
        | inl q ↦ rw q d
        | inr q ↦ rw q (
            write_planned-IsDistinct action (plan_machines o pool.id action machines is no_plan) ms
              d)
      ]
