-- ===== src/Minions/Allocate/Bounds.antt =====
-- A pool does not grow beyond its maximum.
use coriolis.Prelude.{
  ℕ, ◌+◌, ◌-◌, ◌≤◌, ◌==◌, Bool-cases, false, length, all, is_some, is_empty, select, All, List, [],
  ◌∷◌, ◌++◌, Option, none, some, ◌≡◌, refl, arith, inl, inr,
}
use coriolis.Action.{Error, Result, ok, err, ◌>>=◌}
use coriolis.Minions.{
  Machine, MachineStatus, Pool, is_available, find_machine, minion_machines, with_allocation,
  with_use, set_minion_machines_allocation_statuses, add_minion_machine,
}
use coriolis.Minions.Rows.{IsDistinct, IsKeyed, IsDistinct-select, length-set_each}
use coriolis.Minions.Allocate.{
  Plan, Written, no_plan, Outside, new_machine, use_machine, create_machine, add_each,
  revert_allocation, finish_write, write_new, mark_existing, write_plan, is_short,
  make_allocation_subflow,
}
use coriolis.Minions.Allocate.Chosen.{pair_up, IsNew, plan_machines-pair_up, has_repeat}

-- The number of machines of a pool.
abbrev pub size : ℕ → List Machine → ℕ
size pool_id ms = length (minion_machines pool_id ms)

pub allocation-IsKeyed :
    (action : Option ℕ) (st : MachineStatus) (used : Option ℕ)
    → IsKeyed (λ m. with_allocation action st (with_use used m))
allocation-IsKeyed action st none = record { id_kept = λ m. refl; pool_kept = λ m. refl }
allocation-IsKeyed action st (some now) = record { id_kept = λ m. refl; pool_kept = λ m. refl }

size-set :
    (pool_id : ℕ) (is : List ℕ) (action : Option ℕ) (st : MachineStatus) (used : Option ℕ)
    (ms : List Machine)
    → size pool_id (set_minion_machines_allocation_statuses is action st used ms).1
      ≡ size pool_id ms
unfolding set_minion_machines_allocation_statuses ◌>>=◌
size-set pool_id is action st used ms =
    elim (Bool-cases (all (λ i. is_some (find_machine i ms)) is)) [
      | inl q ↦ rw q (
          length-set_each (λ m. with_allocation action st (with_use used m))
            (allocation-IsKeyed action st used) pool_id is ms)
      | inr q ↦ rw q refl
    ]

length-append : {A : Type 0} (xs ys : List A) → length (xs ++ ys) ≡ length xs + length ys
length-append [] ys = omega arith
length-append (x ∷ xs) ys = omega (arith, length-append xs ys)

pub distinct :
    (pool_id : ℕ) (ms : List Machine) → IsDistinct ms → IsDistinct (minion_machines pool_id ms)
unfolding minion_machines
distinct pool_id ms d = IsDistinct-select (λ m. m.pool_id == pool_id) ms d

room :
    (pool : Pool) (is : List ℕ) (ms : List Machine)
    → is_short pool is ms ≡ false
    → length is + length ms
      ≤ length (select (λ m. is_available m.allocation_status) ms) + pool.maximum_minions
unfolding is_short
room pool is ms h = ground arith

size-add :
    (pool_id : ℕ) (m : Machine) (ms : List Machine)
    → size pool_id (ms ++ (m ∷ [])) ≤ size pool_id ms + 1
unfolding minion_machines select
size-add pool_id m [] = ground arith
size-add pool_id m (n ∷ ms) = ground (arith, size-add pool_id m ms)

module _ (o : Outside) where
  size-add_each :
      (pool_id : ℕ) (new : List Machine) (added : List ℕ) (ms : List Machine)
      → size pool_id (add_each o new added ms).rows ≤ size pool_id ms + length new
  unfolding add_each add_minion_machine
  size-add_each pool_id [] added ms = omega arith
  size-add_each pool_id (m ∷ new) added ms = ground (
    arith,
    size-add pool_id m ms,
    size-add_each pool_id new (added ++ (m.id ∷ [])) (ms ++ (m ∷ [])),
  )

  size-finish :
      (pool_id : ℕ) (e : Option Error) (p : Plan) (w : Written)
      → size pool_id (finish_write e p w).1 ≡ size pool_id w.rows
  unfolding revert_allocation
  size-finish pool_id none p w = refl
  size-finish pool_id (some e) p w = elim (Bool-cases (is_empty w.added)) [
    | inl q ↦ rw q (size-set pool_id p.existing none MachineStatus.available none w.rows)
    | inr q ↦ rw q refl
  ]

  size-write_new :
      (pool_id : ℕ) (p : Plan) (r : Result (Unit {0})) (ms : List Machine)
      → size pool_id (write_new o p r ms).1 ≤ size pool_id ms + length p.new
  unfolding revert_allocation
  size-write_new pool_id p (ok u) ms =
      let w = add_each o p.new [] ms in
      rw (size-finish pool_id w.failure p w) (size-add_each pool_id p.new [] ms)
  size-write_new pool_id p (err e) ms =
      rw (size-set pool_id p.existing none MachineStatus.available none ms) (omega arith)

  size-mark :
      (pool_id action : ℕ) (is : List ℕ) (ms : List Machine)
      → size pool_id (mark_existing o action is ms).1 ≡ size pool_id ms
  size-mark pool_id action [] ms = refl
  size-mark pool_id action (i ∷ is) ms =
      size-set pool_id (i ∷ is) (some action) MachineStatus.reserved (some o.now) ms

  size-write_plan :
      (pool_id action : ℕ) (p : Plan) (ms : List Machine)
      → size pool_id (write_plan o action p ms).1 ≤ size pool_id ms + length p.new
  unfolding write_plan
  size-write_plan pool_id action p ms =
      let marked = mark_existing o action p.existing ms in
      omega
        (arith, size-write_new pool_id p marked.0 marked.1, size-mark pool_id action p.existing ms)

  length-new :
      (pool_id action : ℕ) (avail : List Machine) (is : List ℕ) (p : Plan)
      → length (pair_up o pool_id action avail is p).new ≤ length p.new + (length is - length avail)
  unfolding pair_up
  length-new pool_id action [] [] p = omega arith
  length-new pool_id action (m ∷ avail) [] p = omega arith
  length-new pool_id action [] (i ∷ is) p =
      let q = create_machine i (new_machine pool_id action (o.uuid i)) p in
      omega (
        arith,
        length-new pool_id action [] is q,
        length-append p.new (new_machine pool_id action (o.uuid i) ∷ []),
      )
  length-new pool_id action (m ∷ avail) (i ∷ is) p =
      omega (arith, length-new pool_id action avail is (use_machine i m p))

  -- Whether it returns or raises, an allocation leaves a pool within its maximum that was within it.
  pub make_allocation_subflow_bounds :
      (pool : Pool) (action : ℕ) (is : List ℕ) (ms : List Machine)
      → IsDistinct ms
      → All (IsNew o pool.id action (minion_machines pool.id ms)) is
      → size pool.id ms ≤ pool.maximum_minions
      → size pool.id (make_allocation_subflow o pool action is ms).1 ≤ pool.maximum_minions
  unfolding make_allocation_subflow
  make_allocation_subflow_bounds pool action is ms d n h =
      let machines = minion_machines pool.id ms in
      elim (Bool-cases (is_short pool is machines)) [
        | inl q ↦ rw q h
        | inr q ↦
            rw (q, plan_machines-pair_up o pool.id action machines (distinct pool.id ms d) is n)
              (elim (Bool-cases (has_repeat is)) [
                | inl r ↦ rw r h
                | inr r ↦
                    let avail = select (λ m. is_available m.allocation_status) machines in
                    let p = pair_up o pool.id action avail is no_plan in
                    rw r (
                      omega (
                        arith,
                        room pool is machines q,
                        length-new pool.id action avail is no_plan,
                        size-write_plan pool.id action p ms,
                      ))
              ])
      ]
