-- ===== src/Minions/Allocate/Untouched.antt =====
-- An allocation changes no row of a machine that is not available, or is one of another pool.
use coriolis.Prelude.{
  ℕ, ◌==◌, Bool-cases, false, ◌&&◌, elem, all, is_some, is_empty, select, All, List, [], ◌∷◌, ◌++◌,
  Option, none, some, ◌≡◌, refl, arith, inl, inr,
}
use coriolis.Action.{Error, Result, ok, err, ◌>>=◌}
use coriolis.Minions.{
  Machine, MachineStatus, Pool, is_available, find_machine, minion_machines, with_allocation,
  with_use, set_minion_machines_allocation_statuses, add_minion_machine,
}
use coriolis.Minions.Rows.{
  IsDistinct, IsDistinct-select, elem-append, ids, find-select, elem-ids, find-append,
  find-set_each,
}
use coriolis.Minions.Allocate.{
  Plan, Written, no_plan, Outside, new_machine, use_machine, create_machine, add_each,
  revert_allocation, finish_write, write_new, mark_existing, write_plan, is_short,
  make_allocation_subflow,
}
use coriolis.Minions.Allocate.Chosen.{pair_up, IsNew, plan_machines-pair_up, has_repeat}
use coriolis.Minions.Allocate.Bounds.{allocation-IsKeyed, distinct}

module _ (j : ℕ) {m : Machine} where
  set-kept :
      (is : List ℕ) (action : Option ℕ) (st : MachineStatus) (used : Option ℕ) (ms : List Machine)
      → elem j is ≡ false
      → find_machine j ms ≡ some m
      → find_machine j (set_minion_machines_allocation_statuses is action st used ms).1 ≡ some m
  unfolding set_minion_machines_allocation_statuses ◌>>=◌
  set-kept is action st used ms n h =
      elim (Bool-cases (all (λ i. is_some (find_machine i ms)) is)) [
        | inl q ↦
            rw
              (
                q,
                find-set_each (λ u. with_allocation action st (with_use used u))
                    (allocation-IsKeyed action st used) is j ms n,
              )
              h
        | inr q ↦ rw q h
      ]

  module _ (o : Outside) where
    add_each-kept :
        (new : List Machine) (added : List ℕ) (ms : List Machine)
        → find_machine j ms ≡ some m
        → find_machine j (add_each o new added ms).rows ≡ some m
    unfolding add_each add_minion_machine
    add_each-kept [] added ms h = h
    add_each-kept (u ∷ new) added ms h =
        let rest =
          add_each-kept new (added ++ (u.id ∷ [])) (ms ++ (u ∷ [])) (find-append j ms (u ∷ []) h) in
        ground arith

    finish-kept :
        (e : Option Error) (p : Plan) (w : Written)
        → elem j p.existing ≡ false
        → find_machine j w.rows ≡ some m
        → find_machine j (finish_write e p w).1 ≡ some m
    unfolding revert_allocation
    finish-kept none p w n h = h
    finish-kept (some e) p w n h = elim (Bool-cases (is_empty w.added)) [
      | inl q ↦ rw q (set-kept p.existing none MachineStatus.available none w.rows n h)
      | inr q ↦ rw q h
    ]

    write_new-kept :
        (p : Plan) (r : Result (Unit {0})) (ms : List Machine)
        → elem j p.existing ≡ false
        → find_machine j ms ≡ some m
        → find_machine j (write_new o p r ms).1 ≡ some m
    unfolding revert_allocation
    write_new-kept p (ok u) ms n h =
        let w = add_each o p.new [] ms in finish-kept w.failure p w n (add_each-kept p.new [] ms h)
    write_new-kept p (err e) ms n h = set-kept p.existing none MachineStatus.available none ms n h

    mark-kept :
        (action : ℕ) (is : List ℕ) (ms : List Machine)
        → elem j is ≡ false
        → find_machine j ms ≡ some m
        → find_machine j (mark_existing o action is ms).1 ≡ some m
    mark-kept action [] ms n h = h
    mark-kept action (i ∷ is) ms n h =
        set-kept (i ∷ is) (some action) MachineStatus.reserved (some o.now) ms n h

    write_plan-kept :
        (action : ℕ) (p : Plan) (ms : List Machine)
        → elem j p.existing ≡ false
        → find_machine j ms ≡ some m
        → find_machine j (write_plan o action p ms).1 ≡ some m
    unfolding write_plan
    write_plan-kept action p ms n h =
        let marked = mark_existing o action p.existing ms in
        write_new-kept p marked.0 marked.1 n (mark-kept action p.existing ms n h)

module _ (o : Outside) (pool_id action : ℕ) (j : ℕ) where
  not_chosen :
      (avail : List Machine) (is : List ℕ) (p : Plan)
      → elem j (ids avail) ≡ false
      → elem j p.existing ≡ false
      → elem j (pair_up o pool_id action avail is p).existing ≡ false
  unfolding pair_up elem
  not_chosen [] [] p a n = n
  not_chosen (m ∷ avail) [] p a n = n
  not_chosen [] (i ∷ is) p a n =
      not_chosen [] is (create_machine i (new_machine pool_id action (o.uuid i)) p) a n
  not_chosen (m ∷ avail) (i ∷ is) p a n =
      let old = elem-append j m.id p.existing in
      let apart : (m.id == j) ≡ false = ground arith in
      let others : elem j (ids avail) ≡ false = ground arith in
      not_chosen avail is (use_machine i m p) others (ground arith)

not_available :
    (pool_id j : ℕ) (ms : List Machine) {m : Machine}
    → IsDistinct ms
    → find_machine j ms ≡ some m
    → (is_available m.allocation_status && m.pool_id == pool_id) ≡ false
    → elem j (ids (select (λ u. is_available u.allocation_status) (minion_machines pool_id ms)))
      ≡ false
unfolding minion_machines
not_available pool_id j ms {m} d h n =
    let machines = select (λ u. u.pool_id == pool_id) ms in
    rw
      (
        elem-ids j (select (λ u. is_available u.allocation_status) machines),
        find-select (λ u. is_available u.allocation_status) j machines
            (IsDistinct-select (λ u. u.pool_id == pool_id) ms d),
        find-select (λ u. u.pool_id == pool_id) j ms d,
        h,
      )
      (ground arith)

no_existing : (j : ℕ) → elem j no_plan.existing ≡ false
unfolding elem
no_existing j = refl

-- Whether it returns or raises, an allocation keeps the row of each machine that is not available or
-- is one of another pool.
pub make_allocation_subflow-untouched :
    (o : Outside) (pool : Pool) (action : ℕ) (is : List ℕ) (ms : List Machine) (j : ℕ) {m : Machine}
    → IsDistinct ms
    → All (IsNew o pool.id action (minion_machines pool.id ms)) is
    → find_machine j ms ≡ some m
    → (is_available m.allocation_status && m.pool_id == pool.id) ≡ false
    → find_machine j (make_allocation_subflow o pool action is ms).1 ≡ some m
unfolding make_allocation_subflow
make_allocation_subflow-untouched o pool action is ms j d new h n =
    let machines = minion_machines pool.id ms in
    elim (Bool-cases (is_short pool is machines)) [
      | inl q ↦ rw q h
      | inr q ↦
          rw (q, plan_machines-pair_up o pool.id action machines (distinct pool.id ms d) is new)
            (elim (Bool-cases (has_repeat is)) [
              | inl r ↦ rw r h
              | inr r ↦
                  let avail = select (λ u. is_available u.allocation_status) machines in
                  rw r (
                    write_plan-kept j o action (pair_up o pool.id action avail is no_plan) ms
                      (not_chosen o pool.id action j avail is no_plan
                        (not_available pool.id j ms d h n) (no_existing j))
                      h)
            ])
    ]
