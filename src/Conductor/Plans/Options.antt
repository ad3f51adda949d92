-- ===== src/Conductor/Plans/Options.antt =====
-- A test holds of all kinds of executions if it holds for each value of their options.
use coriolis.Prelude.{
  ℕ, ◌==◌, Bool, Bool-cases, true, false, ◌&&◌, ==→≡, all, elem, List, [], ◌∷◌, ◌≡◌, refl, arith,
  inl, inr,
}
use coriolis.Db.{TaskInfo}
use coriolis.Conductor.Plans.Info.{ExecutionKind}

unfoldable pub every : (Bool → Bool) → Bool
every f = f true && f false

every_lem : (f : Bool → Bool) → every f ≡ true → (b : Bool) → f b ≡ true
unfolding every
every_lem f h true = ground arith
every_lem f h false = ground arith

all-elem : (p : ℕ → Bool) (xs : List ℕ) (n : ℕ) → all p xs ≡ true → elem n xs ≡ true → p n ≡ true
unfolding all elem
all-elem p [] n h k = absurd (cc)
all-elem p (x ∷ xs) n h k = elim (Bool-cases (x == n)) [
  | inl q ↦ rw (← ==→≡ x n q) (ground (arith, h))
  | inr q ↦ all-elem p xs n (ground (arith, h)) (rw (q) at k)
]

-- The range that the API accepts for `replication_count`.
abbrev pub replication_counts : List ℕ
replication_counts = 1 ∷ 2 ∷ 3 ∷ 4 ∷ 5 ∷ 6 ∷ 7 ∷ 8 ∷ 9 ∷ 10 ∷ []

abbrev pub IsAllowed : ExecutionKind → Type 0
IsAllowed (ExecutionKind.migration o d p s k f n) = elem n replication_counts ≡ true
IsAllowed _ = Unit {0}

pub and_lem : (a b : Bool) → a && b ≡ true → (a ≡ true) × (b ≡ true)
and_lem true true h = (refl, refl)
and_lem true false h = absurd (cc)
and_lem false b h = absurd (cc)

-- The plans for replicas.
abbrev pub replica_plans : (ExecutionKind → Bool) → Bool
replica_plans p =
    every (λ o. every (λ d. every (λ s. p (ExecutionKind.replica_execution o d s))))
    && every (λ c. every (λ k. every (λ m. every (λ f. p (ExecutionKind.replica_deploy c k m f)))))
    && p ExecutionKind.replica_disks_delete

-- The plans for migrations with these pools.
abbrev pub migration_plans : (ExecutionKind → Bool) → (origin_pool destination_pool : Bool) → Bool
migration_plans p o d = every (λ m. every (λ s.
    every
      (λ k. every (λ f. all (λ n. p (ExecutionKind.migration o d m s k f n)) replication_counts))))

pub by_options :
    (p : ExecutionKind → Bool)
    → replica_plans p ≡ true
    → ((o d : Bool) → migration_plans p o d ≡ true)
    → ((updated : TaskInfo) → p (ExecutionKind.replica_update updated) ≡ true)
    → (e : ExecutionKind) → IsAllowed e
    → p e ≡ true
by_options p r m u (ExecutionKind.replica_execution o d s) h =
    every_lem _ (every_lem _ (every_lem _ (and_lem _ _ (and_lem _ _ r).0).0 o) d) s
by_options p r m u (ExecutionKind.replica_deploy c k q f) h =
    every_lem _ (every_lem _ (every_lem _ (every_lem _ (and_lem _ _ (and_lem _ _ r).0).1 c) k) q) f
by_options p r m u (ExecutionKind.migration o d q s k f n) h =
    all-elem _ replication_counts n
      (every_lem _ (every_lem _ (every_lem _ (every_lem _ (m o d) q) s) k) f) h
by_options p r m u ExecutionKind.replica_disks_delete h = (and_lem _ _ r).1
by_options p r m u (ExecutionKind.replica_update updated) h = u updated
