-- ===== src/Cron/Prefix.antt =====
-- cron/cron.py: what the registry keeps when the jobs with a prefix are unregistered.
use coriolis.Prelude.{
  ℕ, Bool, ◌==◌, ==→≡, Bool-cases, true, false, if◌then◌else◌, any, is_empty, select, lookup, List,
  [], ◌∷◌, none, ◌≡◌, refl, arith, inl, inr,
}
use coriolis.Cron.{Jobs, remove, remove_all, job_names, unregister_jobs_with_prefix}
use coriolis.Cron.Jobs.{lookup-remove}

lookup-remove_all :
    (other : ℕ) (names : List ℕ) (jobs : Jobs)
    → lookup other (remove_all names jobs)
      ≡ (if any (λ n. n == other) names then none else lookup other jobs)
unfolding any remove_all
lookup-remove_all other [] jobs = refl
lookup-remove_all other (n ∷ names) jobs =
    rw (lookup-remove_all other names (remove n jobs), lookup-remove n other jobs) (ground arith)

any-other :
    (p : ℕ → Bool) (other : ℕ) (names : List ℕ)
    → p other ≡ false
    → any (λ n. n == other) (select p names) ≡ false
unfolding any select
any-other p other [] h = refl
any-other p other (n ∷ names) h = elim (Bool-cases (p n)) [
  | inl q ↦ elim (Bool-cases (n == other)) [
    | inl e ↦ absurd (let same = ==→≡ n other e in ground arith)
    | inr e ↦ rw (q, e, any-other p other names h) refl
  ]
  | inr q ↦ rw (q, any-other p other names h) refl
]

lookup-found :
    (p : ℕ → Bool) (other : ℕ) (jobs : Jobs)
    → p other ≡ true
    → (if any (λ n. n == other) (select p (job_names jobs)) then none else lookup other jobs) ≡ none
unfolding any select lookup
lookup-found p other [] h = refl
lookup-found p other ((n, job) ∷ jobs) h =
    let same = ==→≡ n other in
    let rest = lookup-found p other jobs h in
    elim (Bool-cases (n == other)) [ inl q ↦ let e = same q in ground arith | inr q ↦ ground arith ]

remove_found :
    (found : List ℕ) (jobs : Jobs)
    → (if is_empty found then jobs else remove_all found jobs) ≡ remove_all found jobs
unfolding remove_all
remove_found [] jobs = refl
remove_found (n ∷ found) jobs = refl

-- After the jobs with a prefix are unregistered there is none whose name has it, and the jobs of
-- other names are what they were.
pub lookup-unregister_jobs_with_prefix :
    (startswith : ℕ → Bool) (other : ℕ) (jobs : Jobs)
    → lookup other (unregister_jobs_with_prefix startswith jobs)
      ≡ (if startswith other then none else lookup other jobs)
unfolding unregister_jobs_with_prefix
lookup-unregister_jobs_with_prefix p other jobs =
    let found = select p (job_names jobs) in
    rw (remove_found found jobs, lookup-remove_all other found jobs)
      (elim (Bool-cases (p other)) [
        | inl q ↦ rw (q, lookup-found p other jobs q) refl
        | inr q ↦ rw (q, any-other p other (job_names jobs) q) refl
      ])
