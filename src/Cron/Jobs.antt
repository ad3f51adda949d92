-- ===== src/Cron/Jobs.antt =====
-- Which jobs run, and what the registry of jobs keeps.
use coriolis.Prelude.{
  ℕ, ◌≤◌, ◌==◌, ==→≡, Bool-cases, true, false, ◌&&◌, if◌then◌else◌, all, select, lookup, [], ◌∷◌,
  Option, Option-cases, none, some, ◌≡◌, ◌↔◌, refl, ◌⊎◌, arith, inl, inr,
}
use coriolis.Cron.{
  Time, Schedule, Job, Jobs, matches, compare_pairs, schedule_pairs, is_past, is_expired,
  should_run, remove, unregister, check_jobs, janitor,
}

-- A field of the schedule leaves the value open, or names it.
abbrev pub Admits : Option ℕ → ℕ → Type 0
Admits wanted value = (wanted ≡ none) ⊎ (wanted ≡ some value)

-- The time is one that the schedule names.
abbrev pub IsDue : Schedule → Time → Type 0
IsDue s dt =
    Admits s.minute dt.minute
    × Admits s.hour dt.hour
    × Admits s.dom dt.dom
    × Admits s.month dt.month
    × Admits s.dow dt.dow

matches-Admits :
    (wanted : Option ℕ) (value : ℕ) → matches (value, wanted) ≡ true → Admits wanted value
matches-Admits none value h = inl refl
matches-Admits (some w) value h = inr (rw (==→≡ value w h) refl)

Admits-matches :
    (wanted : Option ℕ) (value : ℕ) → Admits wanted value → matches (value, wanted) ≡ true
Admits-matches none value h = refl
Admits-matches (some w) value (inl h) = absurd (cc)
Admits-matches (some w) value (inr h) = ground arith

pairs-matches :
    (s : Schedule) (dt : Time)
    → all (λ b. b) (compare_pairs (schedule_pairs s dt)) ≡ (
        matches (dt.minute, s.minute)
        && matches (dt.hour, s.hour)
        && matches (dt.dom, s.dom)
        && matches (dt.month, s.month)
        && matches (dt.dow, s.dow))
unfolding all compare_pairs schedule_pairs
pairs-matches s dt = ground arith

abbrev AreMatched : Schedule → Time → Type 0
AreMatched s dt =
    (matches (dt.minute, s.minute) ≡ true)
    × (matches (dt.hour, s.hour) ≡ true)
    × (matches (dt.dom, s.dom) ≡ true)
    × (matches (dt.month, s.month) ≡ true)
    × (matches (dt.dow, s.dow) ≡ true)

should_run-tests :
    (job : Job) (now : ℕ) (dt : Time)
    → (should_run job now dt ≡ true)
      ↔ ((is_expired job now ≡ false) × (job.enabled ≡ true) × AreMatched job.schedule dt)
unfolding should_run
should_run-tests job now dt = (
  λ h. ground (arith, pairs-matches job.schedule dt),
  λ h. ground (arith, pairs-matches job.schedule dt),
)

-- A job runs exactly when it is enabled, has not expired, and each field of its schedule is open or
-- has the value that the time has.
pub should_run-IsDue :
    (job : Job) (now : ℕ) (dt : Time)
    → (should_run job now dt ≡ true)
      ↔ ((is_expired job now ≡ false) × (job.enabled ≡ true) × IsDue job.schedule dt)
should_run-IsDue job now dt =
    let tests = should_run-tests job now dt in
    let s = job.schedule in
    (
      λ h.
          let (live, enabled, (m₁, m₂, m₃, m₄, m₅)) = tests.0 h in
          (
            live,
            enabled,
            (
              matches-Admits s.minute dt.minute m₁,
              matches-Admits s.hour dt.hour m₂,
              matches-Admits s.dom dt.dom m₃,
              matches-Admits s.month dt.month m₄,
              matches-Admits s.dow dt.dow m₅,
            ),
          ),
      λ h.
          let (live, enabled, (a₁, a₂, a₃, a₄, a₅)) = h in
          tests.1 (
            live,
            enabled,
            (
              Admits-matches s.minute dt.minute a₁,
              Admits-matches s.hour dt.hour a₂,
              Admits-matches s.dom dt.dom a₃,
              Admits-matches s.month dt.month a₄,
              Admits-matches s.dow dt.dow a₅,
            ),
          ),
    )

-- A job that has expired stays so.
expired-later :
    (e : Option ℕ) (now later : ℕ) → now ≤ later → is_past e now ≡ true → is_past e later ≡ true
expired-later none now later w h = absurd (cc)
expired-later (some e) now later w h = ground arith

expired-idle :
    (job : Job) (now : ℕ) (dt : Time) → is_expired job now ≡ true → should_run job now dt ≡ false
unfolding should_run
expired-idle job now dt h = rw h refl

-- The jobs that the janitor removes at some instant would not have run at it or later: at each later
-- instant the same jobs are spawned as if it had removed none.
pub check_jobs-janitor :
    (now later : ℕ) (dt : Time) (jobs : Jobs)
    → now ≤ later
    → check_jobs (janitor now jobs) later dt ≡ check_jobs jobs later dt
unfolding check_jobs janitor select
check_jobs-janitor now later dt [] w = refl
check_jobs-janitor now later dt ((name, job) ∷ jobs) w = elim (Bool-cases (is_expired job now)) [
  | inl q ↦
      let idle = expired-idle job later dt (expired-later job.expires now later w q) in
      rw (q, idle, check_jobs-janitor now later dt jobs w) refl
  | inr q ↦ rw (q, check_jobs-janitor now later dt jobs w) refl
]

pub lookup-remove :
    (name other : ℕ) (jobs : Jobs)
    → lookup other (remove name jobs) ≡ (if name == other then none else lookup other jobs)
unfolding lookup remove select
lookup-remove name other [] = ground arith
lookup-remove name other ((n, job) ∷ jobs) = ground (arith, lookup-remove name other jobs)

-- After a job is unregistered there is none of its name, also if there was none before, and the jobs
-- of other names are what they were.
lookup-unregister :
    (name other : ℕ) (jobs : Jobs)
    → lookup other (unregister name jobs) ≡ (if name == other then none else lookup other jobs)
unfolding unregister
lookup-unregister name other jobs = elim (Option-cases (lookup name jobs)) [
  | inl e ↦ elim (Bool-cases (name == other)) [
    | inl q ↦ rw (e, q) (rw (==→≡ name other q) at e)
    | inr q ↦ rw (e, q) refl
  ]
  | inr (job, e) ↦ rw e (lookup-remove name other jobs)
]
