-- ===== src/Cron/Samples.antt =====
-- Two jobs, and the theorems on the registry applied.
use coriolis.Prelude.{ℕ, Bool, ◌==◌, ◌≤◌, true, false, [], ◌∷◌, none, some, lookup, ◌≡◌, ◌↔◌, arith}
use coriolis.Cron.{
  Time, Job, Jobs, is_expired, should_run, unregister_jobs_with_prefix, check_jobs, janitor,
}
use coriolis.Cron.Jobs.{IsDue, should_run-IsDue, check_jobs-janitor}
use coriolis.Cron.Prefix.{lookup-unregister_jobs_with_prefix}

-- At noon on a Monday.
abbrev noon : Time
noon = record { instant = 50; month = 11; dom = 26; hour = 12; minute = 0; dow = 0 }

abbrev daily : Job
daily = record {
  name = 1;
  schedule = record { minute = some 0; hour = some 12; dom = none; month = none; dow = none };
  enabled = true;
  expires = some 60;
}

abbrev old : Job
old = record daily { name = 2; expires = some 40 }

abbrev jobs : Jobs
jobs = (1, daily) ∷ (2, old) ∷ []

should_run-IsDue_example :
    (should_run daily 50 noon ≡ true)
    ↔ ((is_expired daily 50 ≡ false) × (true ≡ true) × IsDue daily.schedule noon)
should_run-IsDue_example = should_run-IsDue daily 50 noon

ordered : 50 ≤ 55
ordered = omega arith

check_jobs-janitor_example : check_jobs (janitor 50 jobs) 55 noon ≡ check_jobs jobs 55 noon
check_jobs-janitor_example = check_jobs-janitor 50 55 noon jobs ordered

-- The prefix that the second job's name has.
abbrev starts : ℕ → Bool
starts name = name == 2

lookup-unregister_jobs_with_prefix_example :
    lookup 1 (unregister_jobs_with_prefix starts jobs) ≡ some daily
unfolding lookup
lookup-unregister_jobs_with_prefix_example = lookup-unregister_jobs_with_prefix starts 1 jobs
