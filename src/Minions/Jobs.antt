-- ===== src/Minions/Jobs.antt =====
-- minion_manager/rpc/server.py: `_register_refresh_jobs_for_minion_pool`, which adds jobs to the
-- registry of the cron (Cron), one for each minute of an hour at which a pool is refreshed.
pub mod Due
use coriolis.Prelude.{
  ℕ, zero, suc, ◌+◌, ◌-◌, ◌*◌, ◌/◌, ltb, ◌==◌, Bool, true, false, if◌then◌else◌, List, [], ◌∷◌,
  ◌++◌, map, none, some,
}
use coriolis.Cron.{Job, Jobs, register}

-- The configured number of minutes, an integer.
pub data Period : Type 0 where
  negative : Period
  minutes : ℕ → Period

abbrev pub period_minutes : Period → ℕ
period_minutes negative = 0
period_minutes (minutes n) = if ltb 60 n then 10 else n

abbrev pub range : ℕ → List ℕ
range zero = []
range (suc n) = range n ++ (n ∷ [])

-- The quotient is a float in the code, whose ceiling is exact for 60 and a period up to 60.
unfoldable pub refresh_minutes : ℕ → List ℕ
refresh_minutes p = map (λ i. p * i) (range ((60 + p - 1) / p))

-- `name` formats the identifier of the pool and the minute.
abbrev pub refresh_job : (name : ℕ → ℕ) → ℕ → Job
refresh_job name minute = record {
  name = name minute;
  schedule = record { minute = some minute; hour = none; dom = none; month = none; dow = none };
  enabled = true;
  expires = none;
}

unfoldable pub register_all : List Job → Jobs → Jobs
register_all [] jobs = jobs
register_all (job ∷ rest) jobs = register_all rest (register job jobs)

abbrev pub refresh_jobs : (name : ℕ → ℕ) → Period → List Job
refresh_jobs name p =
    let n = period_minutes p in if n == 0 then [] else map (refresh_job name) (refresh_minutes n)

unfoldable pub register_refresh_jobs_for_minion_pool : (name : ℕ → ℕ) → Period → Jobs → Jobs
register_refresh_jobs_for_minion_pool name p jobs = register_all (refresh_jobs name p) jobs
