-- ===== src/Cron.antt =====
-- cron/cron.py: the schedules of jobs and the registry of jobs. Names are numbers.
pub mod Jobs
pub mod Prefix
pub mod Samples
use coriolis.Prelude.{
  ℕ, ltb, ◌==◌, Bool, true, false, not, ◌&&◌, ◌||◌, if◌then◌else◌, all, any, select, elem, is_some,
  is_empty, Dict, lookup, insert, List, [], ◌∷◌, Option, none, some,
}

-- A time: the fields of `timetuple()` that a schedule can name, and the instant, by which times are
-- compared.
pub record Time : Type 0 where
  pub instant : ℕ
  pub month : ℕ
  pub dom : ℕ
  pub hour : ℕ
  pub minute : ℕ
  pub dow : ℕ

-- The dictionary `schedule`, read by `get`.
pub record Schedule : Type 0 where
  pub minute : Option ℕ
  pub hour : Option ℕ
  pub dom : Option ℕ
  pub month : Option ℕ
  pub dow : Option ℕ

pub record Job : Type 0 where
  pub name : ℕ
  pub schedule : Schedule
  pub enabled : Bool
  pub expires : Option ℕ

abbrev pub matches : ℕ × Option ℕ → Bool
matches (value, none) = true
matches (value, some wanted) = value == wanted

-- `_compare`
unfoldable pub compare_pairs : List (ℕ × Option ℕ) → List Bool
compare_pairs [] = []
compare_pairs (pair ∷ pairs) =
    let rest = compare_pairs pairs in if matches pair then true ∷ rest else false ∷ rest

-- The pairs for SCHEDULE_FIELDS.
unfoldable pub schedule_pairs : Schedule → Time → List (ℕ × Option ℕ)
schedule_pairs s dt =
    (dt.minute, s.minute)
    ∷ (dt.hour, s.hour)
    ∷ (dt.dom, s.dom)
    ∷ (dt.month, s.month)
    ∷ (dt.dow, s.dow)
    ∷ []

-- `is_expired`, at the instant `now`.
abbrev pub is_past : Option ℕ → ℕ → Bool
is_past none now = false
is_past (some e) now = ltb e now

abbrev pub is_expired : Job → ℕ → Bool
is_expired job now = is_past job.expires now

-- `should_run`, at the instant `now`.
unfoldable pub should_run : Job → ℕ → Time → Bool
should_run job now dt =
    if is_expired job now
    then false
    else if not job.enabled
    then false
    else all (λ b. b) (compare_pairs (schedule_pairs job.schedule dt))

-- `Cron._jobs`
abbrev pub Jobs : Type 0
Jobs = Dict Job

unfoldable pub register : Job → Jobs → Jobs
register job jobs = insert job.name job jobs

-- `del self._jobs[name]`
unfoldable pub remove : ℕ → Jobs → Jobs
remove name jobs = select (λ e. not (e.0 == name)) jobs

unfoldable pub unregister : ℕ → Jobs → Jobs
unregister name jobs = if is_some (lookup name jobs) then remove name jobs else jobs

unfoldable pub remove_all : List ℕ → Jobs → Jobs
remove_all [] jobs = jobs
remove_all (name ∷ names) jobs = remove_all names (remove name jobs)

abbrev pub job_names : Jobs → List ℕ
job_names [] = []
job_names ((name, job) ∷ jobs) = name ∷ job_names jobs

-- `unregister_jobs_with_prefix`, with the test `startswith` for the prefix.
unfoldable pub unregister_jobs_with_prefix : (ℕ → Bool) → Jobs → Jobs
unregister_jobs_with_prefix startswith jobs =
    let found = select startswith (job_names jobs) in
    if is_empty found then jobs else remove_all found jobs

-- `_check_jobs`: the names of the jobs that it spawns. Each job asks for the instant again, which is
-- taken to be the same.
unfoldable pub check_jobs : Jobs → ℕ → Time → List ℕ
check_jobs [] now dt = []
check_jobs ((name, job) ∷ jobs) now dt =
    let rest = check_jobs jobs now dt in if should_run job now dt then name ∷ rest else rest

-- One turn of `_janitor`.
unfoldable pub janitor : ℕ → Jobs → Jobs
janitor now jobs = select (λ e. not (is_expired e.1 now)) jobs
