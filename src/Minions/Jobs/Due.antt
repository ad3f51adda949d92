-- ===== src/Minions/Jobs/Due.antt =====
-- The minutes at which a pool is refreshed.
use coriolis.Prelude.{
  Bool-cases, inl, inr, ◌∙◌, ℕ, zero, suc, ◌<◌, ◌≤◌, ◌%◌, ltb, ◌==◌, Bool, true, false, ◌&&◌,
  if◌then◌else◌, all, any, elem, List, [], ◌∷◌, ◌≡◌, refl, arith, map,
}
use coriolis.Cron.{Time, should_run, compare_pairs, schedule_pairs}
use coriolis.Minions.Jobs.{Period, period_minutes, refresh_minutes, refresh_job, refresh_jobs}

-- Whether a test holds for each number below the first.
all_below : ℕ → (ℕ → Bool) → Bool
all_below zero p = true
all_below (suc n) p = p n && all_below n p

all_below-lt : (n : ℕ) (p : ℕ → Bool) (x : ℕ) → all_below n p ≡ true → x < n → p x ≡ true
unfolding all_below
all_below-lt zero p x h lt = absurd (omega arith)
all_below-lt (suc n) p x h lt = ground (arith, all_below-lt n p x)

same_bool : Bool → Bool → Bool
same_bool true b = b
same_bool false b = if b then false else true

same_bool-eq : (a b : Bool) → same_bool a b ≡ true → a ≡ b
unfolding same_bool
same_bool-eq a b h = ground arith

-- For periods from 1 to 60 and minutes below 60.
minute_table :
    all_below 60
      (λ p. all_below 60 (λ m. same_bool (elem m (refresh_minutes (suc p))) (m % suc p == 0)))
    ≡ true
unfolding all_below same_bool refresh_minutes elem
minute_table = refl

job-due :
    (name : ℕ → ℕ) (minute now : ℕ) (dt : Time)
    → should_run (refresh_job name minute) now dt ≡ (minute == dt.minute)
unfolding should_run all compare_pairs schedule_pairs
job-due name minute now dt = ground arith

any-due :
    (name : ℕ → ℕ) (now : ℕ) (dt : Time) (ms : List ℕ)
    → any (λ job. should_run job now dt) (map (refresh_job name) ms) ≡ elem dt.minute ms
unfolding any elem
any-due name now dt [] = refl
any-due name now dt (m ∷ ms) = rw (job-due name m now dt, any-due name now dt ms) refl

period_bound : (p : Period) → period_minutes p ≤ 60
period_bound Period.negative = omega arith
period_bound (Period.minutes n) = ground arith

elem-refresh_minutes :
    (n m : ℕ) → 0 < n → n ≤ 60 → m < 60 → elem m (refresh_minutes n) ≡ (m % n == 0)
elem-refresh_minutes zero m h k l = absurd (omega arith)
elem-refresh_minutes (suc n) m h k l =
    let row = all_below-lt 60 _ n minute_table (omega arith) in
    same_bool-eq (elem m (refresh_minutes (suc n))) (m % suc n == 0) (all_below-lt 60 _ m row l)

jobs-any :
    (name : ℕ → ℕ) (n now : ℕ) (dt : Time)
    → n ≤ 60
    → dt.minute < 60
    → any
        (λ job. should_run job now dt)
        (if n == 0 then [] else map (refresh_job name) (refresh_minutes n))
      ≡ (ltb 0 n && dt.minute % n == 0)
unfolding any
jobs-any name zero now dt k h = refl
jobs-any name (suc n) now dt k h =
    let used : (suc n == 0) ≡ false = ground arith in
    let positive : ltb 0 (suc n) ≡ true = ground arith in
    rw (used, positive, any-due name now dt (refresh_minutes (suc n)))
      (elem-refresh_minutes (suc n) dt.minute (omega arith) k h)

-- A pool is refreshed at the minutes that the period divides, and every ten minutes if it is longer
-- than an hour.
abbrev pub refreshes_at : Period → ℕ → Bool
refreshes_at Period.negative minute = false
refreshes_at (Period.minutes n) minute =
    if ltb 60 n then minute % 10 == 0 else (ltb 0 n && minute % n == 0)

at_period :
    (p : Period) (minute : ℕ)
    → (ltb 0 (period_minutes p) && minute % period_minutes p == 0) ≡ refreshes_at p minute
at_period Period.negative minute = refl
at_period (Period.minutes n) minute = elim (Bool-cases (ltb 60 n)) [
  | inl q ↦ rw q refl
  | inr q ↦ rw q refl
]

-- One of the jobs that are registered to refresh a pool runs at a time exactly when its minute is a
-- multiple of 10, if the configured period is longer than an hour, and else when the period is neither
-- negative nor zero and divides the minute.
pub refresh_jobs-any :
    (name : ℕ → ℕ) (p : Period) (now : ℕ) (dt : Time)
    → dt.minute < 60
    → any (λ job. should_run job now dt) (refresh_jobs name p) ≡ refreshes_at p dt.minute
refresh_jobs-any name p now dt h =
    jobs-any name (period_minutes p) now dt (period_bound p) h ∙ at_period p dt.minute
