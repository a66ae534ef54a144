-- ===== src/Activity/Tests.antt =====
-- The chart at concrete jobs and days.
use backup_orchestration_pla.Common.{
  pos, true, some, ℕ, zero, suc, ◌-◌, ◌≡◌, ◌<◌, ◌≤◌, refl, [], ◌∷◌, map, length, arith,
}
use backup_orchestration_pla.Common.Text.{Text, codes}
use backup_orchestration_pla.Wire.{Job, completed}
use backup_orchestration_pla.Activity.{
  DayBucket, bucket_jobs_by_day, fill, bucket_at, set_bucket, count_jobs, count_job,
}
use backup_orchestration_pla.Activity.Calendar.{
  iso_date, date_of, next_date, days_in_month, is_leap, iso_text,
}
use backup_orchestration_pla.Activity.Chart.{payload_of, tooltip}
use backup_orchestration_pla.Activity.Counts.{tally, buckets_count_jobs}
use backup_orchestration_pla.Activity.Window.{
  countdown, one_bucket_per_day, repeated_date_loses_bucket,
}

calendar : Unit {0}
unfolding iso_date date_of next_date days_in_month is_leap iso_text bucket_at
calendar = tt

leap_day : iso_date 59 ≡ codes "1970-03-01"
unfolding calendar
leap_day = refl

abbrev done : Job
done = record {
  id = codes "job-1";
  host = codes "web";
  plugin = codes "filesystem";
  policy = record { daily = pos 7; weekly = pos 4; monthly = pos 12; yearly = pos 0 };
  status = completed;
  queued_at = codes "1970-01-02T10:00:00Z";
}

abbrev no_label : ℕ → Text
no_label d = []

chart :
    bucket_jobs_by_day 2 (λ d. d) no_label (done ∷ []) 2
    ≡ record { date = codes "1970-01-02"; label = []; succeeded = 1; active = 0; failures = 0 }
      ∷ record { date = codes "1970-01-03"; label = []; succeeded = 0; active = 0; failures = 0 }
      ∷ []
unfolding calendar bucket_jobs_by_day fill set_bucket count_jobs count_job
chart = refl

buckets_count_jobs_example :
    bucket_jobs_by_day 2 (λ d. d) no_label (done ∷ []) 2
    ≡ map (tally (done ∷ [])) (fill 2 (λ d. d) no_label 2 [])
buckets_count_jobs_example = buckets_count_jobs 2 (λ d. d) no_label (done ∷ []) 2

early_years : (d : ℕ) → d ≤ 2 → (date_of d).year ≤ 9999
unfolding calendar
early_years zero h = omega arith
early_years (suc zero) h = omega arith
early_years (suc (suc zero)) h = omega arith
early_years (suc (suc (suc d))) h = absurd (omega arith)

one_bucket_per_day_example :
    bucket_jobs_by_day 2 (λ d. d) no_label (done ∷ []) 2
    ≡ map (tally (done ∷ [])) (map (bucket_at 2 (λ d. d) no_label) (countdown 2))
one_bucket_per_day_example =
    one_bucket_per_day 2 (λ d. d) no_label (done ∷ []) 2 (omega arith) (λ d. omega arith)
      early_years

-- A zone in which the local days 1 and 2 have one UTC date at the present time of day.
abbrev spring : ℕ → ℕ
spring zero = 0
spring (suc d) = suc (d - 1)

repeated_date_loses_bucket_example : length (bucket_jobs_by_day 2 spring no_label [] 3) < 3
repeated_date_loses_bucket_example =
    repeated_date_loses_bucket 2 spring no_label [] 3 0 (omega arith) (omega arith) refl

abbrev busy_day : DayBucket
busy_day = record {
  date = codes "1970-01-02";
  label = codes "Jan 2";
  succeeded = 2;
  active = 0;
  failures = 1;
}

tooltip_of_busy_day :
    tooltip true (payload_of busy_day) busy_day.label
    ≡ some (codes "Jan 2", (codes "Succeeded", 2) ∷ (codes "Failed", 1) ∷ [])
unfolding tooltip
tooltip_of_busy_day = refl
