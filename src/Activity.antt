-- ===== src/Activity.antt =====
-- web/src/lib/activity.ts: the jobs of the last days, counted by the day on which they were queued.
-- The browser's clock and time zone are arguments: `today` is the local calendar day, as a day number,
-- and `utc_day d` the UTC day at the present time of day of the local day `d`; `label_of` is
-- `toLocaleDateString`.
pub mod Calendar
pub mod Counts
pub mod Window
pub mod Chart
mod Tests
use backup_orchestration_pla.Common.{
  ℕ, zero, suc, ◌+◌, ◌-◌, Bool, true, false, List, [], ◌∷◌, take, if◌then◌else◌,
}
use backup_orchestration_pla.Common.Text.{Text, text_eq}
use backup_orchestration_pla.Wire.{Job, JobStatus, queued, in_progress, completed, failed}
use Calendar.{iso_date}

pub record DayBucket : Type 0 where
  pub date : Text
  pub label : Text
  pub succeeded : ℕ
  pub active : ℕ
  pub failures : ℕ

-- `buckets.set(b.date, b)`: a key that is there keeps its place.
pub set_bucket : DayBucket → List DayBucket → List DayBucket
set_bucket b [] = b ∷ []
set_bucket b (x ∷ xs) = if text_eq x.date b.date then b ∷ xs else x ∷ set_bucket b xs

-- `job.queuedAt.slice(0, 10)`
abbrev pub day_of : Job → Text
day_of j = take 10 j.queued_at

abbrev pub count_status : JobStatus → DayBucket → DayBucket
count_status completed b = record b { succeeded = b.succeeded + 1 }
count_status failed b = record b { failures = b.failures + 1 }
count_status queued b = record b { active = b.active + 1 }
count_status in_progress b = record b { active = b.active + 1 }

-- One round of the loop over the jobs: a job of no bucket is passed over.
pub count_job : Job → List DayBucket → List DayBucket
count_job j [] = []
count_job j (b ∷ bs) =
    if text_eq b.date (day_of j) then count_status j.status b ∷ bs else b ∷ count_job j bs

pub count_jobs : List Job → List DayBucket → List DayBucket
count_jobs [] bs = bs
count_jobs (j ∷ js) bs = count_jobs js (count_job j bs)

module _ (today : ℕ) (utc_day : ℕ → ℕ) (label_of : ℕ → Text) where
  -- The empty bucket of `i` days ago: its key is the UTC date, its label the local one.
  pub bucket_at : ℕ → DayBucket
  bucket_at i = record {
    date = iso_date (utc_day (today - i));
    label = label_of (today - i);
    succeeded = 0;
    active = 0;
    failures = 0;
  }

  -- The loop over `i`, from `days - 1` down to 0.
  pub fill : ℕ → List DayBucket → List DayBucket
  unfolding bucket_at
  fill zero bs = bs
  fill (suc i) bs = fill i (set_bucket (bucket_at i) bs)

  pub bucket_jobs_by_day : List Job → ℕ → List DayBucket
  bucket_jobs_by_day jobs days = count_jobs jobs (fill days [])
