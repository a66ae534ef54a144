-- ===== src/Activity/Counts.antt =====
-- Each bucket counts exactly the jobs of its day, by their status.
use backup_orchestration_pla.Common.{
  ℕ, zero, suc, ◌+◌, ◌≡◌, ◌≢◌, refl, sym, subst, ap, ap₂, ◌∙◌, Bool, true, false, ◌&&◌, Bool-cases,
  inl, inr, List, [], ◌∷◌, map, All, arith, if◌then◌else◌,
}
use backup_orchestration_pla.Common.Text.{Text, text_eq, text_eq_iff}
use backup_orchestration_pla.Wire.{Job, JobStatus, queued, in_progress, completed, failed}
use backup_orchestration_pla.Activity.{
  DayBucket, set_bucket, day_of, count_status, count_job, count_jobs, bucket_at, fill,
  bucket_jobs_by_day,
}

-- Which of the three series a status belongs to.
abbrev pub is_succeeded : JobStatus → Bool
is_succeeded completed = true
is_succeeded _ = false

abbrev pub is_failed : JobStatus → Bool
is_failed failed = true
is_failed _ = false

abbrev pub is_active : JobStatus → Bool
is_active queued = true
is_active in_progress = true
is_active _ = false

-- The number of jobs of a day with a status of a series.
abbrev pub jobs_on : (JobStatus → Bool) → Text → List Job → ℕ
jobs_on p date [] = 0
jobs_on p date (j ∷ js) =
    (if text_eq date (day_of j) && p j.status then 1 else 0) + jobs_on p date js

-- A bucket with the jobs of its day counted in.
unfoldable pub tally : List Job → DayBucket → DayBucket
tally js b = record b {
  succeeded = b.succeeded + jobs_on is_succeeded b.date js;
  active = b.active + jobs_on is_active b.date js;
  failures = b.failures + jobs_on is_failed b.date js;
}

abbrev counted : Job → DayBucket → DayBucket
counted j b = if text_eq b.date (day_of j) then count_status j.status b else b

-- No two buckets have one date.
abbrev pub Lacks : Text → List DayBucket → Type 0
Lacks date bs = All (λ b. b.date ≢ date) bs

abbrev pub Distinct : List DayBucket → Type 0
Distinct [] = Unit
Distinct (b ∷ bs) = Lacks b.date bs × Distinct bs

pub not_same : (s t : Text) → s ≢ t → text_eq s t ≡ false
not_same s t h = elim (Bool-cases (text_eq s t)) [
  | inl e ↦ absurd (h ((text_eq_iff s t).0 e))
  | inr e ↦ e
]

counted-other : (j : Job) (bs : List DayBucket) → Lacks (day_of j) bs → map (counted j) bs ≡ bs
counted-other j [] h = refl
counted-other j (b ∷ bs) h =
    rw (not_same b.date (day_of j) h.0) (ap (◌∷◌ b) (counted-other j bs h.1))

-- Only the first bucket of a date is changed, and there is no other.
count_job-map : (j : Job) (bs : List DayBucket) → Distinct bs → count_job j bs ≡ map (counted j) bs
unfolding count_job
count_job-map j [] h = refl
count_job-map j (b ∷ bs) h = elim (Bool-cases (text_eq b.date (day_of j))) [
  | inl e ↦
      let others = subst (λ d. Lacks d bs) ((text_eq_iff b.date (day_of j)).0 e) h.0 in
      rw e (ap (◌∷◌ (count_status j.status b)) (sym (counted-other j bs others)))
  | inr e ↦ rw e (ap (◌∷◌ b) (count_job-map j bs h.1))
]

date-count_status : (st : JobStatus) (b : DayBucket) → (count_status st b).date ≡ b.date
date-count_status completed b = refl
date-count_status failed b = refl
date-count_status queued b = refl
date-count_status in_progress b = refl

date-counted : (j : Job) (b : DayBucket) → (counted j b).date ≡ b.date
date-counted j b = ground (arith, date-count_status j.status b)

counted-Lacks :
    (j : Job) (d : Text) (bs : List DayBucket) → Lacks d bs → Lacks d (map (counted j) bs)
counted-Lacks j d [] h = tt
counted-Lacks j d (b ∷ bs) h = ((λ e. h.0 (sym (date-counted j b) ∙ e)), counted-Lacks j d bs h.1)

counted-Distinct : (j : Job) (bs : List DayBucket) → Distinct bs → Distinct (map (counted j) bs)
counted-Distinct j [] h = tt
counted-Distinct j (b ∷ bs) h = (
  subst (λ d. Lacks d (map (counted j) bs)) (sym (date-counted j b))
      (counted-Lacks j b.date bs h.0),
  counted-Distinct j bs h.1,
)

-- A bucket with one job of the given status counted in, if the job is of its day.
abbrev one_more : Bool → JobStatus → List Job → DayBucket → DayBucket
one_more same st js b = record b {
  succeeded =
      b.succeeded + ((if same && is_succeeded st then 1 else 0) + jobs_on is_succeeded b.date js);
  active = b.active + ((if same && is_active st then 1 else 0) + jobs_on is_active b.date js);
  failures = b.failures + ((if same && is_failed st then 1 else 0) + jobs_on is_failed b.date js);
}

tally_status :
    (st : JobStatus) (js : List Job) (b : DayBucket)
    → tally js (count_status st b) ≡ one_more true st js b
unfolding tally
tally_status completed js b = ground arith
tally_status failed js b = ground arith
tally_status queued js b = ground arith
tally_status in_progress js b = ground arith

tally_other : (st : JobStatus) (js : List Job) (b : DayBucket) → tally js b ≡ one_more false st js b
unfolding tally
tally_other st js b = ground arith

tally-counted :
    (j : Job) (js : List Job) (b : DayBucket) → tally js (counted j b) ≡ tally (j ∷ js) b
unfolding tally
tally-counted j js b = elim (Bool-cases (text_eq b.date (day_of j))) [
  | inl e ↦ rw e (tally_status j.status js b)
  | inr e ↦ rw e (tally_other j.status js b)
]

tally-map :
    (j : Job) (js : List Job) (bs : List DayBucket)
    → map (tally js) (map (counted j) bs) ≡ map (tally (j ∷ js)) bs
tally-map j js [] = refl
tally-map j js (b ∷ bs) = ap₂ ◌∷◌ (tally-counted j js b) (tally-map j js bs)

tally-nil : (bs : List DayBucket) → bs ≡ map (tally []) bs
unfolding tally
tally-nil [] = refl
tally-nil (b ∷ bs) = ap₂ ◌∷◌ (ground arith) (tally-nil bs)

-- The loop over the jobs, for buckets of different dates.
count_jobs-tally :
    (js : List Job) (bs : List DayBucket) → Distinct bs → count_jobs js bs ≡ map (tally js) bs
unfolding count_jobs
count_jobs-tally [] bs h = tally-nil bs
count_jobs-tally (j ∷ js) bs h =
    rw (count_job-map j bs h)
      (count_jobs-tally js (map (counted j) bs) (counted-Distinct j bs h) ∙ tally-map j js bs)

set_bucket-Lacks :
    (b : DayBucket) (d : Text) (bs : List DayBucket)
    → b.date ≢ d
    → Lacks d bs
    → Lacks d (set_bucket b bs)
unfolding set_bucket
set_bucket-Lacks b d [] n h = (n, tt)
set_bucket-Lacks b d (x ∷ bs) n h = elim (Bool-cases (text_eq x.date b.date)) [
  | inl e ↦ rw e (n, h.1)
  | inr e ↦ rw e (h.0, set_bucket-Lacks b d bs n h.1)
]

set_bucket-Distinct :
    (b : DayBucket) (bs : List DayBucket) → Distinct bs → Distinct (set_bucket b bs)
unfolding set_bucket
set_bucket-Distinct b [] h = (tt, tt)
set_bucket-Distinct b (x ∷ bs) h = elim (Bool-cases (text_eq x.date b.date)) [
  | inl e ↦ rw e (subst (λ d. Lacks d bs) ((text_eq_iff x.date b.date).0 e) h.0, h.1)
  | inr e ↦ rw e (
    set_bucket-Lacks b x.date bs (λ same. cc (e, (text_eq_iff x.date b.date).1 (sym same))) h.0,
    set_bucket-Distinct b bs h.1,
  )
]

module _ (today : ℕ) (utc_day : ℕ → ℕ) (label_of : ℕ → Text) where
  pub fill-Distinct :
      (days : ℕ) (bs : List DayBucket)
      → Distinct bs
      → Distinct (fill today utc_day label_of days bs)
  unfolding fill
  fill-Distinct zero bs h = h
  fill-Distinct (suc i) bs h =
      fill-Distinct i _ (set_bucket-Distinct (bucket_at today utc_day label_of i) bs h)

  -- The chart's buckets are those of the empty window, each with exactly the jobs counted in that were queued
  -- on its date: the completed, the failed, and all others as active.
  pub buckets_count_jobs :
      (jobs : List Job) (days : ℕ)
      → bucket_jobs_by_day today utc_day label_of jobs days
        ≡ map (tally jobs) (fill today utc_day label_of days [])
  unfolding bucket_jobs_by_day
  buckets_count_jobs jobs days = count_jobs-tally jobs _ (fill-Distinct days [] tt)
