-- ===== src/Activity/Chart.antt =====
-- web/src/components/ActivityChart.tsx: the note for an empty window, and the tooltip of a day. What the
-- chart library hands to the tooltip is an argument.
use backup_orchestration_pla.Common.{
  ℕ, zero, suc, ◌+◌, ◌<◌, ◌≡◌, refl, sym, ap, ◌∙◌, ltb, ◌==◌, Bool, true, false, not, ◌&&◌, ◌||◌,
  Bool-cases, inl, inr, Option, none, some, List, [], ◌∷◌, map, any, All, ap₂, find, arith,
  if◌then◌else◌,
}
use backup_orchestration_pla.Common.Text.{Text, codes, text_eq}
use backup_orchestration_pla.Wire.{Job, JobStatus, queued, in_progress, completed, failed}
use backup_orchestration_pla.Activity.{
  DayBucket, day_of, bucket_jobs_by_day, bucket_at, fill, set_bucket,
}
use backup_orchestration_pla.Activity.Counts.{
  tally, jobs_on, is_succeeded, is_failed, is_active, buckets_count_jobs,
}

pub data Series : Type 0 where
  succeeded active failures : Series

-- `SERIES`: the series in their order, and their labels.
abbrev pub all_series : List Series
all_series = succeeded ∷ active ∷ failures ∷ []

abbrev pub series_label : Series → Text
series_label succeeded = codes "Succeeded"
series_label active = codes "Queued / running"
series_label failures = codes "Failed"

abbrev pub same_series : Series → Series → Bool
same_series succeeded succeeded = true
same_series active active = true
same_series failures failures = true
same_series _ _ = false

-- An entry of `payload`: its key, and its value if that is a number.
pub record Entry : Type 0 where
  pub key : Series
  pub value : Option ℕ

abbrev pub number : Option ℕ → ℕ
number none = 0
number (some n) = n

abbrev pub entry_value : Option Entry → ℕ
entry_value none = 0
entry_value (some e) = number e.value

-- `payload.reduce((sum, p) => …, 0)`
abbrev pub total : List Entry → ℕ
total [] = 0
total (e ∷ es) = number e.value + total es

-- The rows of the tooltip: the label and the value of each series whose value is not 0.
pub tooltip_rows : List Entry → List Series → List (Text × ℕ)
tooltip_rows payload [] = []
tooltip_rows payload (s ∷ ss) =
    let value = entry_value (find (λ e. same_series e.key s) payload) in
    let rest = tooltip_rows payload ss in
    if value == 0 then rest else (series_label s, value) ∷ rest

-- `ChartTooltip`: the label and the rows, or nothing; an empty payload has the total 0.
unfoldable pub tooltip : Bool → List Entry → Text → Option (Text × List (Text × ℕ))
unfolding tooltip_rows
tooltip shown payload label =
    if not shown || (total payload == 0)
    then none
    else some (label, tooltip_rows payload all_series)

-- `hasData`
abbrev pub jobs_in : DayBucket → ℕ
jobs_in d = d.succeeded + d.active + d.failures

unfoldable pub has_data : List DayBucket → Bool
has_data bs = any (λ d. ltb 0 (jobs_in d)) bs

abbrev sum_rows : List (Text × ℕ) → ℕ
sum_rows [] = 0
sum_rows ((l, n) ∷ rs) = n + sum_rows rs

-- What the chart library gives for a day: the three series of its bucket.
abbrev pub payload_of : DayBucket → List Entry
payload_of d =
    record { key = succeeded; value = some d.succeeded }
    ∷ record { key = active; value = some d.active }
    ∷ record { key = failures; value = some d.failures }
    ∷ []

-- What the tooltip of a day shows: nothing on a day without jobs, and otherwise rows of positive counts that
-- sum up to the jobs counted on the day.
abbrev pub Accounts : DayBucket → Option (Text × List (Text × ℕ)) → Type 0
Accounts d none = jobs_in d ≡ 0
Accounts d (some (label, rows)) =
    (0 < jobs_in d)
    × (label ≡ d.label)
    × (sum_rows rows ≡ jobs_in d)
    × All (λ (r : Text × ℕ). 0 < r.1) rows

-- The tooltip of a day, with the three series of its bucket as the payload: there is none on a day without jobs,
-- and otherwise it has the day's label and rows of positive counts that sum up to the day's jobs.
pub tooltip-Accounts : (d : DayBucket) → Accounts d (tooltip true (payload_of d) d.label)
unfolding tooltip
tooltip-Accounts d = ground arith

abbrev jobs_of : Text → List Job → ℕ
jobs_of date js = jobs_on (λ st. true) date js

status_series :
    (st : JobStatus) (same : Bool)
    → (if same && is_succeeded st then 1 else 0)
        + (if same && is_active st then 1 else 0)
        + (if same && is_failed st then 1 else 0)
      ≡ (if same && true then 1 else 0)
status_series queued same = ground arith
status_series in_progress same = ground arith
status_series completed same = ground arith
status_series failed same = ground arith

jobs_of-split :
    (date : Text) (js : List Job)
    → jobs_on is_succeeded date js + jobs_on is_active date js + jobs_on is_failed date js
      ≡ jobs_of date js
jobs_of-split date [] = omega arith
jobs_of-split date (j ∷ js) =
    omega (arith, status_series j.status (text_eq date (day_of j)), jobs_of-split date js)

jobs_of-any :
    (date : Text) (js : List Job) → ltb 0 (jobs_of date js) ≡ any (λ j. text_eq date (day_of j)) js
jobs_of-any date [] = refl
jobs_of-any date (j ∷ js) = ground (arith, jobs_of-any date js)

any-none : {A : Type 0} (xs : List A) → any (λ x. false) xs ≡ false
any-none [] = refl
any-none (x ∷ xs) = any-none xs

any-or :
    {A : Type 0} (p q : A → Bool) (xs : List A) → any (λ x. p x || q x) xs ≡ (any p xs || any q xs)
any-or p q [] = refl
any-or p q (x ∷ xs) = ground (arith, any-or p q xs)

any-swap :
    {A B : Type 0} (r : A → B → Bool) (xs : List A) (ys : List B)
    → any (λ x. any (r x) ys) xs ≡ any (λ y. any (λ x. r x y) xs) ys
any-swap r [] ys = sym (any-none ys)
any-swap r (x ∷ xs) ys =
    ap (any (r x) ys ||◌) (any-swap r xs ys) ∙ sym (any-or (r x) (λ y. any (λ x. r x y) xs) ys)

abbrev IsEmpty : DayBucket → Type 0
IsEmpty d = jobs_in d ≡ 0

has_data-tally :
    (js : List Job) (bs : List DayBucket)
    → All IsEmpty bs
    → has_data (map (tally js) bs) ≡ any (λ b. any (λ j. text_eq b.date (day_of j)) js) bs
unfolding has_data tally
has_data-tally js [] h = refl
has_data-tally js (b ∷ bs) h =
    ap₂ ◌||◌ (ap (ltb 0) (omega (arith, jobs_of-split b.date js, h.0)) ∙ jobs_of-any b.date js)
      (has_data-tally js bs h.1)

All-set_bucket :
    (P : DayBucket → Type 0) (b : DayBucket) (bs : List DayBucket)
    → P b
    → All P bs
    → All P (set_bucket b bs)
unfolding set_bucket
All-set_bucket P b [] p h = (p, tt)
All-set_bucket P b (x ∷ bs) p h = elim (Bool-cases (text_eq x.date b.date)) [
  | inl same ↦ rw same (p, h.1)
  | inr other ↦ rw other (h.0, All-set_bucket P b bs p h.1)
]

module _ (today : ℕ) (utc_day : ℕ → ℕ) (label_of : ℕ → Text) where
  fill-IsEmpty :
      (n : ℕ) (bs : List DayBucket)
      → All IsEmpty bs
      → All IsEmpty (fill today utc_day label_of n bs)
  unfolding fill bucket_at
  fill-IsEmpty zero bs h = h
  fill-IsEmpty (suc n) bs h =
      fill-IsEmpty n _
        (All-set_bucket IsEmpty (bucket_at today utc_day label_of n) bs (omega arith) h)

  -- The chart says that there are no jobs exactly when no job was queued on the date of a day of the window.
  pub has_data_iff :
      (jobs : List Job) (days : ℕ)
      → has_data (bucket_jobs_by_day today utc_day label_of jobs days)
        ≡ any (λ j. any (λ b. text_eq b.date (day_of j)) (fill today utc_day label_of days [])) jobs
  has_data_iff jobs days =
      ap has_data (buckets_count_jobs today utc_day label_of jobs days)
      ∙ has_data-tally jobs (fill today utc_day label_of days []) (fill-IsEmpty days [] tt)
      ∙ any-swap (λ b j. text_eq b.date (day_of j)) (fill today utc_day label_of days []) jobs
