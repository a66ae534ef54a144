-- ===== src/Activity/Window.antt =====
-- The days of the window: one bucket for each of them, as long as no two of them fall on one UTC date.
use mathlib.Core.List.{append-nil, append_assoc}
use backup_orchestration_pla.Common.{
  ℕ, zero, suc, ◌+◌, ◌-◌, ◌≤◌, ◌<◌, ◌≡◌, ◌≢◌, refl, sym, ap, subst, ◌∙◌, Bool, true, List, [], ◌∷◌,
  ◌++◌, map, any, length, arith,
}
use native.Mathlib.Decide.{ℕ_discrete}
use backup_orchestration_pla.Common.Text.{Text, text_eq, text_eq_iff}
use backup_orchestration_pla.Wire.{Job}
use backup_orchestration_pla.Activity.{DayBucket, set_bucket, bucket_at, fill, bucket_jobs_by_day}
use backup_orchestration_pla.Activity.Calendar.{iso_date, iso_date-injective, date_of}
use backup_orchestration_pla.Activity.Counts.{Lacks, not_same, tally, buckets_count_jobs}

has_date : Text → List DayBucket → Bool
has_date d bs = any (λ x. text_eq x.date d) bs

length-set_bucket-le :
    (b : DayBucket) (bs : List DayBucket) → length (set_bucket b bs) ≤ 1 + length bs
unfolding set_bucket
length-set_bucket-le b [] = omega arith
length-set_bucket-le b (x ∷ bs) = ground (arith, length-set_bucket-le b bs)

length-set_bucket_known :
    (b : DayBucket) (bs : List DayBucket)
    → has_date b.date bs ≡ true
    → length (set_bucket b bs) ≡ length bs
unfolding set_bucket has_date
length-set_bucket_known b [] h = cc
length-set_bucket_known b (x ∷ bs) h = ground (arith, length-set_bucket_known b bs)

has_date-set_bucket :
    (b : DayBucket) (bs : List DayBucket) → has_date b.date (set_bucket b bs) ≡ true
unfolding set_bucket has_date
has_date-set_bucket b [] = ground (arith, (text_eq_iff b.date b.date).1 refl)
has_date-set_bucket b (x ∷ bs) =
    ground (arith, (text_eq_iff b.date b.date).1 refl, has_date-set_bucket b bs)

set_bucket_new :
    (b : DayBucket) (bs : List DayBucket) → Lacks b.date bs → set_bucket b bs ≡ bs ++ b ∷ []
unfolding set_bucket
set_bucket_new b [] h = refl
set_bucket_new b (x ∷ bs) h = rw (not_same x.date b.date h.0) (ap (◌∷◌ x) (set_bucket_new b bs h.1))

Lacks-append :
    (d : Text) (bs : List DayBucket) (b : DayBucket)
    → Lacks d bs
    → b.date ≢ d
    → Lacks d (bs ++ b ∷ [])
Lacks-append d [] b h n = (n, tt)
Lacks-append d (x ∷ bs) b h n = (h.0, Lacks-append d bs b h.1 n)

-- The days of the window, the oldest first.
abbrev pub countdown : ℕ → List ℕ
countdown zero = []
countdown (suc n) = n ∷ countdown n

length-map : {A B : Type 0} (f : A → B) (xs : List A) → length (map f xs) ≡ length xs
length-map f [] = refl
length-map f (x ∷ xs) = ap suc (length-map f xs)

module _ (today : ℕ) (utc_day : ℕ → ℕ) (label_of : ℕ → Text) where
  abbrev bucket : ℕ → DayBucket
  bucket = bucket_at today utc_day label_of

  fill_new :
      (n : ℕ) (bs : List DayBucket)
      → ((i j : ℕ) → i < j → j < n → (bucket j).date ≢ (bucket i).date)
      → ((i : ℕ) → i < n → Lacks (bucket i).date bs)
      → fill today utc_day label_of n bs ≡ bs ++ map bucket (countdown n)
  unfolding fill
  fill_new zero bs d f = sym (append-nil bs)
  fill_new (suc n) bs d f = rw (set_bucket_new (bucket n) bs (f n (omega arith))) (
      fill_new n (bs ++ bucket n ∷ []) (λ i j p q. d i j p (omega arith))
        (λ i p.
          Lacks-append (bucket i).date bs (bucket n) (f i (omega arith)) (d i n p (omega arith)))
      ∙ append_assoc bs (bucket n ∷ []) (map bucket (countdown n)))

  length-fill-le :
      (n : ℕ) (bs : List DayBucket) → length (fill today utc_day label_of n bs) ≤ n + length bs
  unfolding fill
  length-fill-le zero bs = omega arith
  length-fill-le (suc n) bs =
      omega (arith, length-fill-le n (set_bucket (bucket n) bs), length-set_bucket-le (bucket n) bs)

  -- Two days that follow one another and have one date take one bucket.
  length-fill-lt :
      (k n : ℕ) (bs : List DayBucket)
      → suc k < n
      → (bucket (suc k)).date ≡ (bucket k).date
      → length (fill today utc_day label_of n bs) < n + length bs
  unfolding fill
  length-fill-lt k zero bs h e = absurd (omega arith)
  length-fill-lt k (suc n) bs h e = elim (ℕ_discrete n (suc k)) [
    | no other ↦ omega (
      arith,
      length-fill-lt k n (set_bucket (bucket n) bs) (omega arith) e,
      length-set_bucket-le (bucket n) bs,
    )
    | yes same ↦
        let one = set_bucket (bucket (suc k)) bs in
        let known =
          subst (λ d. has_date d one ≡ true) e (has_date-set_bucket (bucket (suc k)) bs) in
        rw same (
          omega (
            arith,
            length-fill-le k (set_bucket (bucket k) one),
            length-set_bucket_known (bucket k) one known,
            length-set_bucket-le (bucket (suc k)) bs,
          ))
  ]

  bucket-date : (i : ℕ) → (bucket i).date ≡ iso_date (utc_day (today - i))
  unfolding bucket_at
  bucket-date i = refl

  lt-utc_day : ((d : ℕ) → utc_day d < utc_day (suc d)) → (i j : ℕ) → i < j → utc_day i < utc_day j
  lt-utc_day later i zero h = absurd (omega arith)
  lt-utc_day later i (suc j) h = elim (ℕ_discrete i j) [
    | yes e ↦ rw e (later j)
    | no e ↦ omega (arith, lt-utc_day later i j (omega arith), later j)
  ]

  different :
      (days : ℕ)
      → days ≤ today + 1
      → ((d : ℕ) → utc_day d < utc_day (suc d))
      → ((d : ℕ) → d ≤ today → (date_of (utc_day d)).year ≤ 9999)
      → (i j : ℕ) → i < j
      → j < days
      → (bucket j).date ≢ (bucket i).date
  different days h later years i j p q e =
      let same = sym (bucket-date j) ∙ e ∙ bucket-date i in
      let one =
        iso_date-injective (utc_day (today - j)) (utc_day (today - i)) (years _ (omega arith))
          (years _ (omega arith)) same in
      absurd (omega (arith, lt-utc_day later (today - j) (today - i) (omega arith), one))

  -- With days of different UTC dates, none after the year 9999, the chart has a bucket for each of the last
  -- `days` days, the oldest first, each with exactly the jobs of its date counted in.
  pub one_bucket_per_day :
      (jobs : List Job) (days : ℕ)
      → days ≤ today + 1
      → ((d : ℕ) → utc_day d < utc_day (suc d))
      → ((d : ℕ) → d ≤ today → (date_of (utc_day d)).year ≤ 9999)
      → bucket_jobs_by_day today utc_day label_of jobs days
        ≡ map (tally jobs) (map bucket (countdown days))
  one_bucket_per_day jobs days h later years =
      buckets_count_jobs today utc_day label_of jobs days
      ∙ ap (map (tally jobs)) (fill_new days [] (different days h later years) (λ i p. tt))

  -- When two days of the window that follow one another have one UTC date, as they can across a change of
  -- the clocks, the chart has fewer buckets than days.
  pub repeated_date_loses_bucket :
      (jobs : List Job) (days k : ℕ)
      → suc k < days
      → days ≤ today + 1
      → utc_day (today - suc k) ≡ utc_day (today - k)
      → length (bucket_jobs_by_day today utc_day label_of jobs days) < days
  repeated_date_loses_bucket jobs days k h i e =
      let same = bucket-date (suc k) ∙ ap iso_date e ∙ sym (bucket-date k) in
      let size = ap length (buckets_count_jobs today utc_day label_of jobs days) in
      omega (
        arith,
        length-fill-lt k days [] h same,
        size ∙ length-map (tally jobs) (fill today utc_day label_of days []),
      )
