-- ===== src/Activity/Calendar.antt =====
-- `toISOString().slice(0, 10)`: the date of a day number (0 is 1970-01-01) by the Gregorian calendar,
-- and its text. Up to the year 9999 different days have different texts.
use backup_orchestration_pla.Common.{
  ℕ, zero, suc, ◌+◌, ◌*◌, ◌/◌, ◌%◌, ◌≤◌, ◌<◌, ◌≡◌, ltb, ◌==◌, Bool, not, ◌&&◌, ◌||◌, [], ◌∷◌, arith,
  if◌then◌else◌,
}
use native.Mathlib.Decide.{dec_lt, ℕ_discrete}
use backup_orchestration_pla.Common.Text.{Text}

pub record Date : Type 0 where
  pub year : ℕ
  pub month : ℕ
  pub day : ℕ

unfoldable pub is_leap : ℕ → Bool
is_leap y = (y % 4 == 0) && (not (y % 100 == 0) || (y % 400 == 0))

unfoldable pub days_in_month : ℕ → ℕ → ℕ
unfolding is_leap
days_in_month y m =
    if m == 2
    then (if is_leap y then 29 else 28)
    else if (m == 4) || ((m == 6) || ((m == 9) || (m == 11)))
    then 30
    else 31

unfoldable pub next_date : Date → Date
next_date t =
    if ltb t.day (days_in_month t.year t.month)
    then record t { day = t.day + 1 }
    else if ltb t.month 12
    then record { year = t.year; month = t.month + 1; day = 1 }
    else record { year = t.year + 1; month = 1; day = 1 }

unfoldable pub date_of : ℕ → Date
date_of zero = record { year = 1970; month = 1; day = 1 }
date_of (suc n) = next_date (date_of n)

abbrev pub digit : ℕ → ℕ
digit n = b'0' + n % 10

unfoldable pub iso_text : Date → Text
iso_text t =
    digit (t.year / 1000)
    ∷ digit (t.year / 100)
    ∷ digit (t.year / 10)
    ∷ digit t.year
    ∷ b'-'
    ∷ digit (t.month / 10)
    ∷ digit t.month
    ∷ b'-'
    ∷ digit (t.day / 10)
    ∷ digit t.day
    ∷ []

unfoldable pub iso_date : ℕ → Text
unfolding next_date date_of iso_text days_in_month
iso_date n = iso_text (date_of n)

record IsDate (t : Date) : Type 0 where
  month_max : t.month ≤ 12
  day_max : t.day ≤ 31

days_in_month-le : (y m : ℕ) → days_in_month y m ≤ 31
unfolding days_in_month
days_in_month-le y m = ground arith

date_of-IsDate : (n : ℕ) → IsDate (date_of n)
unfolding date_of next_date
date_of-IsDate zero = omega arith
date_of-IsDate (suc n) =
    ground (arith, date_of-IsDate n, days_in_month-le (date_of n).year (date_of n).month)

-- Dates in their order.
abbrev key : Date → ℕ
key t = t.year * 10000 + t.month * 100 + t.day

key-next_date : (t : Date) → IsDate t → key t < key (next_date t)
unfolding next_date
key-next_date t h = ground arith

key-step : (n : ℕ) → key (date_of n) < key (date_of (suc n))
unfolding date_of
key-step n = key-next_date (date_of n) (date_of-IsDate n)

key-lt : (m n : ℕ) → m < n → key (date_of m) < key (date_of n)
key-lt m zero h = absurd (omega arith)
key-lt m (suc n) h = elim (ℕ_discrete m n) [
  | yes e ↦ rw e (key-step n)
  | no e ↦ omega (arith, key-lt m n (omega arith), key-step n)
]

key-iso_text :
    (s t : Date)
    → IsDate s
    → IsDate t
    → s.year ≤ 9999
    → t.year ≤ 9999
    → iso_text s ≡ iso_text t
    → key s ≡ key t
unfolding iso_text
key-iso_text s t h k p q e = ground arith

iso_date_text : (m n : ℕ) → iso_date m ≡ iso_date n → iso_text (date_of m) ≡ iso_text (date_of n)
unfolding iso_date
iso_date_text m n e = e

-- Two days up to the year 9999 with one text are one day.
pub iso_date-injective :
    (m n : ℕ) → (date_of m).year ≤ 9999 → (date_of n).year ≤ 9999 → iso_date m ≡ iso_date n → m ≡ n
iso_date-injective m n p q e =
    let same =
      key-iso_text (date_of m) (date_of n) (date_of-IsDate m) (date_of-IsDate n) p q
        (iso_date_text m n e) in
    elim (dec_lt m n) [
      | yes lt ↦ absurd (omega (arith, key-lt m n lt))
      | no ge ↦ elim (dec_lt n m) [
        | yes lt ↦ absurd (omega (arith, key-lt n m lt))
        | no le ↦ omega arith
      ]
    ]
