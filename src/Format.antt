-- ===== src/Format.antt =====
-- web/src/lib/format.ts, `formatRelative`: which unit and which count are handed to the browser's
-- `Intl.RelativeTimeFormat`. The difference of the two clocks is an argument: by `ahead` or `behind`, in ms.
pub mod Rounding
pub mod Bytes
mod Tests
use backup_orchestration_pla.Common.{
  ℕ, ◌+◌, ◌-◌, ◌*◌, ◌/◌, leb, ltb, Bool, true, false, List, [], ◌∷◌, if◌then◌else◌,
}

-- An integer, by its side of 0.
pub data Offset : Type 0 where
  ahead behind : ℕ → Offset

abbrev pub size : Offset → ℕ
size (ahead n) = n
size (behind n) = n

-- `Math.round(x / d)`: a half goes up, towards the future.
unfoldable pub round_div : Offset → ℕ → Offset
round_div (ahead n) d = ahead ((2 * n + d) / (2 * d))
round_div (behind n) d = behind ((2 * n + (d - 1)) / (2 * d))

pub data TimeUnit : Type 0 where
  year month week day hour minute second : TimeUnit

pub data Relative : Type 0 where
  just_now : Relative
  relative : Offset → TimeUnit → Relative

-- The table `units`.
unfoldable pub seconds_of : TimeUnit → ℕ
seconds_of year = 31536000
seconds_of month = 2592000
seconds_of week = 604800
seconds_of day = 86400
seconds_of hour = 3600
seconds_of minute = 60
seconds_of second = 1

abbrev pub time_units : List TimeUnit
time_units = year ∷ month ∷ week ∷ day ∷ hour ∷ minute ∷ []

-- The loop over `units`, and what is returned behind it.
unfoldable pub relative_by : List TimeUnit → Offset → Relative
unfolding seconds_of round_div
relative_by [] diff = if ltb (size diff) 5 then just_now else relative diff second
relative_by (u ∷ us) diff =
    if leb (seconds_of u) (size diff)
    then relative (round_div diff (seconds_of u)) u
    else relative_by us diff

unfoldable pub format_relative : Offset → Relative
unfolding relative_by
format_relative ms = relative_by time_units (round_div ms 1000)
