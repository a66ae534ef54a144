-- ===== src/Format/Rounding.antt =====
-- The unit is the largest that fits, and the count is the nearest.
use backup_orchestration_pla.Common.{ℕ, ◌+◌, ◌*◌, ◌≤◌, ◌<◌, arith}
use backup_orchestration_pla.Format.{
  Offset, ahead, behind, size, round_div, TimeUnit, year, month, week, day, hour, minute, second,
  Relative, just_now, relative, seconds_of, time_units, relative_by, format_relative,
}

-- The differences, in seconds, of which a unit is used.
abbrev pub Fits : TimeUnit → ℕ → Type 0
Fits year n = 31536000 ≤ n
Fits month n = (2592000 ≤ n) × (n < 31536000)
Fits week n = (604800 ≤ n) × (n < 2592000)
Fits day n = (86400 ≤ n) × (n < 604800)
Fits hour n = (3600 ≤ n) × (n < 86400)
Fits minute n = (60 ≤ n) × (n < 3600)
Fits second n = (5 ≤ n) × (n < 60)

-- A count of units on the side of the difference, within half a unit of it.
abbrev pub Nearest : Offset → ℕ → Offset → Type 0
Nearest (ahead n) d (ahead count) = (2 * (d * count) ≤ 2 * n + d) × (2 * n < 2 * (d * count) + d)
Nearest (behind n) d (behind count) = (2 * (d * count) < 2 * n + d) × (2 * n ≤ 2 * (d * count) + d)
Nearest _ d _ = ⊥

-- What may be said of a difference of so many seconds.
abbrev pub Says : Offset → Relative → Type 0
Says diff just_now = size diff ≤ 4
Says diff (relative count u) = Fits u (size diff) × Nearest diff (seconds_of u) count

relative_by-Says : (diff : Offset) → Says diff (relative_by time_units diff)
unfolding relative_by seconds_of round_div
relative_by-Says (ahead n) = ground arith
relative_by-Says (behind n) = ground arith

rounded : (ms : Offset) → Nearest ms 1000 (round_div ms 1000)
unfolding round_div
rounded (ahead n) = omega arith
rounded (behind n) = omega arith

-- A moment is told by the largest unit that the rounded seconds fill, on its side of now and as the nearest
-- count, a half towards the future; only a difference that rounds to less than 5 seconds is "just now".
pub largest_unit :
    (ms : Offset)
    → Nearest ms 1000 (round_div ms 1000) × Says (round_div ms 1000) (format_relative ms)
unfolding format_relative
largest_unit ms = (rounded ms, relative_by-Says (round_div ms 1000))
