-- ===== src/Format/Tests.antt =====
-- Relative times of some differences.
use backup_orchestration_pla.Common.{ℕ, zero, suc, ◌≡◌, ◌↔◌, ◌≤◌, ◌^◌, refl, arith}
use backup_orchestration_pla.Common.Text.{codes}
use backup_orchestration_pla.Format.Bytes.{Shown, format_bytes-Shown, format_bytes}
use backup_orchestration_pla.Format.{
  ahead, behind, round_div, hour, day, relative, just_now, seconds_of, relative_by, format_relative,
}
use backup_orchestration_pla.Client.Paths.{decimal_fuel}

told :
    (format_relative (behind 5400000) ≡ relative (behind 1) hour)
    × (format_relative (ahead 5400000) ≡ relative (ahead 2) hour)
    × (format_relative (behind 4000) ≡ just_now)
    × (format_relative (behind 90000000) ≡ relative (behind 1) day)
unfolding format_relative relative_by seconds_of round_div
told = (refl, refl, refl, refl)

-- The whole quotient of the logarithms of a size below 1024 * 1024 and of 1024.
abbrev one : ℕ → ℕ
one bytes = 1

power-positive : (i : ℕ) → 1 ≤ 1024 ^ i
power-positive zero = omega arith
power-positive (suc i) = omega (arith, power-positive i)

one-exact : (i : ℕ) → (1024 ^ i ≤ 1536) ↔ (i ≤ 1)
one-exact zero = omega arith
one-exact (suc zero) = omega arith
one-exact (suc (suc i)) = omega (arith, power-positive i)

format_bytes-Shown_example : (t i : ℕ) × Shown 1536 t i (format_bytes one 1536)
format_bytes-Shown_example = format_bytes-Shown one 1536 (λ e. cc e) one-exact

sizes_shown : (format_bytes one 1536 ≡ codes "1.5 KB") × (format_bytes one 0 ≡ codes "0 B")
unfolding format_bytes decimal_fuel
sizes_shown = (refl, refl)
