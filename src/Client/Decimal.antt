-- ===== src/Client/Decimal.antt =====
-- web/src/api/client.ts, `String(filter.limit)`: the digits are those of the number, so the fuel is enough.
use backup_orchestration_pla.Common.{
  ℕ, zero, suc, ◌+◌, ◌-◌, ◌*◌, ◌/◌, ◌%◌, ◌<◌, ◌≡◌, refl, ◌∙◌, ltb, Bool-cases, inl, inr, [], ◌∷◌,
  ◌++◌, arith,
}
use backup_orchestration_pla.Common.Text.{Text}
use backup_orchestration_pla.Client.Paths.{decimal_fuel, decimal}

-- The number that decimal digits stand for, behind those read so far.
abbrev pub value_from : ℕ → Text → ℕ
value_from acc [] = acc
value_from acc (c ∷ s) = value_from (10 * acc + (c - b'0')) s

value_from-append :
    (acc : ℕ) (s : Text) (c : ℕ) → value_from acc (s ++ c ∷ []) ≡ 10 * value_from acc s + (c - b'0')
value_from-append acc [] c = refl
value_from-append acc (d ∷ s) c = value_from-append (10 * acc + (d - b'0')) s c

value-decimal_fuel : (fuel n : ℕ) → n < fuel → value_from 0 (decimal_fuel fuel n) ≡ n
unfolding decimal_fuel
value-decimal_fuel zero n h = absurd (omega arith)
value-decimal_fuel (suc fuel) n h = elim (Bool-cases (ltb n 10)) [
  | inl small ↦ rw small (ground arith)
  | inr large ↦ rw large (
      value_from-append 0 (decimal_fuel fuel (n / 10)) (b'0' + n % 10)
      ∙ more (value-decimal_fuel fuel (n / 10) (ground arith)))
]
  where
    more :
        value_from 0 (decimal_fuel fuel (n / 10)) ≡ n / 10
        → 10 * value_from 0 (decimal_fuel fuel (n / 10)) + (b'0' + n % 10 - b'0') ≡ n
    more e = omega arith

-- The digits of a number stand for it.
pub value-decimal : (n : ℕ) → value_from 0 (decimal n) ≡ n
value-decimal n = value-decimal_fuel (suc n) n (omega arith)
