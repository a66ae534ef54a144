-- ===== src/Format/Bytes.antt =====
-- web/src/lib/format.ts, `formatBytes`. The floating-point quotient of logarithms is an argument: `log_index`
-- is `Math.floor(Math.log(bytes) / Math.log(1024))`. `toFixed(1)` of an exact fraction takes the nearest
-- tenth, and the greater of two.
use backup_orchestration_pla.Common.{
  ℕ, zero, suc, ◌+◌, ◌*◌, ◌/◌, ◌%◌, ◌^◌, ◌≤◌, ◌<◌, ◌≡◌, ◌≢◌, ◌⊎◌, ◌↔◌, inl, inr, refl, sym, subst,
  min, ◌==◌, ◌∷◌, ◌++◌, arith, if◌then◌else◌,
}
use native.Mathlib.Decide.{dec_le, dec_lt}
use backup_orchestration_pla.Common.Text.{Text, codes}
use backup_orchestration_pla.Client.Paths.{decimal}

-- `units[i]`
abbrev pub unit_name : ℕ → Text
unit_name zero = codes "B"
unit_name (suc zero) = codes "KB"
unit_name (suc (suc zero)) = codes "MB"
unit_name (suc (suc (suc zero))) = codes "GB"
unit_name (suc (suc (suc (suc zero)))) = codes "TB"
unit_name _ = codes "undefined"

-- `(bytes / 1024 ** i).toFixed(1)`, in tenths.
unfoldable pub tenths : ℕ → ℕ → ℕ
tenths bytes i = (20 * bytes + 1024 ^ i) / (2 * 1024 ^ i)

abbrev pub fixed : ℕ → Text
fixed t = decimal (t / 10) ++ b'.' ∷ decimal (t % 10)

module _ (log_index : ℕ → ℕ) where
  unfoldable pub unit_index : ℕ → ℕ
  unit_index bytes = min (log_index bytes) 4

  unfoldable pub format_bytes : ℕ → Text
  unfolding unit_index tenths
  format_bytes bytes =
      if bytes == 0
      then codes "0 B"
      else let i = unit_index bytes in
        (if i == 0 then decimal bytes else fixed (tenths bytes i)) ++ b' ' ∷ unit_name i

-- A count of tenths of a unit that is nearest to the bytes.
abbrev pub Nearest : ℕ → ℕ → ℕ → Type 0
Nearest bytes unit t = (2 * (unit * t) ≤ 20 * bytes + unit) × (20 * bytes < 2 * (unit * t) + unit)

tenths-Nearest : (bytes i : ℕ) → i ≤ 4 → Nearest bytes (1024 ^ i) (tenths bytes i)
unfolding tenths
tenths-Nearest bytes zero h = omega arith
tenths-Nearest bytes (suc zero) h = omega arith
tenths-Nearest bytes (suc (suc zero)) h = omega arith
tenths-Nearest bytes (suc (suc (suc zero))) h = omega arith
tenths-Nearest bytes (suc (suc (suc (suc zero)))) h = omega arith
tenths-Nearest bytes (suc (suc (suc (suc (suc i))))) h = absurd (omega arith)

unit_index-range :
    (log_index : ℕ → ℕ) (bytes : ℕ)
    → let i = unit_index log_index bytes in
      (i ≤ 4) × (i ≤ log_index bytes) × (i ≤ 3 → i ≡ log_index bytes)
unfolding unit_index
unit_index-range log_index bytes = (omega arith, omega arith, λ small. omega arith)

not_below : (m n : ℕ) → ¬ (n ≤ m) → m < n
not_below m n h = elim (dec_lt m n) [ yes lt ↦ lt | no ge ↦ absurd (h (omega arith)) ]

-- The names of the powers of 1024.
pub data Named : ℕ → Text → Type 0 where
  single_bytes : Named 0 (codes "B")
  kilobytes : Named 1 (codes "KB")
  megabytes : Named 2 (codes "MB")
  gigabytes : Named 3 (codes "GB")
  terabytes : Named 4 (codes "TB")

unit_name-Named : (i : ℕ) → i ≤ 4 → Named i (unit_name i)
unit_name-Named zero h = single_bytes
unit_name-Named (suc zero) h = kilobytes
unit_name-Named (suc (suc zero)) h = megabytes
unit_name-Named (suc (suc (suc zero))) h = gigabytes
unit_name-Named (suc (suc (suc (suc zero)))) h = terabytes
unit_name-Named (suc (suc (suc (suc (suc i))))) h = absurd (omega arith)

-- A text that says so many tenths of the unit of the given name: bytes as a whole number, the others with a decimal.
pub data Reads (unit : Text) : Text → ℕ → ℕ → Type 0 where
  whole : {s : Text} (n : ℕ) → s ≡ decimal n ++ b' ' ∷ unit → Reads unit s (10 * n) 0
  decimals : {s : Text} (t i : ℕ) → s ≡ fixed t ++ b' ' ∷ unit → Reads unit s t (suc i)

-- What is said of a size: the nearest tenth of its unit, which is the largest of the five that it fills.
pub record Shown (bytes t i : ℕ) (s : Text) : Type 0 where
  pub unit : Text
  pub named : Named i unit
  pub reads : Reads unit s t i
  pub nearest : Nearest bytes (1024 ^ i) t
  pub filled : 1024 ^ i ≤ bytes
  pub largest : (i ≡ 4) ⊎ (bytes < 1024 ^ suc i)

tenths_whole : (bytes : ℕ) → tenths bytes 0 ≡ 10 * bytes
unfolding tenths
tenths_whole bytes = omega arith

module _ (log_index : ℕ → ℕ) (bytes : ℕ) where
  format_bytes_case :
      (i : ℕ)
      → unit_index log_index bytes ≡ i
      → bytes ≢ 0
      → Reads (unit_name i) (format_bytes log_index bytes) (tenths bytes i) i
  unfolding format_bytes
  format_bytes_case zero e h =
      subst (λ t. Reads (codes "B") (format_bytes log_index bytes) t 0) (sym (tenths_whole bytes))
        (whole bytes (ground arith))
  format_bytes_case (suc i) e h = decimals (tenths bytes (suc i)) i (ground arith)

  -- If the quotient of the logarithms is floored exactly, a size that is not 0 is shown by the nearest tenth
  -- of its unit, the unit being the largest of the five that the size fills.
  pub format_bytes-Shown :
      bytes ≢ 0
      → ((i : ℕ) → (1024 ^ i ≤ bytes) ↔ (i ≤ log_index bytes))
      → (t i : ℕ) × Shown bytes t i (format_bytes log_index bytes)
  format_bytes-Shown h exact =
      let i = unit_index log_index bytes in
      let range = unit_index-range log_index bytes in
      (
        tenths bytes i,
        i,
        record {
          unit = unit_name i;
          named = unit_name-Named i range.0;
          reads = format_bytes_case i refl h;
          nearest = tenths-Nearest bytes i range.0;
          filled = (exact i).1 range.1;
          largest = elim (dec_le i 3) [
            | yes small ↦ inr (
                not_below bytes (1024 ^ suc i)
                  (λ q. omega (arith, (exact (suc i)).0 q, range.2 small)))
            | no last ↦ inl (omega (arith, range.0))
          ];
        },
      )
