-- ===== src/Common/Text/Trim.antt =====
-- `s.trim()` of JavaScript, and the laws of trimmed texts.
use Prim.Native.Nat.{ℕ}
use mathlib.Core.Path.{◌≡◌, refl, subst, sym, ap, ◌∙◌}
use mathlib.Core.Logic.{inl, inr}
use mathlib.Core.Bool.{Bool, false, ◌||◌, ◌&&◌}
use mathlib.Core.List.{[], ◌∷◌, ◌++◌, reverse, reverse-append, reverse-cons, reverse-reverse}
use backup_orchestration_pla.Common.Tests.{◌==◌, leb, if◌then◌else◌, Bool-cases}
use backup_orchestration_pla.Common.Lists.{any, All}
use backup_orchestration_pla.Common.Text.{Text}

-- White space and line ends: tab to carriage return, the spaces of Unicode, and the byte order mark.
unfoldable pub is_space : ℕ → Bool
is_space c =
    (leb 9 c && leb c 13)
    || ((leb 0x2000 c && leb c 0x200A)
        || any (◌==◌ c)
            (0x20 ∷ 0xA0 ∷ 0x1680 ∷ 0x2028 ∷ 0x2029 ∷ 0x202F ∷ 0x205F ∷ 0x3000 ∷ 0xFEFF ∷ []))

unfoldable pub drop_spaces : Text → Text
drop_spaces [] = []
drop_spaces (c ∷ s) = if is_space c then drop_spaces s else c ∷ s

unfoldable pub trim : Text → Text
trim s = reverse (drop_spaces (reverse (drop_spaces s)))

-- A text that does not begin with a space.
abbrev pub StartsClean : Text → Type 0
StartsClean [] = Unit
StartsClean (c ∷ s) = is_space c ≡ false

drop_spaces-StartsClean : (s : Text) → StartsClean (drop_spaces s)
unfolding drop_spaces
drop_spaces-StartsClean [] = tt
drop_spaces-StartsClean (c ∷ s) = elim (Bool-cases (is_space c)) [
  | inl e ↦ rw e (drop_spaces-StartsClean s)
  | inr e ↦ rw e e
]

drop_spaces_clean : (s : Text) → StartsClean s → drop_spaces s ≡ s
unfolding drop_spaces
drop_spaces_clean [] h = refl
drop_spaces_clean (c ∷ s) h = rw h

-- What `drop_spaces` drops stands in front.
drop_spaces-suffix : (s : Text) → (pre : Text) × (s ≡ pre ++ drop_spaces s)
unfolding drop_spaces
drop_spaces-suffix [] = ([], refl)
drop_spaces-suffix (c ∷ s) = elim (Bool-cases (is_space c)) [
  | inl e ↦ let (pre, same) = drop_spaces-suffix s in (c ∷ pre, rw e (ap (◌∷◌ c) same))
  | inr e ↦ ([], rw e)
]

StartsClean-prefix : (s t : Text) → StartsClean (s ++ t) → StartsClean s
StartsClean-prefix [] t h = tt
StartsClean-prefix (c ∷ s) t h = h

-- Cutting the end leaves the start clean.
reverse-StartsClean : (s : Text) → StartsClean s → StartsClean (reverse (drop_spaces (reverse s)))
reverse-StartsClean s h =
    let (pre, same) = drop_spaces-suffix (reverse s) in
    StartsClean-prefix (reverse (drop_spaces (reverse s))) (reverse pre) (
      subst StartsClean
        (sym (reverse-reverse s) ∙ ap reverse same ∙ reverse-append pre (drop_spaces (reverse s)))
        h)

-- No space at either end.
pub record IsTrimmed (s : Text) : Type 0 where
  pub front : StartsClean s
  pub back : StartsClean (reverse s)

pub trim-IsTrimmed : (s : Text) → IsTrimmed (trim s)
unfolding trim
trim-IsTrimmed s = record {
  front = reverse-StartsClean (drop_spaces s) (drop_spaces-StartsClean s);
  back =
      rw (reverse-reverse (drop_spaces (reverse (drop_spaces s))))
        (drop_spaces-StartsClean (reverse (drop_spaces s)));
}

pub trim_fixed : (s : Text) → IsTrimmed s → trim s ≡ s
unfolding trim
trim_fixed s h =
    rw (drop_spaces_clean s h.front) (rw (drop_spaces_clean (reverse s) h.back) (reverse-reverse s))

-- A trimmed text is trimmed already.
pub trim-trim : (s : Text) → trim (trim s) ≡ trim s
trim-trim s = trim_fixed (trim s) (trim-IsTrimmed s)

-- Trimming takes characters away and brings in none.
All-append_left : (P : ℕ → Type 0) (s t : Text) → All P (s ++ t) → All P s
All-append_left P [] t h = tt
All-append_left P (c ∷ s) t h = (h.0, All-append_left P s t h.1)

All-append_right : (P : ℕ → Type 0) (s t : Text) → All P (s ++ t) → All P t
All-append_right P [] t h = h
All-append_right P (c ∷ s) t h = All-append_right P s t h.1

pub All-append : (P : ℕ → Type 0) (s t : Text) → All P s → All P t → All P (s ++ t)
All-append P [] t h k = k
All-append P (c ∷ s) t h k = (h.0, All-append P s t h.1 k)

All-reverse : (P : ℕ → Type 0) (s : Text) → All P s → All P (reverse s)
All-reverse P [] h = tt
All-reverse P (c ∷ s) h =
    rw (reverse-cons c s) (All-append P (reverse s) (c ∷ []) (All-reverse P s h.1) (h.0, tt))

All-drop_spaces : (P : ℕ → Type 0) (s : Text) → All P s → All P (drop_spaces s)
All-drop_spaces P s h =
    let (pre, same) = drop_spaces-suffix s in
    All-append_right P pre (drop_spaces s) (subst (All P) same h)

pub All-trim : (P : ℕ → Type 0) (s : Text) → All P s → All P (trim s)
unfolding trim
All-trim P s h = All-reverse P _ (All-drop_spaces P _ (All-reverse P _ (All-drop_spaces P s h)))
