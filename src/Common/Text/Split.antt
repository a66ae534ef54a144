-- ===== src/Common/Text/Split.antt =====
-- `s.split(',')` and `xs.join(', ')` of JavaScript: what is joined with clean parts splits again.
use Prim.Native.Nat.{ℕ}
use mathlib.Core.Path.{◌≡◌, refl, ap}
use mathlib.Core.Logic.{◌≢◌, inl, inr}
use mathlib.Core.Bool.{false}
use mathlib.Core.List.{List, [], ◌∷◌, ◌++◌}
use native.Mathlib.Omega.{arith}
use backup_orchestration_pla.Common.Tests.{◌==◌, if◌then◌else◌, Bool-cases, ==_iff}
use backup_orchestration_pla.Common.Lists.{All}
use backup_orchestration_pla.Common.Text.{Text}

-- Put a character in front of the first part.
abbrev pub cons_first : ℕ → List Text → List Text
cons_first c [] = (c ∷ []) ∷ []
cons_first c (p ∷ ps) = (c ∷ p) ∷ ps

unfoldable pub split : ℕ → Text → List Text
split sep [] = [] ∷ []
split sep (c ∷ s) = let parts = split sep s in if c == sep then [] ∷ parts else cons_first c parts

unfoldable pub join : Text → List Text → Text
join sep [] = []
join sep (x ∷ []) = x
join sep (x ∷ y ∷ xs) = x ++ (sep ++ join sep (y ∷ xs))

abbrev pub Lacks : ℕ → Text → Type 0
Lacks sep s = All (λ c. c ≢ sep) s

other : (c sep : ℕ) → c ≢ sep → (c == sep) ≡ false
other c sep h = ground arith

-- A part without the separator is the first one.
pub split-append : (sep : ℕ) (x s : Text) → Lacks sep x → split sep (x ++ sep ∷ s) ≡ x ∷ split sep s
unfolding split
split-append sep [] s h = rw ((==_iff sep sep).1 refl)
split-append sep (c ∷ x) s h = rw (other c sep h.0) (ap (cons_first c) (split-append sep x s h.1))

pub split_single : (sep : ℕ) (x : Text) → Lacks sep x → split sep x ≡ x ∷ []
unfolding split
split_single sep [] h = refl
split_single sep (c ∷ x) h = rw (other c sep h.0) (ap (cons_first c) (split_single sep x h.1))

-- No part holds the separator.
cons_first-Lacks :
    (sep c : ℕ) (ps : List Text) → c ≢ sep → All (Lacks sep) ps → All (Lacks sep) (cons_first c ps)
cons_first-Lacks sep c [] h k = ((h, tt), tt)
cons_first-Lacks sep c (p ∷ ps) h k = ((h, k.0), k.1)

pub split-Lacks : (sep : ℕ) (s : Text) → All (Lacks sep) (split sep s)
unfolding split
split-Lacks sep [] = (tt, tt)
split-Lacks sep (c ∷ s) = elim (Bool-cases (c == sep)) [
  | inl e ↦ rw e (tt, split-Lacks sep s)
  | inr e ↦ rw e (cons_first-Lacks sep c (split sep s) (ground arith) (split-Lacks sep s))
]
