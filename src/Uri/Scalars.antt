-- ===== src/Uri/Scalars.antt =====
-- The code points of a text give the text back.
use mathlib.Core.Option
use backup_orchestration_pla.Common.{
  ℕ, ◌≤◌, ◌<◌, ◌≡◌, refl, ◌⊎◌, inl, inr, Option, none, some, List, [], ◌∷◌, ◌++◌, All, flat_map,
  arith,
}
use backup_orchestration_pla.Common.Text.{Text}
use backup_orchestration_pla.Uri.{plain, high, low, classify, combine, scalars}
use backup_orchestration_pla.Uri.Decode.{units}

abbrev pub IsUnit : ℕ → Type 0
IsUnit c = c < 0x10000

abbrev pub IsScalar : ℕ → Type 0
IsScalar u = u < 0x110000

units_plain : (c : ℕ) → IsUnit c → units c ≡ c ∷ []
unfolding units
units_plain c h = ground arith

high_bounds : (c : ℕ) → classify c ≡ high → (0xD800 ≤ c) × (c < 0xDC00)
unfolding classify
high_bounds c h = ground arith

low_bounds : (c : ℕ) → classify c ≡ low → (0xDC00 ≤ c) × (c < 0xE000)
unfolding classify
low_bounds c h = ground arith

combine_bounds :
    (h l : ℕ)
    → classify h ≡ high
    → classify l ≡ low
    → (0x10000 ≤ combine h l) × (combine h l < 0x110000)
combine_bounds h l p q = omega (arith, high_bounds h p, low_bounds l q)

units-combine : (h l : ℕ) → classify h ≡ high → classify l ≡ low → units (combine h l) ≡ h ∷ l ∷ []
unfolding units
units-combine h l p q = ground (arith, high_bounds h p, low_bounds l q)

-- The code units that are read when the rest is `s`, behind the pending high surrogate if there is one.
abbrev pub behind : Option ℕ → Text → Text
behind none s = s
behind (some h) s = h ∷ s

abbrev pub IsPending : Option ℕ → Type 0
IsPending none = Unit
IsPending (some h) = classify h ≡ high

pub record Reads (s : Text) (us : List ℕ) : Type 0 where
  pub text : flat_map units us ≡ s
  pub valid : All IsScalar us

Reads-cons :
    (u : ℕ) (pre s : Text) (vs : List ℕ)
    → units u ≡ pre
    → IsScalar u
    → Reads s vs
    → Reads (pre ++ s) (u ∷ vs)
Reads-cons u pre s vs e v r = record { text = rw (e, r.text); valid = (v, r.valid) }

map_cons_some :
    (u : ℕ) (o : Option (List ℕ)) (us : List ℕ)
    → Option.map (◌∷◌ u) o ≡ some us
    → (vs : List ℕ) × (o ≡ some vs) × (us ≡ u ∷ vs)
map_cons_some u none us e = cc
map_cons_some u (some vs) us e = (vs, refl, ground arith)

pub classify-cases : (c : ℕ) → (classify c ≡ plain) ⊎ ((classify c ≡ high) ⊎ (classify c ≡ low))
unfolding classify
classify-cases c = ground arith

scalars_sound :
    (o : Option ℕ) (s : Text) (us : List ℕ)
    → IsPending o
    → All IsUnit s
    → scalars o s ≡ some us
    → Reads (behind o s) us
unfolding scalars
scalars_sound none [] us p h e =
    let same : us ≡ [] = ground arith in rw same (record { text = refl; valid = tt })
scalars_sound (some c) [] us p h e = cc
scalars_sound none (c ∷ s) us p h e = elim (classify-cases c) [
  | inl k ↦
      let (vs, found, same) = map_cons_some c (scalars none s) us (rw (k, scalars) at e) in
      rw same (
        Reads-cons c (c ∷ []) s vs (units_plain c h.0) (omega arith)
          (scalars_sound none s vs tt h.1 found))
  | inr (inl k) ↦ scalars_sound (some c) s us k h.1 (rw (k, scalars) at e)
  | inr (inr k) ↦ cc (rw (k, scalars) at e)
]
scalars_sound (some d) (c ∷ s) us p h e = elim (classify-cases c) [
  | inl k ↦ cc (rw (k, scalars) at e)
  | inr (inl k) ↦ cc (rw (k, scalars) at e)
  | inr (inr k) ↦
      let (vs, found, same) =
        map_cons_some (combine d c) (scalars none s) us (rw (k, scalars) at e) in
      rw same (
        Reads-cons (combine d c) (d ∷ c ∷ []) s vs (units-combine d c p k)
          (combine_bounds d c p k).1 (scalars_sound none s vs tt h.1 found))
]

-- The code points of a text are valid, and their code units are the text.
pub scalars-Reads : (s : Text) (us : List ℕ) → All IsUnit s → scalars none s ≡ some us → Reads s us
scalars-Reads s us h e = scalars_sound none s us tt h e
