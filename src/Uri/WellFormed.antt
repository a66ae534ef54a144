-- ===== src/Uri/WellFormed.antt =====
-- `encodeURIComponent` throws exactly at a text with a lone surrogate.
use mathlib.Core.Option
use backup_orchestration_pla.Common.{
  ◌≡◌, ◌≢◌, refl, sym, ◌∙◌, Option, none, some, [], ◌∷◌, ◌↔◌, inl, inr, ℕ, flat_map,
}
use backup_orchestration_pla.Common.Text.{Text}
use backup_orchestration_pla.Uri.{
  plain, high, low, classify, combine, scalars, encode_scalar, encode_uri_component,
}
use backup_orchestration_pla.Uri.Scalars.{classify-cases}

-- A text in which each surrogate stands in a pair.
pub data WellFormed : Text → Type 0 where
  empty : WellFormed []
  single : {c : ℕ} {s : Text} → classify c ≡ plain → WellFormed s → WellFormed (c ∷ s)
  pair :
      {h l : ℕ} {s : Text}
      → classify h ≡ high
      → classify l ≡ low
      → WellFormed s
      → WellFormed (h ∷ l ∷ s)

map-ne-none : {A B : Type 0} (f : A → B) (o : Option A) → o ≢ none → Option.map f o ≢ none
map-ne-none f none h e = h refl
map-ne-none f (some x) h e = cc

at_high : (h : ℕ) (s : Text) → classify h ≡ high → scalars none (h ∷ s) ≡ scalars (some h) s
unfolding scalars
at_high h s k = rw (k, scalars)

at_low :
    (h c : ℕ) (s : Text)
    → classify c ≡ low
    → scalars (some h) (c ∷ s) ≡ Option.map (◌∷◌ (combine h c)) (scalars none s)
unfolding scalars
at_low h c s k = rw (k, scalars)

scalars_total : {s : Text} → WellFormed s → scalars none s ≢ none
unfolding scalars
scalars_total empty e = cc
scalars_total (single {c} {s} k w) e =
    map-ne-none (◌∷◌ c) (scalars none s) (scalars_total w) (rw (k, scalars) at e)
scalars_total (pair {h} {l} {s} p q w) e =
    map-ne-none (◌∷◌ (combine h l)) (scalars none s) (scalars_total w)
      (sym (at_high h (l ∷ s) p ∙ at_low h l s q) ∙ e)

-- What the rest must be for the text to be well formed, behind a high surrogate if one is pending.
abbrev Rest : Option ℕ → Text → Type 0
Rest none s = WellFormed s
Rest (some h) s = classify h ≡ high → WellFormed (h ∷ s)

map-eq-none : {A B : Type 0} (f : A → B) (o : Option A) → Option.map f o ≢ none → o ≢ none
map-eq-none f none h e = h refl
map-eq-none f (some x) h e = cc

scalars_only : (o : Option ℕ) (s : Text) → scalars o s ≢ none → Rest o s
unfolding scalars
scalars_only none [] h = empty
scalars_only (some c) [] h = absurd (h refl)
scalars_only none (c ∷ s) h = elim (classify-cases c) [
  | inl k ↦ single k (scalars_only none s (map-eq-none (◌∷◌ c) _ (rw (k, scalars) at h)))
  | inr (inl k) ↦ scalars_only (some c) s (rw (k, scalars) at h) k
  | inr (inr k) ↦ absurd ((rw (k, scalars) at h) refl)
]
scalars_only (some d) (c ∷ s) h = elim (classify-cases c) [
  | inl k ↦ absurd ((rw (k, scalars) at h) refl)
  | inr (inl k) ↦ absurd ((rw (k, scalars) at h) refl)
  | inr (inr k) ↦
      λ p. pair p k (scalars_only none s (map-eq-none (◌∷◌ (combine d c)) _ (rw (k, scalars) at h)))
]

-- `encodeURIComponent` does not throw exactly on the texts in which each surrogate stands in a pair.
pub encode_succeeds_iff : (s : Text) → (encode_uri_component s ≢ none) ↔ WellFormed s
unfolding encode_uri_component
encode_succeeds_iff s = (
  λ h. scalars_only none s (map-eq-none (flat_map encode_scalar) _ h),
  λ w. map-ne-none (flat_map encode_scalar) _ (scalars_total w),
)
