-- ===== src/View/Renders.antt =====
-- A list of rows renders exactly if each row does.
use mathlib.Core.Option
use backup_orchestration_pla.Common.{
  ℕ, zero, suc, ◌≡◌, ◌≢◌, ◌↔◌, refl, ap, Option-cases, inl, inr, Option, none, some, some_inj, List,
  [], ◌∷◌, take, All,
}
use backup_orchestration_pla.View.{render_all}

-- `none` stands for a component that throws.
abbrev pub Renders : {B : Type 0} → Option B → Type 0
Renders o = o ≢ none

pub map-Renders : {A B : Type 0} (f : A → B) (o : Option A) → Renders (Option.map f o) ↔ Renders o
map-Renders f none = ((λ h e. h refl), (λ h e. h refl))
map-Renders f (some a) = ((λ h e. cc e), (λ h e. cc e))

row-Renders :
    {B : Type 0} (o : Option B) (rest : Option (List B))
    → Renders (Option.bind o (λ y. Option.map (λ ys. y ∷ ys) rest)) ↔ (Renders o × Renders rest)
unfolding Option.bind
row-Renders none rest = ((λ h. absurd (h refl)), (λ h. absurd (h.0 refl)))
row-Renders (some b) rest =
    let m = map-Renders (λ ys. b ∷ ys) rest in ((λ h. ((λ e. cc e), m.0 h)), (λ h. m.1 h.1))

module _ {A B : Type 0} (f : A → Option B) where
  pub render_all-Renders : (xs : List A) → Renders (render_all f xs) ↔ All (λ x. Renders (f x)) xs
  unfolding render_all
  render_all-Renders [] = ((λ h. tt), (λ h e. cc e))
  render_all-Renders (x ∷ xs) =
      let row = row-Renders (f x) (render_all f xs) in
      let rest = render_all-Renders xs in
      ((λ h. let k = row.0 h in (k.0, rest.0 k.1)), (λ h. row.1 (h.0, rest.1 h.1)))

  -- The first rows of a list that renders.
  pub render_all-take :
      (n : ℕ) (xs : List A) {ys : List B}
      → render_all f xs ≡ some ys
      → render_all f (take n xs) ≡ some (take n ys)
  unfolding render_all Option.bind
  render_all-take zero xs p = refl
  render_all-take (suc n) [] p = ap some (ap (take (suc n)) (some_inj p))
  render_all-take (suc n) (x ∷ xs) {ys} p = elim (Option-cases (f x)) [
    | inl bad ↦ absurd (cc (rw bad at p))
    | inr (b, good) ↦ elim (Option-cases (render_all f xs)) [
      | inl bad ↦ absurd (cc (rw (good, bad) at p))
      | inr (bs, rest) ↦
          rw (good, render_all-take n xs rest)
            (ap some (ap (take (suc n)) (some_inj (rw (good, rest) at p))))
    ]
  ]
