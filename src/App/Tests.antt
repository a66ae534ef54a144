-- ===== src/App/Tests.antt =====
-- The screens of some links, by a matching of segments that is as documented.
use mathlib.Core.Option
use mathlib.Core.List.{append-nil}
use backup_orchestration_pla.Common.{
  suc, ◌≡◌, refl, sym, ap, ◌∙◌, true, false, Bool-cases, Option-cases, inl, inr, Option, none, some,
  List, [], ◌∷◌, ◌++◌, All, map, length, filter, arith, if◌then◌else◌,
}
use backup_orchestration_pla.Common.Text.{Text, codes, text_eq, text_eq_iff, truthy}
use backup_orchestration_pla.Common.Text.Split.{split, split-append, split_single}
use backup_orchestration_pla.Uri.{encode_uri_component, scalars, classify, encode_scalar}
use backup_orchestration_pla.Uri.Decode.{decode_uri_component}
use backup_orchestration_pla.View.Rows.{job_link, informix_link}
use backup_orchestration_pla.App.{
  nav_items, route, dashboard, hosts, jobs, snapshots, events, Segment, literal, param, connect,
  plugin_config, job_detail, router,
}
use backup_orchestration_pla.App.Links.{IsSegment, spell, Fits, Documented, links_open_screens}

fill : List Segment → List Text → Option (List Text)
unfolding Option.bind
fill [] [] = some []
fill [] (x ∷ xs) = none
fill (p ∷ ps) [] = none
fill (literal l ∷ ps) (x ∷ xs) = let rest = fill ps xs in if text_eq x l then rest else none
fill (param ∷ ps) (x ∷ xs) =
    let rest = fill ps xs in
    Option.bind (decode_uri_component x) (λ v. Option.map (λ vs. v ∷ vs) rest)

abbrev by_segments : List Segment → Text → Option (List Text)
by_segments p path = fill p (filter truthy (split b'/' path))

split-spell :
    (x : Text) (xs : List Text)
    → IsSegment x
    → All IsSegment xs
    → split b'/' (x ++ spell xs) ≡ x ∷ xs
split-spell x [] s h = ap (split b'/') (append-nil x) ∙ split_single b'/' x s.1
split-spell x (y ∷ ys) s h =
    split-append b'/' x (y ++ spell ys) s.1 ∙ ap (◌∷◌ x) (split-spell y ys h.0 h.1)

filter-truthy : (xs : List Text) → All IsSegment xs → filter truthy xs ≡ xs
filter-truthy [] h = refl
filter-truthy ([] ∷ xs) h = absurd (h.0.0 refl)
filter-truthy ((c ∷ s) ∷ xs) h = ap (◌∷◌ (c ∷ s)) (filter-truthy xs h.1)

segments-spell : (xs : List Text) → All IsSegment xs → filter truthy (split b'/' (spell xs)) ≡ xs
unfolding split
segments-spell [] h = refl
segments-spell (x ∷ xs) h = ap (filter truthy) (split-spell x xs h.0 h.1) ∙ filter-truthy (x ∷ xs) h

fill-Fits : (p : List Segment) (xs vs : List Text) → Fits p xs vs → fill p xs ≡ some vs
unfolding fill Option.bind
fill-Fits [] [] vs f = ap some (sym f)
fill-Fits [] (x ∷ xs) vs f = absurd f
fill-Fits (literal l ∷ p) [] vs f = absurd f
fill-Fits (param ∷ p) [] vs f = absurd f
fill-Fits (literal l ∷ p) (x ∷ xs) vs f = rw ((text_eq_iff x l).1 f.0) (fill-Fits p xs vs f.1)
fill-Fits (param ∷ p) (x ∷ xs) [] f = absurd f
fill-Fits (param ∷ p) (x ∷ xs) (v ∷ vs) f = rw (f.0, fill-Fits p xs vs f.2) refl

length-fill : (p : List Segment) (xs vs : List Text) → fill p xs ≡ some vs → length p ≡ length xs
unfolding fill Option.bind
length-fill [] [] vs e = refl
length-fill [] (x ∷ xs) vs e = absurd (cc e)
length-fill (literal l ∷ p) [] vs e = absurd (cc e)
length-fill (param ∷ p) [] vs e = absurd (cc e)
length-fill (literal l ∷ p) (x ∷ xs) vs e = elim (Bool-cases (text_eq x l)) [
  | inl same ↦ ap suc (length-fill p xs vs (rw same at e))
  | inr other ↦ absurd (cc (rw other at e))
]
length-fill (param ∷ p) (x ∷ xs) vs e = elim (Option-cases (fill p xs)) [
  | inr (ws, rest) ↦ ap suc (length-fill p xs ws rest)
  | inl missing ↦ elim (Option-cases (decode_uri_component x)) [
    | inl bad ↦ absurd (cc (rw (missing, bad) at e))
    | inr (v, good) ↦ absurd (cc (rw (missing, good) at e))
  ]
]

by_segments-Documented : Documented by_segments
by_segments-Documented = record {
  fits = λ p xs vs h f. ap (fill p) (segments-spell xs h) ∙ fill-Fits p xs vs f;
  counts = λ p xs vs h e. length-fill p xs vs (sym (ap (fill p) (segments-spell xs h)) ∙ e);
}

links_open_screens_example :
    (router by_segments true (codes "/jobs/a%2Fb") ≡ job_detail (codes "a/b"))
    × (router by_segments true (codes "/hosts/web/plugins/informix/config")
        ≡ plugin_config (codes "web") (codes "informix"))
unfolding job_link informix_link encode_uri_component scalars classify encode_scalar
links_open_screens_example =
    links_open_screens by_segments by_segments-Documented (codes "a/b") (codes "web")
      {job_path = codes "/jobs/a%2Fb"} {config_path = codes "/hosts/web/plugins/informix/config"}
      (omega arith, (omega arith, (omega arith, tt)))
      (omega arith, (omega arith, (omega arith, tt))) (λ e. cc e) (λ e. cc e)
      ((λ e. cc e), ((λ e. cc e), ((λ e. cc e), tt)))
      ((λ e. cc e), ((λ e. cc e), ((λ e. cc e), tt))) refl refl

unconnected : (path : Text) → router by_segments false path ≡ connect
unfolding router
unconnected path = refl

navigation :
    map (λ (item : Text × Text). router by_segments true item.0) nav_items
    ≡ dashboard ∷ hosts ∷ jobs ∷ snapshots ∷ events ∷ []
unfolding router route fill split
navigation = refl
