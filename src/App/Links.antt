-- ===== src/App/Links.antt =====
-- Where the links of the pages and the navigation lead.
use mathlib.Core.Option
use mathlib.Core.List.{append-nil}
use backup_orchestration_pla.Common.{
  ℕ, ◌≡◌, ◌≢◌, refl, sym, ap, subst, ◌∙◌, true, false, Option-cases, inl, inr, Option, none, some,
  some_inj, List, [], ◌∷◌, ◌++◌, All, any, is_some, head?, not, ◌&&◌, ◌==◌, length, arith,
}
use backup_orchestration_pla.Common.Text.{Text, codes}
use backup_orchestration_pla.Common.Text.Split.{Lacks}
use backup_orchestration_pla.Uri.{encode_uri_component}
use backup_orchestration_pla.Uri.Scalars.{IsUnit}
use backup_orchestration_pla.Uri.Decode.{
  decode_uri_component, unpercent, unhex, un_utf8, lead, units,
}
use backup_orchestration_pla.Uri.RoundTrip.{decode-encode}
use backup_orchestration_pla.Uri.Safe.{encode-IsSafe}
use backup_orchestration_pla.Client.Unique.{IsSafe-NoSlash}
use backup_orchestration_pla.View.Rows.{job_link, informix_link}
use backup_orchestration_pla.App.{
  Segment, literal, param, Element, routes, plugin_config, job_detail, screen_of, shown, route,
  router,
}

-- A segment of a path: a text that is not empty and has no slash.
abbrev pub IsSegment : Text → Type 0
IsSegment s = (s ≢ []) × Lacks b'/' s

-- The path of its segments.
abbrev pub spell : List Text → Text
spell [] = []
spell (x ∷ xs) = b'/' ∷ x ++ spell xs

-- A list of segments fits a pattern with the values: a literal stands for itself, a parameter for the text that
-- the segment decodes to, which has no percent sign.
abbrev pub Fits : List Segment → List Text → List Text → Type 0
Fits [] [] vs = vs ≡ []
Fits (literal l ∷ p) (x ∷ xs) vs = (x ≡ l) × Fits p xs vs
Fits (param ∷ p) (x ∷ xs) (v ∷ vs) = (decode_uri_component x ≡ some v) × Lacks b'%' v × Fits p xs vs
Fits _ _ _ = ⊥

-- What react-router documents of the matching of a path: it gives the values of a pattern that the path fits,
-- and a pattern takes as many segments as it has.
pub record Documented (matches : List Segment → Text → Option (List Text)) : Type 0 where
  pub fits :
      (p : List Segment) (xs vs : List Text)
      → All IsSegment xs
      → Fits p xs vs
      → matches p (spell xs) ≡ some vs
  pub counts :
      (p : List Segment) (xs vs : List Text)
      → All IsSegment xs
      → matches p (spell xs) ≡ some vs
      → length p ≡ length xs

-- A word without the character, by computation.
word-Lacks : (c : ℕ) (s : Text) → any (◌==◌ c) s ≡ false → Lacks c s
word-Lacks c [] e = tt
word-Lacks c (x ∷ s) e = ((λ same. ground (arith, same)), word-Lacks c s (ground arith))

word-IsSegment : (s : Text) → (is_some (head? s) && not (any (◌==◌ b'/') s)) ≡ true → IsSegment s
word-IsSegment [] e = absurd (cc e)
word-IsSegment (c ∷ s) e = ((λ h. cc h), word-Lacks b'/' (c ∷ s) (ground arith))

decoded_empty : decode_uri_component [] ≡ some []
unfolding decode_uri_component unpercent un_utf8
decoded_empty = refl

prefixed :
    (f : Text → Text) (o : Option Text) {p : Text}
    → Option.map f o ≡ some p
    → (e : Text) × (o ≡ some e) × (f e ≡ p)
prefixed f none h = absurd (cc h)
prefixed f (some e) h = (e, refl, some_inj h)

encoded-IsSegment :
    (s : Text) {e : Text} → All IsUnit s → s ≢ [] → encode_uri_component s ≡ some e → IsSegment e
encoded-IsSegment s {e} u n h = (
  (λ empty. n (some_inj (sym (decode-encode s u (h ∙ ap some empty)) ∙ decoded_empty))),
  IsSafe-NoSlash e (encode-IsSafe s u h),
)

informix_decoded : decode_uri_component (codes "informix") ≡ some (codes "informix")
unfolding decode_uri_component unpercent unhex un_utf8 lead units
informix_decoded = refl

-- What a link is made of.
job_link-Encoded :
    (id : Text) {p : Text}
    → job_link id ≡ some p
    → (e : Text) × (encode_uri_component id ≡ some e) × (codes "/jobs/" ++ e ≡ p)
unfolding job_link
job_link-Encoded id h = prefixed (λ e. codes "/jobs/" ++ e) (encode_uri_component id) h

informix_link-Encoded :
    (host : Text) {p : Text}
    → informix_link host ≡ some p
    → (e : Text) × (encode_uri_component host ≡ some e)
      × (codes "/hosts/" ++ (e ++ codes "/plugins/informix/config") ≡ p)
unfolding informix_link
informix_link-Encoded host h =
    prefixed (λ e. codes "/hosts/" ++ (e ++ codes "/plugins/informix/config"))
      (encode_uri_component host) h

module _ (matches : List Segment → Text → Option (List Text)) (d : Documented matches) where
  unmatched :
      (p : List Segment) (xs : List Text)
      → All IsSegment xs
      → length p ≢ length xs
      → matches p (spell xs) ≡ none
  unmatched p xs h n = elim (Option-cases (matches p (spell xs))) [
    | inl missing ↦ missing
    | inr (vs, found) ↦ absurd (n (d.counts p xs vs h found))
  ]

  skipped :
      (p : List Segment) (e : Element) (table : List (List Segment × Element)) (xs : List Text)
      → All IsSegment xs
      → length p ≢ length xs
      → route matches ((p, e) ∷ table) (spell xs) ≡ route matches table (spell xs)
  unfolding route
  skipped p e table xs h n = ap (shown e (route matches table (spell xs))) (unmatched p xs h n)

  taken :
      (p : List Segment) (e : Element) (table : List (List Segment × Element)) (xs vs : List Text)
      → All IsSegment xs
      → Fits p xs vs
      → route matches ((p, e) ∷ table) (spell xs) ≡ screen_of e vs
  unfolding route
  taken p e table xs vs h f = ap (shown e (route matches table (spell xs))) (d.fits p xs vs h f)

  -- The routes whose patterns have another number of segments are passed by.
  job_route :
      (x v : Text)
      → IsSegment x
      → decode_uri_component x ≡ some v
      → Lacks b'%' v
      → route matches routes (spell (codes "jobs" ∷ x ∷ [])) ≡ job_detail v
  job_route x v s f l =
      let xs = codes "jobs" ∷ x ∷ [] in
      let h : All IsSegment xs = (word-IsSegment (codes "jobs") refl, (s, tt)) in
      skipped [] _ _ xs h (λ (e : 0 ≡ 2). cc e)
      ∙ skipped (literal (codes "hosts") ∷ []) _ _ xs h (λ (e : 1 ≡ 2). cc e)
      ∙ skipped _ _ _ xs h (λ (e : 5 ≡ 2). cc e)
      ∙ skipped (literal (codes "jobs") ∷ []) _ _ xs h (λ (e : 1 ≡ 2). cc e)
      ∙ taken (literal (codes "jobs") ∷ param ∷ []) _ _ xs (v ∷ []) h (refl, (f, l, refl))

  config_route :
      (x v : Text)
      → IsSegment x
      → decode_uri_component x ≡ some v
      → Lacks b'%' v
      → route matches routes
          (spell (codes "hosts" ∷ x ∷ codes "plugins" ∷ codes "informix" ∷ codes "config" ∷ []))
        ≡ plugin_config v (codes "informix")
  config_route x v s f l =
      let xs = codes "hosts" ∷ x ∷ codes "plugins" ∷ codes "informix" ∷ codes "config" ∷ [] in
      let h : All IsSegment xs = (
        word-IsSegment (codes "hosts") refl,
        (
          s,
          (
            word-IsSegment (codes "plugins") refl,
            (word-IsSegment (codes "informix") refl, (word-IsSegment (codes "config") refl, tt)),
          ),
        ),
      ) in
      skipped [] _ _ xs h (λ (e : 0 ≡ 5). cc e)
      ∙ skipped (literal (codes "hosts") ∷ []) _ _ xs h (λ (e : 1 ≡ 5). cc e)
      ∙ taken _ _ _ xs (v ∷ codes "informix" ∷ []) h (
        refl,
        (f, l, (refl, (informix_decoded, word-Lacks b'%' (codes "informix") refl, (refl, refl)))),
      )

  -- With the matching that react-router documents, for texts of UTF-16 units that are not empty and have no
  -- percent sign, in a connected console: the path of the link of a row of a job is routed to the page of that job,
  -- and that of the link of a row of a host to the configuration of the plugin informix of that host.
  pub links_open_screens :
      (id host : Text) {job_path config_path : Text}
      → All IsUnit id
      → All IsUnit host
      → id ≢ []
      → host ≢ []
      → Lacks b'%' id
      → Lacks b'%' host
      → job_link id ≡ some job_path
      → informix_link host ≡ some config_path
      → (router matches true job_path ≡ job_detail id)
        × (router matches true config_path ≡ plugin_config host (codes "informix"))
  unfolding router
  links_open_screens id host {job_path} {config_path} ui uh ni nh li lh j c =
      let a = job_link-Encoded id j in
      let b = informix_link-Encoded host c in
      (
        subst (λ p. route matches routes p ≡ job_detail id)
            (ap (λ t. codes "/jobs/" ++ t) (append-nil a.0) ∙ a.2)
            (job_route a.0 id (encoded-IsSegment id ui ni a.1) (decode-encode id ui a.1) li),
        subst (λ p. route matches routes p ≡ plugin_config host (codes "informix")) b.2
            (config_route b.0 host (encoded-IsSegment host uh nh b.1) (decode-encode host uh b.1)
              lh),
      )
