-- ===== src/Uri/RoundTrip.antt =====
-- What `encodeURIComponent` encodes, a decoder reads back; so no two texts have the same encoding.
use mathlib.Core.Option
use mathlib.Core.List.{append_assoc}
use backup_orchestration_pla.Common.{
  ℕ, ◌<◌, ◌≡◌, refl, ap, subst, some_inj, ◌∙◌, sym, Option, none, some, List, [], ◌∷◌, ◌++◌, All,
  flat_map, arith, Bool-cases, inl, inr, true, false, ltb, ◌==◌, Option-cases,
}
use backup_orchestration_pla.Common.Text.{Text}
use backup_orchestration_pla.Uri.{
  utf8, percent, unreserved, encode_scalar, scalars, encode_uri_component,
}
use backup_orchestration_pla.Uri.Decode.{unpercent, outside, un_utf8, decode_uri_component}
use backup_orchestration_pla.Uri.Scalars.{IsUnit, IsScalar, Reads, scalars-Reads}
use backup_orchestration_pla.Uri.Utf8.{unpercent-percent, un_utf8-utf8}

map-cons-append :
    (b : ℕ) (bs : List ℕ) (o : Option (List ℕ))
    → Option.map (◌∷◌ b) (Option.map (◌++◌ bs) o) ≡ Option.map (◌++◌ (b ∷ bs)) o
map-cons-append b bs none = refl
map-cons-append b bs (some x) = refl

map-append-append :
    (cs bs : List ℕ) (o : Option (List ℕ))
    → Option.map (◌++◌ cs) (Option.map (◌++◌ bs) o) ≡ Option.map (◌++◌ (cs ++ bs)) o
map-append-append cs bs none = refl
map-append-append cs bs (some x) = ap some (sym (append_assoc cs bs x))

map-nil : (o : Option (List ℕ)) → Option.map (◌++◌ []) o ≡ o
map-nil none = refl
map-nil (some x) = refl

unpercent-bytes :
    (bs : List ℕ) (s : Text)
    → All (λ b. b < 256) bs
    → unpercent outside (flat_map percent bs ++ s) ≡ Option.map (◌++◌ bs) (unpercent outside s)
unpercent-bytes [] s h = sym (map-nil (unpercent outside s))
unpercent-bytes (b ∷ bs) s h = rw (append_assoc (percent b) (flat_map percent bs) s) (
    unpercent-percent b (flat_map percent bs ++ s) h.0
    ∙ ap (Option.map (◌∷◌ b)) (unpercent-bytes bs s h.1)
    ∙ map-cons-append b bs (unpercent outside s))

pub utf8-bytes : (u : ℕ) → IsScalar u → All (λ b. b < 256) (utf8 u)
unfolding utf8
utf8-bytes u h = elim (Bool-cases (ltb u 0x80)) [
  | inl a ↦ rw a (ground arith)
  | inr a ↦ elim (Bool-cases (ltb u 0x800)) [
    | inl b ↦ rw (a, b) (ground arith)
    | inr b ↦ elim (Bool-cases (ltb u 0x10000)) [
      | inl c ↦ rw (a, b, c) (ground arith)
      | inr c ↦ rw (a, b, c) (ground arith)
    ]
  ]
]

unpercent-plain :
    (c : ℕ) (s : Text)
    → (c == b'%') ≡ false
    → unpercent outside (c ∷ s) ≡ Option.map (◌∷◌ c) (unpercent outside s)
unfolding unpercent
unpercent-plain c s h = rw (h, unpercent)

-- An unreserved character is in ASCII, and is no percent sign.
unreserved_ascii : (c : ℕ) → unreserved c ≡ true → (ltb c 0x80 ≡ true) × ((c == b'%') ≡ false)
unfolding unreserved
unreserved_ascii c h = ground arith

-- `encode_scalar` where it stays shut: the character itself, or the escapes of its bytes.
pub encode_scalar_plain : (u : ℕ) → unreserved u ≡ true → encode_scalar u ≡ u ∷ []
unfolding encode_scalar
encode_scalar_plain u e = rw e

pub encode_scalar_escaped :
    (u : ℕ) → unreserved u ≡ false → encode_scalar u ≡ flat_map percent (utf8 u)
unfolding encode_scalar
encode_scalar_escaped u e = rw e

utf8_ascii : (u : ℕ) → ltb u 0x80 ≡ true → utf8 u ≡ u ∷ []
unfolding utf8
utf8_ascii u e = rw e

-- The escapes of a code point are read back as its bytes.
unpercent-encode_scalar :
    (u : ℕ) (s : Text)
    → IsScalar u
    → unpercent outside (encode_scalar u ++ s) ≡ Option.map (◌++◌ (utf8 u)) (unpercent outside s)
unpercent-encode_scalar u s h = elim (Bool-cases (unreserved u)) [
  | inl e ↦
      let (ascii, other) = unreserved_ascii u e in
      rw (encode_scalar_plain u e, utf8_ascii u ascii) (unpercent-plain u s other)
  | inr e ↦ rw (encode_scalar_escaped u e) (unpercent-bytes (utf8 u) s (utf8-bytes u h))
]

unpercent-encoded :
    (us : List ℕ)
    → All IsScalar us
    → unpercent outside (flat_map encode_scalar us) ≡ some (flat_map utf8 us)
unpercent-encoded [] h = unfold unpercent in refl
unpercent-encoded (u ∷ us) h =
    unpercent-encode_scalar u (flat_map encode_scalar us) h.0
    ∙ ap (Option.map (◌++◌ (utf8 u))) (unpercent-encoded us h.1)

un_utf8-encoded : (us : List ℕ) → All IsScalar us → un_utf8 0 0 (flat_map utf8 us) ≡ some us
un_utf8-encoded [] h = unfold un_utf8 in refl
un_utf8-encoded (u ∷ us) h =
    un_utf8-utf8 u (flat_map utf8 us) h.0 ∙ ap (Option.map (◌∷◌ u)) (un_utf8-encoded us h.1)

decode_scalars :
    (us : List ℕ) (s : Text)
    → Reads s us
    → decode_uri_component (flat_map encode_scalar us) ≡ some s
unfolding decode_uri_component
decode_scalars us s r =
    rw (unpercent-encoded us r.valid) (rw (un_utf8-encoded us r.valid) (ap some r.text))

-- A text of UTF-16 units that `encodeURIComponent` encodes without an error is decoded to itself.
pub decode-encode :
    (s : Text) {e : Text}
    → All IsUnit s
    → encode_uri_component s ≡ some e
    → decode_uri_component e ≡ some s
unfolding encode_uri_component
decode-encode s {e} h p = elim (Option-cases (scalars none s)) [
  | inl bad ↦ cc (rw bad at p)
  | inr (us, good) ↦
      let same : some (flat_map encode_scalar us) ≡ some e = rw good at p in
      subst (λ x. decode_uri_component x ≡ some s) (some_inj same)
        (decode_scalars us s (scalars-Reads s us h good))
]

-- Two texts with one encoding are one text.
pub encode_uri_component-injective :
    (s t : Text) {e : Text}
    → All IsUnit s
    → All IsUnit t
    → encode_uri_component s ≡ some e
    → encode_uri_component t ≡ some e
    → s ≡ t
encode_uri_component-injective s t h k p q =
    some_inj (sym (decode-encode s h p) ∙ decode-encode t k q)
