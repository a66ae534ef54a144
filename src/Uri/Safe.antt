-- ===== src/Uri/Safe.antt =====
-- The characters of an encoded component, and when the encoding fails.
use backup_orchestration_pla.Common.{
  ℕ, ◌/◌, ◌%◌, ◌<◌, ◌≡◌, ◌≢◌, refl, none, some, List, [], ◌∷◌, ◌++◌, All, flat_map, arith,
  Bool-cases, inl, inr, true, ◌==◌, Option-cases, Bool, ◌||◌, some_inj, subst,
}
use backup_orchestration_pla.Common.Text.{Text}
use backup_orchestration_pla.Uri.{
  utf8, hex_digit, percent, unreserved, encode_scalar, scalars, encode_uri_component,
}
use backup_orchestration_pla.Uri.Scalars.{IsUnit, IsScalar, scalars-Reads}
use backup_orchestration_pla.Uri.RoundTrip.{utf8-bytes, encode_scalar_plain, encode_scalar_escaped}

-- A character that may stand in an encoded component: unreserved, or the `%` of an escape.
pub may_stand : ℕ → Bool
unfolding unreserved
may_stand c = (c == b'%') || unreserved c

abbrev pub IsSafe : Text → Type 0
IsSafe s = All (λ c. may_stand c ≡ true) s

IsSafe-append : (s t : Text) → IsSafe s → IsSafe t → IsSafe (s ++ t)
IsSafe-append [] t h k = k
IsSafe-append (c ∷ s) t h k = (h.0, IsSafe-append s t h.1 k)

hex_digit-safe : (d : ℕ) → d < 16 → may_stand (hex_digit d) ≡ true
unfolding may_stand hex_digit
hex_digit-safe d h = ground arith

percent-IsSafe : (b : ℕ) → b < 256 → IsSafe (percent b)
unfolding percent may_stand
percent-IsSafe b h =
    (refl, (hex_digit-safe (b / 16) (omega arith), (hex_digit-safe (b % 16) (omega arith), tt)))

bytes-IsSafe : (bs : List ℕ) → All (λ b. b < 256) bs → IsSafe (flat_map percent bs)
bytes-IsSafe [] h = tt
bytes-IsSafe (b ∷ bs) h = IsSafe-append (percent b) _ (percent-IsSafe b h.0) (bytes-IsSafe bs h.1)

unreserved-may_stand : (c : ℕ) → unreserved c ≡ true → may_stand c ≡ true
unfolding may_stand
unreserved-may_stand c h = ground arith

encode_scalar-IsSafe : (u : ℕ) → IsScalar u → IsSafe (encode_scalar u)
encode_scalar-IsSafe u h = elim (Bool-cases (unreserved u)) [
  | inl e ↦ rw (encode_scalar_plain u e) (unreserved-may_stand u e, tt)
  | inr e ↦ rw (encode_scalar_escaped u e) (bytes-IsSafe (utf8 u) (utf8-bytes u h))
]

scalars-IsSafe : (us : List ℕ) → All IsScalar us → IsSafe (flat_map encode_scalar us)
scalars-IsSafe [] h = tt
scalars-IsSafe (u ∷ us) h =
    IsSafe-append (encode_scalar u) _ (encode_scalar-IsSafe u h.0) (scalars-IsSafe us h.1)

-- The encoding of a text of UTF-16 units holds unreserved characters and escapes only.
pub encode-IsSafe :
    (s : Text) {e : Text} → All IsUnit s → encode_uri_component s ≡ some e → IsSafe e
unfolding encode_uri_component
encode-IsSafe s {e} h p = elim (Option-cases (scalars none s)) [
  | inl bad ↦ cc (rw bad at p)
  | inr (us, good) ↦
      let same : some (flat_map encode_scalar us) ≡ some e = rw good at p in
      subst IsSafe (some_inj same) (scalars-IsSafe us (scalars-Reads s us h good).valid)
]

-- So it holds no character that separates the parts of a URL.
pub separators_encoded :
    (c : ℕ) → may_stand c ≡ true → (c ≢ b'/') × (c ≢ b'?') × (c ≢ b'#') × (c ≢ b'&')
unfolding may_stand
separators_encoded c h = ground arith
