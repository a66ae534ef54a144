-- ===== src/Uri.antt =====
-- The URL encodings of web/src/api/client.ts: the language's `encodeURIComponent`, and the query
-- strings of `URLSearchParams`, over UTF-16 code units.
pub mod Decode
pub mod Scalars
pub mod Utf8
pub mod RoundTrip
pub mod Safe
pub mod WellFormed
mod Tests
use mathlib.Core.Option
use backup_orchestration_pla.Common.{
  ℕ, ◌+◌, ◌-◌, ◌*◌, ◌/◌, ◌%◌, ltb, leb, ◌==◌, Bool, true, false, ◌&&◌, ◌||◌, Option, none, some,
  List, [], ◌∷◌, ◌++◌, if◌then◌else◌, any, flat_map,
}
use backup_orchestration_pla.Common.Text.{Text, codes}

-- A code unit is a code point of its own, or half of a surrogate pair.
pub data Unit16 : Type 0 where
  plain high low : Unit16

unfoldable pub classify : ℕ → Unit16
classify c =
    if ltb c 0xD800
    then plain
    else if ltb c 0xDC00
    then high
    else if ltb c 0xE000
    then low
    else plain

abbrev pub combine : ℕ → ℕ → ℕ
combine h l = 0x10000 + (h - 0xD800) * 1024 + (l - 0xDC00)

-- The code points of a text; `none` at a lone surrogate. The first argument is the high surrogate
-- that stands before the rest.
unfoldable pub scalars : Option ℕ → Text → Option (List ℕ)
scalars none [] = some []
scalars (some h) [] = none
scalars none (c ∷ s) = elim (classify c) [
  | plain ↦ Option.map (◌∷◌ c) (scalars none s)
  | high ↦ scalars (some c) s
  | low ↦ none
]
scalars (some h) (c ∷ s) = elim (classify c) [
  | plain ↦ none
  | high ↦ none
  | low ↦ Option.map (◌∷◌ (combine h c)) (scalars none s)
]

-- The UTF-8 bytes of a code point.
pub utf8 : ℕ → List ℕ
utf8 u =
    if ltb u 0x80
    then u ∷ []
    else if ltb u 0x800
    then (0xC0 + u / 64) ∷ (0x80 + u % 64) ∷ []
    else if ltb u 0x10000
    then (0xE0 + u / 4096) ∷ (0x80 + u / 64 % 64) ∷ (0x80 + u % 64) ∷ []
    else (0xF0 + u / 262144) ∷ (0x80 + u / 4096 % 64) ∷ (0x80 + u / 64 % 64) ∷ (0x80 + u % 64) ∷ []

-- An upper-case hexadecimal digit.
pub hex_digit : ℕ → ℕ
hex_digit d = if ltb d 10 then b'0' + d else b'A' + (d - 10)

pub percent : ℕ → Text
unfolding hex_digit
percent b = b'%' ∷ hex_digit (b / 16) ∷ hex_digit (b % 16) ∷ []

abbrev pub is_alnum : ℕ → Bool
is_alnum c =
    (leb b'a' c && leb c b'z') || ((leb b'A' c && leb c b'Z') || (leb b'0' c && leb c b'9'))

-- The characters that `encodeURIComponent` leaves: letters, digits and - _ . ! ~ * ' ( ).
pub unreserved : ℕ → Bool
unreserved c = is_alnum c || any (◌==◌ c) (codes "-_.!~*'()")

unfoldable pub encode_scalar : ℕ → Text
unfolding unreserved utf8 percent
encode_scalar u = if unreserved u then u ∷ [] else flat_map percent (utf8 u)

-- `encodeURIComponent(s)`; `none` is its URIError.
unfoldable pub encode_uri_component : Text → Option Text
encode_uri_component s = Option.map (flat_map encode_scalar) (scalars none s)

-- The code points that `URLSearchParams` takes from a text: a lone surrogate becomes U+FFFD.
unfoldable pub scalars_lossy : Option ℕ → Text → List ℕ
scalars_lossy none [] = []
scalars_lossy (some h) [] = 0xFFFD ∷ []
scalars_lossy none (c ∷ s) = elim (classify c) [
  | plain ↦ c ∷ scalars_lossy none s
  | high ↦ scalars_lossy (some c) s
  | low ↦ 0xFFFD ∷ scalars_lossy none s
]
scalars_lossy (some h) (c ∷ s) = elim (classify c) [
  | plain ↦ 0xFFFD ∷ c ∷ scalars_lossy none s
  | high ↦ 0xFFFD ∷ scalars_lossy (some c) s
  | low ↦ combine h c ∷ scalars_lossy none s
]

-- One byte in a query string: a space is `+`; letters, digits and * - . _ stand for themselves.
unfoldable pub form_byte : ℕ → Text
unfolding percent
form_byte b =
    if b == b' '
    then b'+' ∷ []
    else if is_alnum b || any (◌==◌ b) (codes "*-._")
    then b ∷ []
    else percent b

unfoldable pub form_encode : Text → Text
unfolding scalars_lossy utf8 form_byte
form_encode s = flat_map form_byte (flat_map utf8 (scalars_lossy none s))

-- `params.toString()`, for the pairs in the order in which they were set.
unfoldable pub params_to_string : List (Text × Text) → Text
unfolding form_encode
params_to_string [] = []
params_to_string ((k, v) ∷ []) = form_encode k ++ b'=' ∷ form_encode v
params_to_string ((k, v) ∷ p ∷ ps) =
    form_encode k ++ b'=' ∷ form_encode v ++ b'&' ∷ params_to_string (p ∷ ps)
