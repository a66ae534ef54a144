-- ===== src/Uri/Decode.antt =====
-- A decoder to measure the encoding by: percent escapes, then UTF-8, then UTF-16. It reads all that
-- `decodeURIComponent` reads, and some overlong forms beside.
use mathlib.Core.Option
use backup_orchestration_pla.Common.{
  ℕ, zero, suc, ◌+◌, ◌-◌, ◌*◌, ◌/◌, ◌%◌, ltb, leb, ◌==◌, true, false, ◌&&◌, Option, none, some,
  List, [], ◌∷◌, if◌then◌else◌, flat_map,
}
use backup_orchestration_pla.Common.Text.{Text}

unfoldable pub unhex : ℕ → Option ℕ
unhex c =
    if leb b'0' c && leb c b'9'
    then some (c - b'0')
    else if leb b'A' c && leb c b'F'
    then some (c - b'A' + 10)
    else if leb b'a' c && leb c b'f'
    then some (c - b'a' + 10)
    else none

-- Where the reader of escapes stands: outside an escape, behind its `%`, or behind its first digit.
pub data Escape : Type 0 where
  outside behind_percent : Escape
  behind_digit : ℕ → Escape

unfoldable pub unpercent : Escape → Text → Option (List ℕ)
unpercent outside [] = some []
unpercent behind_percent [] = none
unpercent (behind_digit d) [] = none
unpercent outside (c ∷ s) = elim (c == b'%') [
  | true ↦ unpercent behind_percent s
  | false ↦ Option.map (◌∷◌ c) (unpercent outside s)
]
unpercent behind_percent (c ∷ s) = elim (unhex c) [
  | none ↦ none
  | some d ↦ unpercent (behind_digit d) s
]
unpercent (behind_digit d) (c ∷ s) = elim (unhex c) [
  | none ↦ none
  | some e ↦ Option.map (◌∷◌ (d * 16 + e)) (unpercent outside s)
]

-- How many continuation bytes a first byte asks for, and the bits that it brings.
unfoldable pub lead : ℕ → Option (ℕ × ℕ)
lead b =
    if ltb b 0xC0
    then none
    else if ltb b 0xE0
    then some (1, b - 0xC0)
    else if ltb b 0xF0
    then some (2, b - 0xE0)
    else if ltb b 0xF8
    then some (3, b - 0xF0)
    else none

-- The first argument is the number of continuation bytes wanted, the second the bits so far.
unfoldable pub un_utf8 : ℕ → ℕ → List ℕ → Option (List ℕ)
un_utf8 zero acc [] = some []
un_utf8 (suc n) acc [] = none
un_utf8 zero acc (b ∷ bs) = elim (ltb b 0x80) [
  | true ↦ Option.map (◌∷◌ b) (un_utf8 0 0 bs)
  | false ↦ elim (lead b) [ none ↦ none | some (n, bits) ↦ un_utf8 n bits bs ]
]
un_utf8 (suc zero) acc (b ∷ bs) = elim (leb 0x80 b && ltb b 0xC0) [
  | true ↦ Option.map (◌∷◌ (acc * 64 + (b - 0x80))) (un_utf8 0 0 bs)
  | false ↦ none
]
un_utf8 (suc (suc n)) acc (b ∷ bs) = elim (leb 0x80 b && ltb b 0xC0) [
  | true ↦ un_utf8 (suc n) (acc * 64 + (b - 0x80)) bs
  | false ↦ none
]

-- The code units of a code point.
unfoldable pub units : ℕ → Text
units u =
    if ltb u 0x10000
    then u ∷ []
    else (0xD800 + (u - 0x10000) / 1024) ∷ (0xDC00 + (u - 0x10000) % 1024) ∷ []

unfoldable pub decode_uri_component : Text → Option Text
unfolding Option.bind
decode_uri_component s =
    Option.bind (unpercent outside s) (λ bytes. Option.map (flat_map units) (un_utf8 0 0 bytes))
