-- ===== src/Uri/Utf8.antt =====
-- Reading back the UTF-8 bytes of one code point, and the percent escapes of bytes.
use mathlib.Core.Option
use backup_orchestration_pla.Common.{
  ℕ, suc, leb, ◌&&◌, ◌-◌, ◌+◌, ◌*◌, ◌/◌, ◌%◌, ◌≤◌, ◌<◌, ◌≡◌, ap, ◌∙◌, some, List, ◌∷◌, ◌++◌, arith,
  Bool-cases, inl, inr, true, false, ltb,
}
use backup_orchestration_pla.Common.Text.{Text}
use backup_orchestration_pla.Uri.{utf8, hex_digit, percent}
use backup_orchestration_pla.Uri.Decode.{
  unhex, unpercent, outside, behind_percent, behind_digit, un_utf8, lead,
}
use backup_orchestration_pla.Uri.Scalars.{IsScalar}

pub unhex-hex_digit : (d : ℕ) → d < 16 → unhex (hex_digit d) ≡ some d
unfolding unhex hex_digit
unhex-hex_digit d h = ground arith

is_tail : (b : ℕ) → 0x80 ≤ b → b < 0xC0 → (leb 0x80 b && ltb b 0xC0) ≡ true
is_tail b p q = ground arith

is_ascii : (b : ℕ) → b < 0x80 → ltb b 0x80 ≡ true
is_ascii b p = ground arith

not_ascii : (b : ℕ) → 0x80 ≤ b → ltb b 0x80 ≡ false
not_ascii b p = ground arith

lead2 : (u : ℕ) → 0x80 ≤ u → u < 0x800 → lead (0xC0 + u / 64) ≡ some (1, u / 64)
unfolding lead
lead2 u p q = ground arith

lead3 : (u : ℕ) → 0x800 ≤ u → u < 0x10000 → lead (0xE0 + u / 4096) ≡ some (2, u / 4096)
unfolding lead
lead3 u p q = ground arith

lead4 : (u : ℕ) → 0x10000 ≤ u → IsScalar u → lead (0xF0 + u / 262144) ≡ some (3, u / 262144)
unfolding lead
lead4 u p q = ground arith

first_digit :
    (c d : ℕ) (s : Text)
    → unhex c ≡ some d
    → unpercent behind_percent (c ∷ s) ≡ unpercent (behind_digit d) s
unfolding unpercent
first_digit c d s e = rw (e, unpercent)

second_digit :
    (c d e : ℕ) (s : Text)
    → unhex c ≡ some e
    → unpercent (behind_digit d) (c ∷ s) ≡ Option.map (◌∷◌ (d * 16 + e)) (unpercent outside s)
unfolding unpercent
second_digit c d e s h = rw (h, unpercent)

escape :
    (c d : ℕ) (s : Text) (x y : ℕ)
    → unhex c ≡ some x
    → unhex d ≡ some y
    → unpercent outside (b'%' ∷ c ∷ d ∷ s) ≡ Option.map (◌∷◌ (x * 16 + y)) (unpercent outside s)
escape c d s x y p q = unfold unpercent in first_digit c x (d ∷ s) p ∙ second_digit d x y s q

-- An escape is read back as its byte.
pub unpercent-percent :
    (b : ℕ) (s : Text)
    → b < 256
    → unpercent outside (percent b ++ s) ≡ Option.map (◌∷◌ b) (unpercent outside s)
unfolding percent
unpercent-percent b s h =
    escape (hex_digit (b / 16)) (hex_digit (b % 16)) s (b / 16) (b % 16)
      (unhex-hex_digit (b / 16) (omega arith)) (unhex-hex_digit (b % 16) (omega arith))
    ∙ ap (λ (c : ℕ). Option.map (◌∷◌ c) (unpercent outside s)) (omega arith)

last_byte :
    (acc b : ℕ) (bs : List ℕ)
    → 0x80 ≤ b
    → b < 0xC0
    → un_utf8 1 acc (b ∷ bs) ≡ Option.map (◌∷◌ (acc * 64 + (b - 0x80))) (un_utf8 0 0 bs)
unfolding un_utf8
last_byte acc b bs p q = rw (is_tail b p q, un_utf8)

next_byte :
    (n acc b : ℕ) (bs : List ℕ)
    → 0x80 ≤ b
    → b < 0xC0
    → un_utf8 (suc (suc n)) acc (b ∷ bs) ≡ un_utf8 (suc n) (acc * 64 + (b - 0x80)) bs
unfolding un_utf8
next_byte n acc b bs p q = rw (is_tail b p q, un_utf8)

first_byte :
    (b n bits : ℕ) (bs : List ℕ)
    → 0x80 ≤ b
    → lead b ≡ some (n, bits)
    → un_utf8 0 0 (b ∷ bs) ≡ un_utf8 n bits bs
unfolding un_utf8
first_byte b n bits bs p e = rw (not_ascii b p, e, un_utf8)

two :
    (u : ℕ) (bs : List ℕ)
    → 0x80 ≤ u
    → u < 0x800
    → un_utf8 0 0 ((0xC0 + u / 64) ∷ (0x80 + u % 64) ∷ bs) ≡ Option.map (◌∷◌ u) (un_utf8 0 0 bs)
two u bs p q =
    first_byte (0xC0 + u / 64) 1 (u / 64) ((0x80 + u % 64) ∷ bs) (omega arith) (lead2 u p q)
    ∙ last_byte (u / 64) (0x80 + u % 64) bs (omega arith) (omega arith)
    ∙ ap (λ (c : ℕ). Option.map (◌∷◌ c) (un_utf8 0 0 bs)) (omega arith)

three :
    (u : ℕ) (bs : List ℕ)
    → 0x800 ≤ u
    → u < 0x10000
    → un_utf8 0 0 ((0xE0 + u / 4096) ∷ (0x80 + u / 64 % 64) ∷ (0x80 + u % 64) ∷ bs)
      ≡ Option.map (◌∷◌ u) (un_utf8 0 0 bs)
three u bs p q =
    first_byte (0xE0 + u / 4096) 2 (u / 4096) _ (omega arith) (lead3 u p q)
    ∙ next_byte 0 (u / 4096) (0x80 + u / 64 % 64) _ (omega arith) (omega arith)
    ∙ last_byte _ (0x80 + u % 64) bs (omega arith) (omega arith)
    ∙ ap (λ (c : ℕ). Option.map (◌∷◌ c) (un_utf8 0 0 bs)) (omega arith)

four :
    (u : ℕ) (bs : List ℕ)
    → 0x10000 ≤ u
    → IsScalar u
    → un_utf8 0 0
        ((0xF0 + u / 262144) ∷ (0x80 + u / 4096 % 64) ∷ (0x80 + u / 64 % 64) ∷ (0x80 + u % 64) ∷ bs)
      ≡ Option.map (◌∷◌ u) (un_utf8 0 0 bs)
four u bs p q =
    first_byte (0xF0 + u / 262144) 3 (u / 262144) _ (omega arith) (lead4 u p q)
    ∙ next_byte 1 (u / 262144) (0x80 + u / 4096 % 64) _ (omega arith) (omega arith)
    ∙ next_byte 0 _ (0x80 + u / 64 % 64) _ (omega arith) (omega arith)
    ∙ last_byte _ (0x80 + u % 64) bs (omega arith) (omega arith)
    ∙ ap (λ (c : ℕ). Option.map (◌∷◌ c) (un_utf8 0 0 bs)) (omega arith)

one : (u : ℕ) (bs : List ℕ) → u < 0x80 → un_utf8 0 0 (u ∷ bs) ≡ Option.map (◌∷◌ u) (un_utf8 0 0 bs)
unfolding un_utf8
one u bs p = rw (is_ascii u p, un_utf8)

-- The bytes of a code point are read back as the code point.
pub un_utf8-utf8 :
    (u : ℕ) (bs : List ℕ)
    → IsScalar u
    → un_utf8 0 0 (utf8 u ++ bs) ≡ Option.map (◌∷◌ u) (un_utf8 0 0 bs)
unfolding utf8
un_utf8-utf8 u bs h = elim (Bool-cases (ltb u 0x80)) [
  | inl a ↦ rw a (one u bs (ground arith))
  | inr a ↦ elim (Bool-cases (ltb u 0x800)) [
    | inl b ↦ rw (a, b) (two u bs (ground arith) (ground arith))
    | inr b ↦ elim (Bool-cases (ltb u 0x10000)) [
      | inl c ↦ rw (a, b, c) (three u bs (ground arith) (ground arith))
      | inr c ↦ rw (a, b, c) (four u bs (ground arith) h)
    ]
  ]
]
