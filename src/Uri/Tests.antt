-- ===== src/Uri/Tests.antt =====
-- The encodings at concrete texts.
use backup_orchestration_pla.Common.{◌≡◌, refl, none, some, [], ◌∷◌, All, arith}
use backup_orchestration_pla.Common.Text.{Text, codes}
use backup_orchestration_pla.Uri.{
  classify, scalars, encode_scalar, encode_uri_component, scalars_lossy, form_byte, form_encode,
  params_to_string,
}
use backup_orchestration_pla.Uri.Scalars.{IsUnit}

-- A letter, a slash, an accented letter and a character outside the basic plane.
abbrev name : Text
name = b'a' ∷ b'/' ∷ 0xE9 ∷ 0xD83D ∷ 0xDE00 ∷ []

abbrev encoded : Text
encoded = codes "a%2F%C3%A9%F0%9F%98%80"

abbrev name_units : All IsUnit name
name_units = ((omega arith), ((omega arith), ((omega arith), ((omega arith), ((omega arith), tt)))))

encoded_name : encode_uri_component name ≡ some encoded
unfolding encode_uri_component scalars classify encode_scalar
encoded_name = refl

lone_surrogate : encode_uri_component (b'a' ∷ 0xD83D ∷ []) ≡ none
unfolding encode_uri_component scalars classify encode_scalar
lone_surrogate = refl

query_string :
    params_to_string ((codes "host", codes "db 1/x*") ∷ (codes "job_id", 0xD83D ∷ []) ∷ [])
    ≡ codes "host=db+1%2Fx*&job_id=%EF%BF%BD"
unfolding params_to_string form_encode scalars_lossy classify form_byte
query_string = refl
