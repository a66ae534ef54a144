-- ===== src/Controller/Settings/Parse.antt =====
-- `ParseConfig` of internal/plugin/informix, postgres and filesystem (config.go): the error that each returns, if any.
-- A text of an error leaves out the value that it quotes. A configuration that is missing altogether, which the API
-- never passes, is not refused as such.
use backup_orchestration_pla.Common.{
  ℕ, zero, ◌==◌, leb, ℤ, pos, Bool, true, false, ◌&&◌, ◌||◌, Option, none, some, List, [], ◌∷◌,
}
use backup_orchestration_pla.Common.Text.{Text, codes}
use backup_orchestration_pla.Common.Text.Split.{split}
use backup_orchestration_pla.Controller.Inventory.{
  Raw, text, int, float64, items, RawConfig, lookup,
}

pub record Environment : Type 0 where
  pub getenv : Text → Text
  pub atoi : Text → Option ℤ

abbrev pub is_letter : ℕ → Bool
is_letter c = (leb b'A' c && leb c b'Z') || ((leb b'a' c && leb c b'z') || (c == b'_'))

abbrev pub is_word : ℕ → Bool
is_word c = is_letter c || (leb b'0' c && leb c b'9')

abbrev pub every : (ℕ → Bool) → Text → Bool
every p [] = true
every p (c ∷ s) = p c && every p s

-- `[A-Za-z_][A-Za-z0-9_]*`
abbrev pub is_identifier : Text → Bool
is_identifier [] = false
is_identifier (c ∷ s) = is_letter c && every is_word s

-- `validTableName`: an identifier, or two with a point between them.
unfoldable pub valid_table_name : Text → Bool
valid_table_name t = elim (split b'.' t) [
  | [] ↦ false
  | p ∷ [] ↦ is_identifier p
  | p ∷ q ∷ [] ↦ is_identifier p && is_identifier q
  | _ ↦ false
]

abbrev pub given_text : Option Raw → Text
given_text (some (text s)) = s
given_text _ = []

abbrev pub to_int : (Text → Option ℤ) → Option Raw → Option ℤ
to_int atoi none = some (pos 0)
to_int atoi (some (int n)) = some n
to_int atoi (some (float64 n)) = some n
to_int atoi (some (text s)) = atoi s
to_int atoi (some _) = none

abbrev pub all_texts : List (Option Text) → Option (List Text)
all_texts [] = some []
all_texts (none ∷ xs) = none
all_texts (some s ∷ xs) = elim (all_texts xs) [ none ↦ none | some ss ↦ some (s ∷ ss) ]

abbrev pub to_string_slice : Option Raw → Option (List Text)
to_string_slice none = some []
to_string_slice (some (items xs)) = all_texts xs
to_string_slice (some _) = none

-- The first error of a chain of checks.
infixr 4 ◌then_check◌
abbrev pub ◌then_check◌ : Option Text → Option Text → Option Text
none then_check rest = rest
some e then_check rest = some e

-- `if v == "" { return …, fmt.Errorf(msg) }`
abbrev pub required : Text → Text → Option Text
required msg [] = some msg
required msg (c ∷ v) = none

abbrev pub refuse_unless : Text → Bool → Option Text
refuse_unless msg true = none
refuse_unless msg false = some msg

abbrev pub port_error : Option ℤ → Option Text
port_error none = some (codes "informix: config.port: expected a number")
port_error (some (pos zero)) = some (codes "informix: config.port is required")
port_error (some _) = none

abbrev pub all_valid : (Text → Bool) → List Text → Bool
all_valid p [] = true
all_valid p (t ∷ ts) = p t && all_valid p ts

-- A list that must have an item, each of which must pass.
abbrev pub list_error : (wrong empty bad : Text) → (Text → Bool) → Option (List Text) → Option Text
list_error wrong empty bad p none = some wrong
list_error wrong empty bad p (some []) = some empty
list_error wrong empty bad p (some (t ∷ ts)) = refuse_unless bad (all_valid p (t ∷ ts))

-- `password_env`, and the variable that it names.
abbrev pub password_error : Text → Text → (Text → Text) → Text → Option Text
password_error missing unset getenv [] = some missing
password_error missing unset getenv (c ∷ name) = required unset (getenv (c ∷ name))

unfoldable pub parse_informix : Environment → RawConfig → Option Text
parse_informix env raw =
    required (codes "informix: config.host is required") (given_text (lookup (codes "host") raw))
    then_check port_error (to_int env.atoi (lookup (codes "port") raw))
    then_check required (codes "informix: config.username is required")
        (given_text (lookup (codes "username") raw))
    then_check password_error (codes "informix: config.password_env is required")
        (codes "informix: environment variable (password_env) is not set") env.getenv
        (given_text (lookup (codes "password_env") raw))
    then_check required (codes "informix: config.server_name is required")
        (given_text (lookup (codes "server_name") raw))
    then_check required (codes "informix: config.database is required")
        (given_text (lookup (codes "database") raw))
    then_check list_error (codes "informix: config.tables: expected a list")
        (codes "informix: config.tables must list at least one table")
        (codes "informix: config.tables: not a plain [owner.]table identifier") valid_table_name
        (to_string_slice (lookup (codes "tables") raw))
    then_check required (codes "informix: config.agent_path is required")
        (given_text (lookup (codes "agent_path") raw))

unfoldable pub parse_postgres : Environment → RawConfig → Option Text
parse_postgres env raw =
    required (codes "postgres: config.username is required")
      (given_text (lookup (codes "username") raw))
    then_check password_error (codes "postgres: config.password_env is required")
        (codes "postgres: environment variable (password_env) is not set") env.getenv
        (given_text (lookup (codes "password_env") raw))
    then_check list_error (codes "postgres: config.databases: expected a list")
        (codes "postgres: config.databases must list at least one database") [] (λ t. true)
        (to_string_slice (lookup (codes "databases") raw))

-- `len(p) == 0 || p[0] != '/'`
abbrev pub is_absolute : Text → Bool
is_absolute [] = false
is_absolute (c ∷ p) = c == b'/'

abbrev pub excludes_error : Option (List Text) → Option Text
excludes_error none = some (codes "filesystem: config.excludes: expected a list")
excludes_error (some ts) = none

unfoldable pub parse_filesystem : Environment → RawConfig → Option Text
parse_filesystem env raw =
    list_error (codes "filesystem: config.paths: expected a list")
      (codes "filesystem: config.paths must list at least one path")
      (codes "filesystem: config.paths: must be an absolute path") is_absolute
      (to_string_slice (lookup (codes "paths") raw))
    then_check excludes_error (to_string_slice (lookup (codes "excludes") raw))
