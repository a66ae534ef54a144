-- ===== src/Controller/Access.antt =====
-- internal/api/auth.go and internal/api/tokens.go, with the token lists that `NewServer` (internal/api/server.go) makes.
-- `sha256` is `sha256.Sum256`; comparing in constant time is comparing. A header that is missing is the empty text.
pub mod Scopes
use backup_orchestration_pla.Common.{
  ℕ, ◌==◌, Bool, true, false, not, ◌&&◌, ◌||◌, Option, none, some, List, [], ◌∷◌, ◌++◌, map, filter,
  any, if◌then◌else◌,
}
use backup_orchestration_pla.Common.Text.{Text, codes, text_eq, truthy}
use backup_orchestration_pla.Client.{Response}
use backup_orchestration_pla.Controller.Handlers.{write_error}

-- `strings.CutPrefix(s, pre)`
unfoldable pub cut_prefix : Text → Text → Option Text
cut_prefix [] s = some s
cut_prefix (c ∷ pre) [] = none
cut_prefix (c ∷ pre) (d ∷ s) = let rest = cut_prefix pre s in if c == d then rest else none

abbrev pub has_prefix : Text → Text → Bool
has_prefix [] s = true
has_prefix (c ∷ pre) [] = false
has_prefix (c ∷ pre) (d ∷ s) = (c == d) && has_prefix pre s

-- `loadTokenFile`, from the lines of the file: `none` where there is no token. `trim_space` is
-- `strings.TrimSpace`.
abbrev pub is_token : Text → Bool
is_token line = truthy line && not (has_prefix (codes "#") line)

unfoldable pub load_tokens : (Text → Text) → List Text → Option (List Text)
load_tokens trim_space lines = elim (filter is_token (map trim_space lines)) [
  | [] ↦ none
  | t ∷ ts ↦ some (t ∷ ts)
]

module _ (sha256 : Text → Text) where
  abbrev pub hash_tokens : List Text → List Text
  hash_tokens tokens = map sha256 tokens

  -- The message that a request is refused with, by what follows the prefix of its header.
  unfoldable pub refusal : List Text → Option Text → Option Text
  refusal hashes none = some (codes "missing or malformed Authorization header")
  refusal hashes (some token) =
      if truthy token
      then (if any (text_eq (sha256 token)) hashes then none else some (codes "invalid token"))
      else some (codes "missing or malformed Authorization header")

  unfoldable pub auth_middleware :
      {A : Type 0} → (reason : ℕ → Text) → List Text → Response A → Text → Response A
  unfolding refusal
  auth_middleware reason hashes next header =
      elim (refusal hashes (cut_prefix (codes "Bearer ") header)) [
        | some msg ↦ write_error reason 401 msg
        | none ↦ next
      ]

  -- The hashes that the reads and the writes are checked against.
  unfoldable pub read_hashes : List Text → List Text → List Text
  read_hashes read_tokens write_tokens = hash_tokens (read_tokens ++ write_tokens)

  unfoldable pub write_hashes : List Text → List Text
  write_hashes write_tokens = hash_tokens write_tokens
