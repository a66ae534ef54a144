-- ===== src/Client.antt =====
-- web/src/api/client.ts: the token of the tab, one request, and the calls of the API. `fetch` is the
-- browser's: its result is an argument. A decoded JSON value is taken at its type, as the source does.
pub mod Paths
pub mod Laws
pub mod Unique
pub mod Listeners
pub mod Decimal
mod Tests
use backup_orchestration_pla.Common.{
  ℕ, zero, suc, leb, ltb, ◌==◌, Bool, true, false, not, ◌&&◌, ◌||◌, Option, none, some, List, [],
  ◌∷◌, ◌++◌, if◌then◌else◌, filter, any,
}
use backup_orchestration_pla.Common.Text.{Text, codes, truthy}
use backup_orchestration_pla.Failure.{Outcome, resolved, rejected, api_error, other_error}

-- The module's `token`, the entry of `sessionStorage` under STORAGE_KEY, and the set of listeners, each
-- by its identity, in the order in which they were added.
pub record Session : Type 0 where
  pub token : Option Text
  pub stored : Option Text
  pub listeners : List ℕ

-- The module is loaded: `let token = sessionStorage.getItem(STORAGE_KEY)`.
unfoldable pub open_session : Option Text → Session
open_session stored = record { token = stored; stored = stored; listeners = [] }

abbrev pub get_token : Session → Option Text
get_token s = s.token

unfoldable pub set_token : Text → Session → Session
set_token next s = record s { token = some next; stored = some next }

unfoldable pub clear_token : Session → Session
clear_token s = record s { token = none; stored = none }

-- `unauthorizedListeners.add(listener)`, and the function that it returns.
unfoldable pub on_unauthorized : ℕ → Session → Session
on_unauthorized l s =
    if any (◌==◌ l) s.listeners then s else record s { listeners = s.listeners ++ l ∷ [] }

unfoldable pub off_unauthorized : ℕ → Session → Session
off_unauthorized l s = record s { listeners = filter (λ k. not (l == k)) s.listeners }

pub record HttpRequest (B : Type 0) : Type 0 where
  pub method : Text
  pub path : Text
  pub authorization : Option Text
  pub content_type : Option Text
  pub body : Option B

-- A response: the JSON value of its body, unless it is no JSON, and the text under `error` in it.
pub record Response (A : Type 0) : Type 0 where
  pub status : ℕ
  pub status_text : Text
  pub json : Option A
  pub error : Option Text

pub data FetchResult (A : Type 0) : Type 0 where
  unreachable : FetchResult A
  responded : Response A → FetchResult A

-- `if (token) headers.set('Authorization', …)`: an empty token counts as none.
abbrev pub bearer : Option Text → Option Text
bearer none = none
bearer (some t) = if truthy t then some (codes "Bearer " ++ t) else none

abbrev pub json_type {ℓ} : {B : Type ℓ} → Option B → Option Text
json_type none = none
json_type (some b) = some (codes "application/json")

-- The request that `request(path, init)` hands to `fetch`.
unfoldable pub request_of : {B : Type 0} → Session → Text → Text → Option B → HttpRequest B
request_of s method path body = record {
  method = method;
  path = path;
  authorization = bearer s.token;
  content_type = json_type body;
  body = body;
}

-- `res.ok`
abbrev pub is_ok : ℕ → Bool
is_ok status = leb 200 status && leb status 299

-- The status text, or the `error` member of the body where it is there and not empty.
abbrev pub message_of : Text → Option Text → Text
message_of status_text none = status_text
message_of status_text (some e) = if truthy e then e else status_text

abbrev pub parsed : {A : Type 0} → Option A → Outcome (Option A)
parsed none = rejected other_error
parsed (some a) = resolved (some a)

module _ {A : Type 0} where
  -- How `request` ends on a response. The result of a 204 is `undefined`, here `none`.
  unfoldable pub conclude : Response A → Outcome (Option A)
  conclude r =
      if is_ok r.status
      then (if r.status == 204 then resolved none else parsed r.json)
      else rejected (api_error r.status (message_of r.status_text r.error))

  -- The listeners that are called, and how the promise settles.
  unfoldable pub finish : Session → Bool → FetchResult A → List ℕ × Outcome (Option A)
  unfolding conclude
  finish s suppress unreachable = ([], rejected other_error)
  finish s suppress (responded r) =
      (if (r.status == 401) && not suppress then s.listeners else [], conclude r)
