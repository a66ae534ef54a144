-- ===== src/Auth.antt =====
-- web/src/state/auth.tsx and web/src/pages/ConnectPage.tsx, with the module state of
-- web/src/api/client.ts: who is connected, and with which token. `ConnectPage` stands on the page while
-- not connected (web/src/App.tsx, `Router`), and the Disconnect button (web/src/components/AppShell.tsx)
-- while connected.
pub mod Invariant
pub mod Connect
pub mod Reload
pub mod Page
mod Tests
use backup_orchestration_pla.Common.{
  ℕ, zero, suc, ◌==◌, Bool, true, false, not, ◌&&◌, is_some, Option, none, some, List, [], ◌∷◌, any,
  if◌then◌else◌,
}
use backup_orchestration_pla.Common.Text.{Text, codes, truthy}
use backup_orchestration_pla.Common.Text.Trim.{trim}
use backup_orchestration_pla.Failure.{Failure, api_error, other_error, Outcome, resolved, rejected}
use backup_orchestration_pla.Client.{
  Session, FetchResult, open_session, get_token, set_token, clear_token, on_unauthorized, finish,
}

-- The provider's state, the connect page's, and `probes`, the number of `listHosts` in flight that
-- `connect` awaits.
pub record Console : Type 0 where
  pub session : Session
  pub connected : Bool
  pub error : Option Text
  pub field : Text
  pub submitting : Bool
  pub reveal : Bool
  pub probes : ℕ

-- The identity of the provider's listener, `() => setConnected(false)`.
abbrev pub provider : ℕ
provider = 0

-- A connect page that is mounted anew.
abbrev pub fresh_page : Console → Console
fresh_page s = record s { field = []; submitting = false; reveal = false }

-- `setConnected(false)`: the connect page is mounted if it was not there.
pub drop_connection : Console → Console
drop_connection s = if s.connected then fresh_page (record s { connected = false }) else s

-- The page is loaded in a tab whose storage holds `stored`.
unfoldable pub open_console : Option Text → Console
open_console stored = record {
  session = on_unauthorized provider (open_session stored);
  connected = is_some (get_token (open_session stored));
  error = none;
  field = [];
  submitting = false;
  reveal = false;
  probes = 0;
}

abbrev pub rejection_message : Failure → Text
rejection_message (api_error status message) =
    if status == 401
    then codes
        "That token was not accepted. Check it against api.tokens_file / api.write_tokens_file and try again."
    else codes
        "Could not reach the controller. Confirm it is running and reachable, then try again."
rejection_message other_error =
    codes "Could not reach the controller. Confirm it is running and reachable, then try again."

-- `connect(token)` up to its `await`.
pub connect : Text → Console → Console
connect token s = record s {
  session = set_token token s.session;
  error = none;
  probes = suc s.probes;
}

-- The listeners that a request has told.
pub hear : List ℕ → Console → Console
hear fired s = if any (◌==◌ provider) fired then drop_connection s else s

-- The rest of `connect` behind its `await`, and the `finally` of the page's `handleSubmit`.
pub connect_settled : {A : Type 0} → Outcome A → Console → Console
connect_settled (resolved hosts) s = record s { connected = true; submitting = false }
connect_settled (rejected err) s = record s {
  session = clear_token s.session;
  connected = false;
  error = some (rejection_message err);
  submitting = false;
}

pub disconnect : Console → Console
disconnect s = fresh_page (record s { session = clear_token s.session; connected = false })

-- `handleSubmit` of the connect page.
pub handle_submit : Console → Console
handle_submit s =
    if truthy (trim s.field) then connect (trim s.field) (record s { submitting = true }) else s

-- A probe is answered: its listeners first, then `connect` goes on.
pub probe_settled : {A : Type 0} → ℕ → FetchResult A → Console → Console
probe_settled zero f s = s
probe_settled (suc n) f s =
    let (fired, outcome) = finish s.session false f in
    connect_settled outcome (hear fired (record s { probes = n }))

-- What happens to the console. `call_answered` is the answer to a request of any other caller.
pub data Event (A : Type 0) : Type 0 where
  typed : Text → Event A
  revealed submitted : Event A
  probe_answered : FetchResult A → Event A
  call_answered : (suppress : Bool) → FetchResult A → Event A
  disconnected reloaded : Event A

pub step : {A : Type 0} → Console → Event A → Console
step s (typed text) = if s.connected then s else record s { field = text }
step s revealed = if s.connected then s else record s { reveal = not s.reveal }
step s submitted =
    if (not s.connected && not s.submitting) && truthy (trim s.field) then handle_submit s else s
step s (probe_answered f) = probe_settled s.probes f s
step s (call_answered suppress f) = hear (finish s.session suppress f).0 s
step s disconnected = if s.connected then disconnect s else s
step s reloaded = open_console s.session.stored

pub run : {A : Type 0} → Console → List (Event A) → Console
run s [] = s
run s (e ∷ es) = run (step s e) es
