-- ===== src/Client/Paths.antt =====
-- web/src/api/client.ts, the object `api`: the path, the method and the body of each call.
use mathlib.Core.Option
use backup_orchestration_pla.Common.{
  ℕ, zero, suc, ◌+◌, ◌/◌, ◌%◌, ltb, Bool, true, false, Option, none, some, List, [], ◌∷◌, ◌++◌,
  if◌then◌else◌,
}
use backup_orchestration_pla.Common.Text.{Text, codes, truthy}
use backup_orchestration_pla.Uri.{encode_uri_component, params_to_string}
use backup_orchestration_pla.Failure.{Outcome}
use backup_orchestration_pla.Client.{Session, HttpRequest, FetchResult, request_of, finish}
use backup_orchestration_pla.Wire.{
  TriggerBackupRequest, InformixConfig, PostgresConfig, FilesystemConfig,
}

pub data PluginConfig : Type 0 where
  informix : InformixConfig → PluginConfig
  postgres : PostgresConfig → PluginConfig
  filesystem : FilesystemConfig → PluginConfig

pub record EventFilter : Type 0 where
  pub job_id : Option Text
  pub host : Option Text
  pub limit : Option ℕ

pub data ApiCall : Type 0 where
  list_hosts : ApiCall
  list_jobs : Option Text → ApiCall
  get_job : Text → ApiCall
  list_snapshots : Text → ApiCall
  list_events : EventFilter → ApiCall
  trigger_backup : TriggerBackupRequest → ApiCall
  get_plugin_config : (host plugin : Text) → ApiCall
  set_plugin_config : (host plugin : Text) → PluginConfig → ApiCall

-- The object that `JSON.stringify` writes into the body.
pub data Payload : Type 0 where
  backup_request : TriggerBackupRequest → Payload
  plugin_config : PluginConfig → Payload

-- `String(n)`: the decimal digits, given fuel of at least their number.
unfoldable pub decimal_fuel : ℕ → ℕ → Text
decimal_fuel zero n = []
decimal_fuel (suc fuel) n =
    let rest = decimal_fuel fuel (n / 10) in
    if ltb n 10 then (b'0' + n) ∷ [] else rest ++ (b'0' + n % 10) ∷ []

abbrev pub decimal : ℕ → Text
decimal n = decimal_fuel (suc n) n

-- `if (value) params.set(key, value)`, for a text and for the limit.
abbrev pub set_text : Text → Option Text → List (Text × Text)
set_text key none = []
set_text key (some v) = if truthy v then (key, v) ∷ [] else []

abbrev pub set_limit : Option ℕ → List (Text × Text)
set_limit none = []
set_limit (some zero) = []
set_limit (some (suc n)) = (codes "limit", decimal (suc n)) ∷ []

unfoldable pub event_params : EventFilter → List (Text × Text)
event_params f =
    set_text (codes "job_id") f.job_id ++ (set_text (codes "host") f.host ++ set_limit f.limit)

-- `qs ? '?' + qs : ''`
abbrev pub with_query : Text → Text
with_query [] = []
with_query (c ∷ qs) = b'?' ∷ c ∷ qs

-- `/v1/hosts/${…}/plugins/${…}/config`
unfoldable pub config_path : Text → Text → Option Text
config_path host plugin = Option.bind (encode_uri_component host) (λ h.
    Option.map (λ p. codes "/v1/hosts/" ++ (h ++ (codes "/plugins/" ++ (p ++ codes "/config"))))
      (encode_uri_component plugin))

abbrev status_query : Option Text → Option Text
status_query none = some []
status_query (some st) =
    if truthy st then Option.map (λ e. codes "?status=" ++ e) (encode_uri_component st) else some []

-- `none` where `encodeURIComponent` throws.
unfoldable pub path_of : ApiCall → Option Text
unfolding Option.bind config_path event_params
path_of list_hosts = some (codes "/v1/hosts")
path_of (list_jobs status) = Option.map (λ q. codes "/v1/jobs" ++ q) (status_query status)
path_of (get_job id) = Option.map (λ e. codes "/v1/jobs/" ++ e) (encode_uri_component id)
path_of (list_snapshots host) =
    Option.map (λ e. codes "/v1/snapshots?host=" ++ e) (encode_uri_component host)
path_of (list_events filter) =
    some (codes "/v1/events" ++ with_query (params_to_string (event_params filter)))
path_of (trigger_backup req) = some (codes "/v1/backups")
path_of (get_plugin_config host plugin) = config_path host plugin
path_of (set_plugin_config host plugin cfg) = config_path host plugin

abbrev pub method_of : ApiCall → Text
method_of (trigger_backup req) = codes "POST"
method_of (set_plugin_config host plugin cfg) = codes "PUT"
method_of _ = codes "GET"

abbrev pub body_of : ApiCall → Option Payload
body_of (trigger_backup req) = some (backup_request req)
body_of (set_plugin_config host plugin cfg) = some (plugin_config cfg)
body_of _ = none

-- `{ suppressGlobalUnauthorized: true }`
abbrev pub suppresses : ApiCall → Bool
suppresses (trigger_backup req) = true
suppresses (set_plugin_config host plugin cfg) = true
suppresses _ = false

-- One call: the request goes to `fetch`, unless its path cannot be built, and its result is finished.
unfoldable pub call_api :
    {A : Type 0}
    → Session
    → (HttpRequest Payload → FetchResult A)
    → ApiCall
    → Option (List ℕ × Outcome (Option A))
call_api s fetch c =
    Option.map
      (λ path. finish s (suppresses c) (fetch (request_of s (method_of c) path (body_of c))))
      (path_of c)
