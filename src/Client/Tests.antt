-- ===== src/Client/Tests.antt =====
-- The client at concrete requests and responses.
use mathlib.Core.Option
use backup_orchestration_pla.Common.{
  ℕ, ◌≡◌, ◌≢◌, ◌⊎◌, ◌↔◌, refl, Option, none, some, [], ◌∷◌, All, arith,
}
use backup_orchestration_pla.Common.Text.{Text, codes}
use backup_orchestration_pla.Failure.{Outcome, rejected, api_error}
use backup_orchestration_pla.Uri.{
  scalars, classify, encode_scalar, encode_uri_component, params_to_string, form_encode,
  scalars_lossy, form_byte,
}
use backup_orchestration_pla.Uri.Scalars.{IsUnit}
use backup_orchestration_pla.Client.{Session, Response, responded, conclude, finish, request_of}
use backup_orchestration_pla.Client.Paths.{
  list_hosts, list_events, trigger_backup, config_path, path_of, call_api, event_params,
  decimal_fuel, method_of, body_of,
}
use backup_orchestration_pla.Client.Laws.{session_dropped_iff}
use backup_orchestration_pla.Client.Unique.{config_path-injective}

-- The answer of a controller that does not know the token, and that of a reachable one.
abbrev refusal : Response ℕ
refusal = record {
  status = 401;
  status_text = codes "Unauthorized";
  json = none;
  error = some (codes "bad token");
}

abbrev success : Response ℕ
success = record { status = 200; status_text = codes "OK"; json = some 7; error = none }

abbrev session : Session
session = record { token = some (codes "t0"); stored = some (codes "t0"); listeners = 0 ∷ 4 ∷ [] }

event_path :
    path_of (list_events (record { job_id = none; host = some (codes "db 1"); limit = some 200 }))
    ≡ some (codes "/v1/events?host=db+1&limit=200")
unfolding path_of event_params decimal_fuel params_to_string form_encode scalars_lossy classify
    form_byte
event_path = refl

backup_call :
    (request_of session
      (method_of (trigger_backup (record { host = codes "web"; plugin = codes "informix" })))
      (codes "/v1/backups")
      (body_of
        (trigger_backup (record { host = codes "web"; plugin = codes "informix" })))).content_type
    ≡ some (codes "application/json")
unfolding request_of
backup_call = refl

abbrev refused : Outcome (Option ℕ)
refused = rejected (api_error 401 (codes "bad token"))

session_dropped_iff_example :
    ((session.listeners ≢ []) ↔ (
      (method_of list_hosts ≡ codes "GET") × ((m : Text) × (refused ≡ rejected (api_error 401 m)))))
    × ((session.listeners ≡ []) ⊎ (session.listeners ≡ session.listeners))
unfolding call_api path_of finish conclude
session_dropped_iff_example =
    session_dropped_iff session (λ r. responded refusal) list_hosts session.listeners refused
      (λ e. cc) refl

abbrev odd_host : Text
odd_host = codes "a/b"

abbrev odd_host_units : All IsUnit odd_host
odd_host_units = ((omega arith), ((omega arith), ((omega arith), tt)))

abbrev plugin_units : All IsUnit (codes "pg")
plugin_units = ((omega arith), ((omega arith), tt))

config_path-injective_example : (odd_host ≡ odd_host) × (codes "pg" ≡ codes "pg")
unfolding config_path encode_uri_component scalars classify encode_scalar Option.bind
config_path-injective_example =
    config_path-injective odd_host (codes "pg") odd_host (codes "pg")
      {p = codes "/v1/hosts/a%2Fb/plugins/pg/config"} odd_host_units plugin_units odd_host_units
      plugin_units refl refl
