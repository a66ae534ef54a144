-- ===== src/Pages/Tests/Calls.antt =====
-- The requests of the pages, at concrete dependencies.
use backup_orchestration_pla.Common.{◌≡◌, ◌↔◌, refl, false, some, none, [], arith}
use backup_orchestration_pla.Common.Text.{codes}
use backup_orchestration_pla.Auth.{Console, open_console, call_answered, step}
use backup_orchestration_pla.Auth.Invariant.{open_console-Inv}
use backup_orchestration_pla.Client.{Response, responded, open_session}
use backup_orchestration_pla.Client.Paths.{
  ApiCall, list_jobs, trigger_backup, set_plugin_config, filesystem, suppresses, path_of,
}
use backup_orchestration_pla.Uri.{encode_uri_component, scalars, classify, encode_scalar}
use backup_orchestration_pla.Wire.{failed, TriggerBackupRequest}
use backup_orchestration_pla.Pages.Calls.{
  jobs_of, job_of, page_path, reads_end_connection, page_path-injective,
}

abbrev console : Console
console = open_console (some (codes "token"))

abbrev refused : Response (Unit {0})
refused = record { status = 401; status_text = codes "Unauthorized"; json = none; error = none }

abbrev backup : TriggerBackupRequest
backup = record { host = codes "web"; plugin = codes "filesystem" }

reads_end_connection_example :
    let answer = λ (x : ApiCall). step console (call_answered (suppresses x) (responded refused)) in
    (((answer (list_jobs (some (codes "failed")))).connected ≡ false) ↔ (refused.status ≡ 401))
    × (answer (trigger_backup backup) ≡ console)
    × (answer (
          set_plugin_config
            (codes "web")
            (codes "filesystem")
            (filesystem (record { paths = []; excludes = [] })))
        ≡ console)
unfolding open_console open_session
reads_end_connection_example =
    reads_end_connection console refused (jobs_of (some failed)) backup (codes "web")
      (codes "filesystem") (filesystem (record { paths = []; excludes = [] }))
      (open_console-Inv (some (codes "token"))) refl refl

page_path-injective_example : job_of (codes "a/b") ≡ job_of (codes "a/b")
unfolding page_path path_of encode_uri_component scalars classify encode_scalar
page_path-injective_example =
    page_path-injective (job_of (codes "a/b")) (job_of (codes "a/b")) {p = codes "/v1/jobs/a%2Fb"}
      (omega arith, (omega arith, (omega arith, tt)))
      (omega arith, (omega arith, (omega arith, tt))) refl refl
