-- ===== src/Controller/Tests/Pages.antt =====
-- The console's pages over the handlers.
use backup_orchestration_pla.Common.{
  ℕ, ℤ, pos, ◌≡◌, refl, ap, subst, Bool, true, false, Option, none, some, some_inj, any, List, [],
  ◌∷◌, All,
}
use backup_orchestration_pla.Common.Text.{Text, codes}
use backup_orchestration_pla.Common.Text.Trim.{trim, drop_spaces, is_space}
use backup_orchestration_pla.Failure.{resolved}
use backup_orchestration_pla.Client.{conclude}
use backup_orchestration_pla.Client.Paths.{decimal_fuel}
use backup_orchestration_pla.Client.Decimal.{value_from}
use backup_orchestration_pla.Wire
use backup_orchestration_pla.Wire.{Host, BopEvent, JobStatus, queued, failed, backup_started}
use backup_orchestration_pla.UseApi
use backup_orchestration_pla.UseApi.{Request}
use backup_orchestration_pla.Modal
use backup_orchestration_pla.Pages.{jobs_shown, filter_of, insert, sort}
use backup_orchestration_pla.Pages.Launcher
use backup_orchestration_pla.Pages.Launcher.{LauncherEvent}
use backup_orchestration_pla.Pages.Jobs
use backup_orchestration_pla.Pages.Jobs.{JobsEvent, AllMatch}
use backup_orchestration_pla.Pages.EventLog
use backup_orchestration_pla.Pages.EventLog.{LogEvent}
use backup_orchestration_pla.Controller.Core.{Event}
use backup_orchestration_pla.Controller.Inventory.{validate, list_hosts, host_summary}
use backup_orchestration_pla.Controller.Inventory.Hosts.{entry_offers, requests_are_configured}
use backup_orchestration_pla.Controller.Metadata.{
  Store, list_jobs_by_status, list_jobs, list_events_page,
}
use backup_orchestration_pla.Controller.Handlers.{
  list_jobs_handler, list_events_handler, new_job_summary, new_event_summary,
}
use backup_orchestration_pla.Controller.Handlers.Views.{JobsServed, jobs_page_of_controller}
use backup_orchestration_pla.Controller.Tests.{test_inventory, job_of, stored_with}

abbrev no_text : ℕ → Text
no_text n = []

abbrev always : Text → Text → Bool
always a b = true

abbrev two_jobs : Store
two_jobs = stored_with (job_of (codes "j1") 5 failed ∷ job_of (codes "j2") 7 queued ∷ [])

-- The row of the failed job, as the client reads it.
abbrev failed_job : Wire.Job
failed_job = record {
  id = codes "j1";
  host = codes "web";
  plugin = codes "filesystem";
  policy = record { daily = pos 7; weekly = pos 4; monthly = pos 0; yearly = pos 0 };
  status = failed;
  queued_at = [];
}

api : Unit {0}
unfolding list_jobs_handler list_jobs_by_status list_jobs list_events_handler list_events_page
    new_job_summary new_event_summary insert sort conclude list_hosts host_summary validate
    decimal_fuel
api = tt

pages : Unit {0}
unfolding EventLog.run EventLog.step EventLog.mount Jobs.run Jobs.step Jobs.mount Launcher.run
    Launcher.step Launcher.mount UseApi.step UseApi.mount Modal.step Modal.mount trim drop_spaces
    is_space
pages = tt

served_failed : JobsServed no_text no_text (some failed) (failed_job ∷ [])
unfolding api
served_failed = record { fault = none; store = two_jobs; served = refl }

abbrev failed_chosen : List JobsEvent
failed_chosen =
    Jobs.status_selected (some failed)
    ∷ Jobs.launched (Launcher.jobs_answered 2 (resolved (failed_job ∷ [])))
    ∷ []

jobs_page_of_controller_example :
    let s = Jobs.run (Jobs.mount false) failed_chosen in
    JobsServed no_text no_text s.status (failed_job ∷ [])
    × AllMatch s.status (jobs_shown always (some (failed_job ∷ [])))
unfolding pages
jobs_page_of_controller_example =
    jobs_page_of_controller no_text no_text always false failed_chosen
      (
        tt,
        (
          (λ r found.
              subst (λ c. JobsServed no_text no_text c (failed_job ∷ []))
                (ap (λ (x : Request Jobs.Choice). x.deps) (some_inj found)) served_failed),
          tt,
        ),
      )
      refl refl refl

abbrev read_number : Text → Option ℤ
read_number t = some (pos (value_from 0 t))

abbrev started : Event
started = record {
  type = backup_started;
  job_id = codes "j1";
  host = codes "web";
  plugin = codes "filesystem";
  resource = [];
  fields = [];
  timestamp = 3;
}

abbrev started_row : BopEvent
started_row = record {
  type = backup_started;
  job_id = codes "j1";
  host = codes "web";
  plugin = codes "filesystem";
  resource = [];
  fields = [];
  timestamp = [];
}

web_filter :
    EventLog.asked (codes "web", [])
    ≡ record { job_id = none; host = some (codes "web"); limit = some 200 }
unfolding filter_of
web_filter = refl

abbrev web_applied : List LogEvent
web_applied =
    EventLog.host_typed (codes " web ")
    ∷ EventLog.submitted
    ∷ EventLog.answered 2 (resolved (started_row ∷ []))
    ∷ []

valid : validate test_inventory ≡ none
unfolding api
valid = refl

abbrev triggered : List (LauncherEvent (Unit {0}))
triggered =
    Launcher.hosts_answered 1 (resolved (list_hosts always test_inventory))
    ∷ Launcher.trigger_clicked
    ∷ Launcher.submitted
    ∷ []

one_request :
    (Launcher.run (Launcher.mount tt false) triggered).dialog.sent
    ≡ record { host = codes "web"; plugin = codes "postgres" } ∷ []
unfolding pages api Modal.plugins_of Modal.includes
one_request = refl

requests_are_configured_example :
    All
      (λ r. any (entry_offers r.host r.plugin) test_inventory ≡ true)
      (Launcher.run (Launcher.mount tt false) triggered).dialog.sent
requests_are_configured_example =
    requests_are_configured always test_inventory tt false triggered valid (refl, (tt, (tt, tt)))
