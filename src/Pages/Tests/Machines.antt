-- ===== src/Pages/Tests/Machines.antt =====
-- The pages as machines, at concrete events.
use backup_orchestration_pla.Common.{
  ◌↔◌, true, ◌≡◌, refl, sym, subst, ap, some_inj, ◌⊎◌, inr, false, none, some, List, [], ◌∷◌, All,
  filter, length,
}
use backup_orchestration_pla.Common.Text.{Text, codes}
use backup_orchestration_pla.Wire.{Host, Job, Snapshot, BopEvent, failed}
use backup_orchestration_pla.Failure.{failure_message, other_error, resolved, rejected}
use backup_orchestration_pla.UseApi.{Request}
use backup_orchestration_pla.UseApi
use backup_orchestration_pla.Modal
use backup_orchestration_pla.Pages.{listed}
use backup_orchestration_pla.Pages.Launcher
use backup_orchestration_pla.Pages.Launcher.{LauncherEvent, can_trigger}
use backup_orchestration_pla.Pages.Launcher.Silence.{failed_inventory_stays_empty}
use backup_orchestration_pla.Pages.Detail
use backup_orchestration_pla.Pages.Detail.{DetailEvent, events_polled_until_end}
use backup_orchestration_pla.Pages.Snapshots
use backup_orchestration_pla.Pages.Snapshots.{
  SnapshotsEvent, SnapshotsPage, rows_of_chosen_host, failed_switch_keeps_rows,
}
use backup_orchestration_pla.Pages.Tests.{web, job_at, event_at}
use backup_orchestration_pla.Pages.EventLog
use backup_orchestration_pla.Pages.EventLog.{LogEvent, events_of_applied_filter}
use backup_orchestration_pla.Pages.Jobs
use backup_orchestration_pla.Pages.Jobs.{JobsEvent, AllMatch, Matches, jobs_of_chosen_status}
use backup_orchestration_pla.Client.Paths.{EventFilter}
use backup_orchestration_pla.Common.Text.Trim.{trim, drop_spaces, is_space}
use backup_orchestration_pla.Pages.{filter_of}

abbrev files : Host
files = record {
  name = codes "files";
  host = codes "10.0.0.2";
  plugins = codes "filesystem" ∷ [];
  schedule = [];
}

-- The inventory is answered, and a backup of its first host is asked for.
abbrev triggered : List (LauncherEvent (Unit {0}))
triggered =
    Launcher.hosts_answered 1 (resolved (files ∷ []))
    ∷ Launcher.trigger_clicked
    ∷ Launcher.submitted
    ∷ []

pages : Unit {0}
unfolding Launcher.run Launcher.step Launcher.mount Snapshots.run Snapshots.step Snapshots.mount
    Snapshots.update_snapshots UseApi.step UseApi.mount Modal.step Modal.mount Modal.plugins_of
    Modal.includes
pages = tt

one_request :
    (Launcher.run (Launcher.mount tt false) triggered).dialog.sent
    ≡ record { host = codes "files"; plugin = codes "filesystem" } ∷ []
unfolding pages
one_request = refl

failed_inventory_stays_empty_example :
    let s =
      Launcher.run
        (Launcher.step
          (Launcher.run (Launcher.mount tt false) (Launcher.visibility true ∷ Launcher.ticked ∷ []))
          (Launcher.hosts_answered 1 (rejected other_error)))
        triggered in
    (s.hosts.loading ≡ false)
    × (length (listed s.hosts.value) ≡ 0)
    × (can_trigger (listed s.hosts.value) ≡ false)
failed_inventory_stays_empty_example =
    failed_inventory_stays_empty tt false (Launcher.visibility true ∷ Launcher.ticked ∷ [])
      other_error triggered (tt, (tt, tt))

abbrev watched : List DetailEvent
watched = Detail.job_answered 1 (resolved (job_at [])) ∷ Detail.events_ticked ∷ []

events_polled_until_end_example :
    let s = Detail.run (Detail.mount (codes "job") false) watched in
    (s.events.timer ≡ true) ↔ ((s.events.hidden ≡ false) × Detail.Unended s.job.value)
events_polled_until_end_example = events_polled_until_end (codes "job") false watched

abbrev snapshot_of : Text → Snapshot
snapshot_of host = record {
  id = codes "s";
  job_id = codes "job";
  host = host;
  plugin = codes "filesystem";
  size = 1536;
  checksum = codes "0123456789abcdef";
  created_at = codes "t";
}

abbrev OfHost : Text → List Snapshot → Type 0
OfHost host rows = All (λ (r : Snapshot). (host ≡ []) ⊎ (r.host ≡ host)) rows

-- The first host of the inventory is chosen, and its snapshots are answered.
abbrev chosen : List SnapshotsEvent
chosen =
    Snapshots.hosts_answered 1 (resolved (files ∷ web ∷ []))
    ∷ Snapshots.snapshots_answered 2 (resolved (snapshot_of (codes "files") ∷ []))
    ∷ []

rows_of_chosen_host_example : OfHost (codes "files") (snapshot_of (codes "files") ∷ [])
unfolding pages
rows_of_chosen_host_example =
    rows_of_chosen_host OfHost false chosen (snapshot_of (codes "files") ∷ [])
      (tt, ((λ r found. (inr (ap (λ (x : Request Text). x.deps) (some_inj found)), tt)), tt)) refl
      refl refl

abbrev files_shown : SnapshotsPage
files_shown = Snapshots.run (Snapshots.mount false) chosen

failed_switch_keeps_rows_example :
    let t = Snapshots.step files_shown (Snapshots.host_selected (codes "web")) in
    let u =
      Snapshots.step t
        (Snapshots.snapshots_answered t.snapshots.request_id (rejected other_error)) in
    (u.host ≡ codes "web")
    × (u.snapshots.value ≡ some (snapshot_of (codes "files") ∷ []))
    × (u.snapshots.loading ≡ false)
    × (u.snapshots.error ≡ some (failure_message other_error))
unfolding pages
failed_switch_keeps_rows_example =
    failed_switch_keeps_rows files_shown (codes "web") (snapshot_of (codes "files") ∷ [])
      other_error refl refl refl

-- A host is typed and applied, and the request for its events is answered.
abbrev filtered : List LogEvent
filtered =
    EventLog.host_typed (codes " web ")
    ∷ EventLog.submitted
    ∷ EventLog.answered 2 (resolved (event_at (codes "1") ∷ []))
    ∷ EventLog.host_typed (codes "db")
    ∷ []

logs : Unit {0}
unfolding EventLog.run EventLog.step EventLog.mount Jobs.run Jobs.step Jobs.mount Launcher.step
    Launcher.mount UseApi.step UseApi.mount trim drop_spaces is_space
logs = tt

abbrev OfFilter : EventFilter → List BopEvent → Type 0
OfFilter filter rows =
    All (λ (e : BopEvent). (filter.host ≡ none) ⊎ (filter.host ≡ some e.host)) rows

given_host :
    (r : Request (Text × Text))
    → (codes "web", []) ≡ r.deps
    → (EventLog.asked r.deps).host ≡ some (codes "web")
unfolding filter_of
given_host r e = sym (ap (λ d. (EventLog.asked d).host) e)

-- The failed jobs are chosen, and asked for.
abbrev of_failed : List JobsEvent
of_failed =
    Jobs.status_selected (some failed)
    ∷ Jobs.launched
        (Launcher.jobs_answered 2 (resolved (job_at (codes "1") ∷ job_at (codes "2") ∷ [])))
    ∷ []

matching :
    (r : Request Jobs.Choice) (j : Job)
    → j.status ≡ failed
    → some failed ≡ r.deps
    → Matches r.deps j
matching r j e d = subst (λ c. Matches c j) d e
