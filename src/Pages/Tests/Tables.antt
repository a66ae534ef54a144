-- ===== src/Pages/Tests/Tables.antt =====
-- What the pages render, at concrete jobs and events.
use backup_orchestration_pla.Common.{ℕ, ◌≡◌, ◌↔◌, refl, true, false, none, some, List, [], ◌∷◌}
use backup_orchestration_pla.Common.Text.{Text, codes}
use backup_orchestration_pla.Client.Paths.{decimal_fuel}
use backup_orchestration_pla.Failure.{resolved}
use backup_orchestration_pla.Format.{Offset, behind, hour, relative, format_relative}
use backup_orchestration_pla.Seal.{check_mark, cross_mark}
use backup_orchestration_pla.UseApi
use backup_orchestration_pla.UseApi.{ApiState}
use backup_orchestration_pla.Uri.{encode_uri_component, scalars, classify, encode_scalar}
use backup_orchestration_pla.Wire.{Host, BopEvent, backup_failed, restore_verification_completed}
use backup_orchestration_pla.View.{spinner, render_all}
use backup_orchestration_pla.View.Rows.{JobRow, job_row, job_link, event_row, snapshot_row}
use backup_orchestration_pla.Pages.{insert, sort, jobs_shown, events_shown, recent_jobs}
use backup_orchestration_pla.Pages.Launcher
use backup_orchestration_pla.Pages.Jobs
use backup_orchestration_pla.Pages.Jobs.{JobsPage}
use backup_orchestration_pla.Pages.EventLog
use backup_orchestration_pla.Pages.Snapshots
use backup_orchestration_pla.Pages.Detail
use backup_orchestration_pla.Pages.Dashboard
use backup_orchestration_pla.Pages.Dashboard.{Dashboard, DashboardView, dashboard_view}
use backup_orchestration_pla.Pages.Tables.{hosts_view, jobs_view, events_view, snapshots_view}
use backup_orchestration_pla.Pages.Timeline.{
  detail_view, job_card, job_page, on_timeline, seal_agrees_with_timeline,
}
use backup_orchestration_pla.Pages.Tests.{web, job_at, event_at, by_initial}

abbrev an_hour_ago : Text → Offset
an_hour_ago iso = behind 3600000

abbrev same_text : Text → Text
same_text iso = iso

views : Unit {0}
unfolding jobs_view hosts_view events_view snapshots_view dashboard_view job_card detail_view
    recent_jobs jobs_shown events_shown sort insert job_row job_link event_row snapshot_row
    format_relative encode_uri_component scalars classify encode_scalar decimal_fuel Jobs.run
    Jobs.step Jobs.mount Launcher.run Launcher.step Launcher.mount Dashboard.run Dashboard.step
    Dashboard.mount UseApi.run UseApi.step UseApi.mount Snapshots.mount EventLog.mount Detail.mount
    render_all
views = tt

abbrev with_jobs : JobsPage
with_jobs = Jobs.run (Jobs.mount false) (
    Jobs.launched
      (Launcher.jobs_answered 1 (resolved (job_at (codes "1") ∷ job_at (codes "2") ∷ [])))
    ∷ [])

abbrev with_recent : Dashboard
with_recent = Dashboard.run (Dashboard.mount false) (
    Dashboard.launched
      (Launcher.jobs_answered 1 (resolved (job_at (codes "1") ∷ job_at (codes "2") ∷ [])))
    ∷ Dashboard.events_answered 1 (resolved [])
    ∷ [])

abbrev row : JobRow
row = record {
  to = codes "/jobs/job";
  host = codes "web";
  plugin = codes "filesystem";
  status = codes "Failed";
  queued = relative (behind 1) hour;
}

shown_jobs :
    jobs_view an_hour_ago same_text by_initial with_jobs
    ≡ some (record { notices = []; rows = row ∷ row ∷ [] })
unfolding views
shown_jobs = refl

abbrev no_label : ℕ → Text
no_label d = []

abbrev host_page : ApiState (Unit {0}) (List Host)
host_page = UseApi.step (UseApi.mount tt none false) (UseApi.answered 1 (resolved (web ∷ [])))

abbrev job_events : ApiState Text (List BopEvent)
job_events = UseApi.step (UseApi.mount (codes "job") (some 5000) false) (
    UseApi.answered 1 (
      resolved (
        record (event_at (codes "2")) { type = restore_verification_completed }
        ∷ event_at (codes "1")
        ∷ [])))

seal_agrees_with_timeline_example :
    let card = job_card by_initial an_hour_ago same_text (job_at (codes "1")) job_events in
    ((card.seal.mark ≡ cross_mark) ↔ (on_timeline backup_failed card.timeline ≡ true))
    × ((card.seal.mark ≡ check_mark) ↔ (
        (on_timeline backup_failed card.timeline ≡ false)
        × (on_timeline restore_verification_completed card.timeline ≡ true)))
seal_agrees_with_timeline_example =
    seal_agrees_with_timeline by_initial an_hour_ago same_text (job_at (codes "1")) job_events

retention_of_job :
    (job_card by_initial an_hour_ago same_text (job_at (codes "1")) job_events).retention
    ≡ codes "7d / 4w / 12m / 0y"
unfolding views
retention_of_job = refl

loading_pages :
    (detail_view by_initial an_hour_ago same_text (Detail.mount (codes "job") false)
      ≡ job_page (spinner true (codes "Loading job")) none)
    × ((snapshots_view an_hour_ago same_text (λ n. 1) (Snapshots.mount false)).notices
        ≡ spinner true (codes "Loading snapshots"))
unfolding views
loading_pages = (refl, refl)
