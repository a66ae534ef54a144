-- ===== src/Pages/Dashboard.antt =====
-- web/src/pages/DashboardPage.tsx: the launcher with a feed of events, and what the page renders.
use mathlib.Core.Option
use backup_orchestration_pla.Common.{
  ℕ, Bool, true, not, Option, none, some, List, [], ◌∷◌, ◌++◌, map, ltb, if◌then◌else◌,
}
use backup_orchestration_pla.Common.Text.{Text, codes, is_given}
use backup_orchestration_pla.Failure.{Outcome}
use backup_orchestration_pla.Wire.{BopEvent}
use backup_orchestration_pla.Activity.{DayBucket, bucket_jobs_by_day}
use backup_orchestration_pla.Format.{Offset}
use backup_orchestration_pla.UseApi
use backup_orchestration_pla.UseApi.{ApiState}
use backup_orchestration_pla.View.{Notice, spinner, error_notice, empty_notice, notices, render_all}
use backup_orchestration_pla.View.Rows.{JobRow, FeedItem, job_row, feed_item}
use backup_orchestration_pla.Pages.{listed, stats, recent_jobs}
use backup_orchestration_pla.Pages.Launcher
use backup_orchestration_pla.Pages.Launcher.{
  Launcher, LauncherEvent, hosts_answered, jobs_answered, jobs_deps, ticked, retried,
  trigger_clicked, closed, submitted, visibility, host_selected, plugin_selected, trigger_answered,
  can_trigger,
}

pub record Dashboard : Type 0 where
  pub launcher : Launcher (Unit {0})
  pub events : ApiState (Unit {0}) (List BopEvent)

pub data DashboardEvent : Type 0 where
  launched : LauncherEvent (Unit {0}) → DashboardEvent
  events_answered : ℕ → Outcome (List BopEvent) → DashboardEvent
  events_ticked events_retried : DashboardEvent

-- The feed's hook listens to the visibility of the tab too.
abbrev pub seen :
    LauncherEvent (Unit {0})
    → ApiState (Unit {0}) (List BopEvent)
    → ApiState (Unit {0}) (List BopEvent)
seen (visibility hidden) events = UseApi.step events (UseApi.visibility hidden)
seen _ events = events

unfoldable pub step : Dashboard → DashboardEvent → Dashboard
step s (launched e) = record { launcher = Launcher.step s.launcher e; events = seen e s.events }
step s (events_answered id outcome) = record s {
  events = UseApi.step s.events (UseApi.answered id outcome);
}
step s events_ticked = record s { events = UseApi.step s.events UseApi.tick }
step s events_retried =
    let reloaded = UseApi.step s.events UseApi.reload in
    if is_given s.events.error then record s { events = reloaded } else s

unfoldable pub run : Dashboard → List DashboardEvent → Dashboard
run s [] = s
run s (e ∷ es) = run (step s e) es

unfoldable pub mount : Bool → Dashboard
mount hidden = record {
  launcher = Launcher.mount tt hidden;
  events = UseApi.mount tt (some 5000) hidden;
}

-- `loading ? '—' : n`; `none` is the dash.
abbrev pub figure : Bool → ℕ → Option ℕ
figure loading n = if loading then none else some n

-- `chart` is `none` where the spinner stands for it.
pub record DashboardView : Type 0 where
  pub trigger_disabled : Bool
  pub hosts : Option ℕ
  pub running : Option ℕ
  pub failures : Option ℕ
  pub alert : Bool
  pub chart : Option (List DayBucket)
  pub job_notices : List Notice
  pub rows : List JobRow
  pub event_notices : List Notice
  pub feed : List FeedItem

module _ (lte : Text → Text → Bool) (offset_of : Text → Offset) (exact_of : Text → Text) where
  module _ (today : ℕ) (utc_day : ℕ → ℕ) (label_of : ℕ → Text) where
    -- What the page renders, but for the dialog; `none` where a link throws.
    unfoldable pub dashboard_view : Dashboard → Option DashboardView
    unfolding stats recent_jobs notices
    dashboard_view s =
        let hosts = s.launcher.hosts in
        let jobs = s.launcher.jobs in
        let counts = stats hosts.value jobs.value in
        let recent = recent_jobs lte jobs.value in
        Option.map
          (λ rows. record {
            trigger_disabled = not (can_trigger (listed hosts.value));
            hosts = figure hosts.loading counts.hosts;
            running = figure jobs.loading counts.running;
            failures = figure jobs.loading counts.failures;
            alert = ltb 0 counts.failures;
            chart =
                if jobs.loading
                then none
                else some (bucket_jobs_by_day today utc_day label_of (listed jobs.value) 14);
            job_notices =
                spinner jobs.loading (codes "Loading jobs")
                ++ (error_notice true jobs.error
                    ++ empty_notice (Option.map (λ js. recent) jobs.value) (codes "No jobs yet")
                        (some (codes "Trigger a backup or wait for the next scheduled run.")));
            rows = rows;
            event_notices = notices s.events (codes "Loading events") (codes "No events yet") none;
            feed = map (feed_item offset_of exact_of) (listed s.events.value);
          })
          (render_all (job_row offset_of exact_of) recent)
