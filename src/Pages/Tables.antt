-- ===== src/Pages/Tables.antt =====
-- What web/src/pages/JobsPage.tsx, EventsPage.tsx, SnapshotsPage.tsx and HostsPage.tsx render: the notices
-- and the rows of a table. `none` is a page whose rendering throws, at a link.
use mathlib.Core.Option
use backup_orchestration_pla.Common.{ℕ, Bool, true, not, ◌||◌, Option, none, some, List, ◌++◌, map}
use backup_orchestration_pla.Common.Text.{Text, codes}
use backup_orchestration_pla.Format.{Offset}
use backup_orchestration_pla.UseApi.{ApiState}
use backup_orchestration_pla.Wire.{Host}
use backup_orchestration_pla.View.{Notice, spinner, error_notice, empty_notice, notices, render_all}
use backup_orchestration_pla.View.Rows.{
  JobRow, EventRow, SnapshotRow, HostRow, job_row, event_row, snapshot_row, host_row,
}
use backup_orchestration_pla.Pages.{listed, jobs_shown}
use backup_orchestration_pla.Pages.Jobs.{JobsPage, Choice}
use backup_orchestration_pla.Pages.Launcher.{can_trigger}
use backup_orchestration_pla.Pages.EventLog.{EventLog}
use backup_orchestration_pla.Pages.Snapshots.{SnapshotsPage}

pub record TableView (R : Type 0) : Type 0 where
  pub notices : List Notice
  pub rows : List R

-- `status ? … : …`
abbrev pub hint : Choice → Text
hint none = codes "Trigger a backup to see one here."
hint (some status) = codes "Try a different status, or trigger a backup."

-- The button of the page's header, `disabled={!hostsState.data?.length}`.
abbrev pub trigger_disabled : JobsPage → Bool
trigger_disabled s = not (can_trigger (listed s.launcher.hosts.value))

-- The options of the host selector.
abbrev pub host_options : SnapshotsPage → List Text
host_options s = map (λ (h : Host). h.name) (listed s.hosts.value)

unfoldable pub hosts_view : ApiState (Unit {0}) (List Host) → Option (TableView HostRow)
hosts_view s =
    Option.map
      (λ rows. record {
        notices =
            notices s (codes "Loading hosts") (codes "No hosts configured")
              (some (codes "Add one to inventory.yaml to see it here."));
        rows = rows;
      })
      (render_all host_row (listed s.value))

module _ (offset_of : Text → Offset) (exact_of : Text → Text) where
  unfoldable pub jobs_view : (lte : Text → Text → Bool) → JobsPage → Option (TableView JobRow)
  jobs_view lte s =
      let jobs = s.launcher.jobs in
      let shown = jobs_shown lte jobs.value in
      Option.map
        (λ rows. record {
          notices =
              spinner jobs.loading (codes "Loading jobs")
              ++ (error_notice true jobs.error
                  ++ empty_notice (Option.map (λ js. shown) jobs.value)
                      (codes "No jobs match this filter") (some (hint s.status)));
          rows = rows;
        })
        (render_all (job_row offset_of exact_of) shown)

  unfoldable pub events_view : EventLog → Option (TableView EventRow)
  events_view s =
      Option.map
        (λ rows. record {
          notices =
              notices s.events (codes "Loading events") (codes "No events match these filters")
                none;
          rows = rows;
        })
        (render_all (event_row offset_of exact_of) (listed s.events.value))

  -- The spinner stands for the inventory too.
  unfoldable pub snapshots_view : (log_index : ℕ → ℕ) → SnapshotsPage → TableView SnapshotRow
  snapshots_view log_index s = record {
    notices =
        spinner (s.hosts.loading || s.snapshots.loading) (codes "Loading snapshots")
        ++ (error_notice true s.snapshots.error
            ++ empty_notice s.snapshots.value (codes "No snapshots for this host yet")
                (some (codes "They appear here once a backup job completes.")));
    rows = map (snapshot_row offset_of exact_of log_index) (listed s.snapshots.value);
  }
