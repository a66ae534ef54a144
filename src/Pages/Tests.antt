-- ===== src/Pages/Tests.antt =====
-- The pages at concrete jobs, filters and inventories.
mod Machines
mod Tables
mod Calls
use backup_orchestration_pla.Common.{
  pos, ℕ, ◌≡◌, refl, ap, some_inj, ◌⊎◌, inr, not, ◌&&◌, false, Bool, true, leb, Option, none, some,
  List, [], ◌∷◌, All, filter, drop, length, arith,
}
use backup_orchestration_pla.Common.Text.{Text, codes}
use backup_orchestration_pla.Wire.{Host, Job, Snapshot, BopEvent, failed, backup_started}
use backup_orchestration_pla.Pages.{
  insert, sort, newest_first, oldest_first, jobs_shown, recent_jobs, events_shown, stats,
  is_terminal, events_interval, FilterForm,
}
use backup_orchestration_pla.Failure.{Failure, failure_message, other_error, resolved, rejected}
use backup_orchestration_pla.UseApi.{Request}
use backup_orchestration_pla.UseApi
use backup_orchestration_pla.Modal
use backup_orchestration_pla.Modal.Offers.{Offered}
use backup_orchestration_pla.Pages.{listed}
use backup_orchestration_pla.Pages.Launcher
use backup_orchestration_pla.Pages.Launcher.{LauncherEvent, can_trigger}
use backup_orchestration_pla.Pages.Launcher.Requests.{requests_from_inventory}
use backup_orchestration_pla.Pages.Launcher.Silence.{failed_inventory_stays_empty}
use backup_orchestration_pla.Pages.Detail
use backup_orchestration_pla.Pages.Detail.{DetailEvent, events_polled_until_end}
use backup_orchestration_pla.Pages.Snapshots
use backup_orchestration_pla.Pages.Snapshots.{
  SnapshotsEvent, SnapshotsPage, rows_of_chosen_host, failed_switch_keeps_rows,
}
use backup_orchestration_pla.Pages.Sorting.{
  Sorted, Below, Total, Transitive, lists_in_order, recent_jobs_are_newest,
}

-- Texts by their first code unit, which tells the sample texts apart.
abbrev initial_of : Text → ℕ
initial_of [] = 0
initial_of (c ∷ s) = c

abbrev pub by_initial : Text → Text → Bool
by_initial a b = leb (initial_of a) (initial_of b)

total : Total by_initial
total a b e = ground arith

transitive : Transitive by_initial
transitive a b c e f = ground arith

abbrev pub job_at : Text → Job
job_at t = record {
  id = codes "job";
  host = codes "web";
  plugin = codes "filesystem";
  policy = record { daily = pos 7; weekly = pos 4; monthly = pos 12; yearly = pos 0 };
  status = failed;
  queued_at = t;
}

abbrev pub event_at : Text → BopEvent
event_at t = record {
  type = backup_started;
  job_id = codes "job";
  host = codes "web";
  plugin = codes "filesystem";
  resource = [];
  fields = [];
  timestamp = t;
}

abbrev jobs : Option (List Job)
jobs = some (job_at (codes "1") ∷ job_at (codes "3") ∷ job_at (codes "2") ∷ [])

abbrev events : Option (List BopEvent)
events = some (event_at (codes "2") ∷ event_at (codes "1") ∷ [])

abbrev pub web : Host
web = record { name = codes "web"; host = codes "10.0.0.1"; plugins = []; schedule = [] }

jobs_in_order :
    jobs_shown by_initial jobs ≡ job_at (codes "3") ∷ job_at (codes "2") ∷ job_at (codes "1") ∷ []
unfolding jobs_shown sort insert
jobs_in_order = refl

job_watched :
    (stats (some (web ∷ [])) jobs ≡ record { hosts = 1; running = 0; failures = 3 })
    × (events_interval (some (job_at [])) ≡ none)
    × (events_interval none ≡ some 5000)
unfolding stats events_interval is_terminal
job_watched = (refl, refl, refl)

abbrev typed_filter : FilterForm
typed_filter = record {
  host = codes " web ";
  job_id = codes "  ";
  applied_host = [];
  applied_job_id = codes "old";
}
