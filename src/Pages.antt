-- ===== src/Pages.antt =====
-- The pages of the console (web/src/pages): what the dashboard counts and lists, the order of the job and
-- event lists, the polling of a job's events, the filters of the events page and the host of the
-- snapshots page. The order of `localeCompare` is an argument: `lte a b` says that `a.localeCompare(b)` is
-- not positive.
pub mod Sorting
pub mod Filters
pub mod Launcher
pub mod Snapshots
pub mod Detail
pub mod EventLog
pub mod Jobs
pub mod Timeline
pub mod Renders
pub mod Calls
pub mod Dashboard
pub mod Tables
mod Tests
use backup_orchestration_pla.Common.{
  ℕ, zero, suc, Bool, true, false, Option, none, some, List, [], ◌∷◌, filter, take, length,
  if◌then◌else◌, or_default,
}
use backup_orchestration_pla.Common.Text.{Text, truthy}
use backup_orchestration_pla.Common.Text.Trim.{trim}
use backup_orchestration_pla.Client.Paths.{EventFilter}
use backup_orchestration_pla.Wire.{
  Host, Job, BopEvent, JobStatus, queued, in_progress, completed, failed,
}

-- `[...xs].sort(cmp)`, which is stable: `lte x y` says that `cmp(x, y)` is not positive.
unfoldable pub insert : {A : Type 0} → (A → A → Bool) → A → List A → List A
insert lte x [] = x ∷ []
insert lte x (y ∷ ys) = if lte x y then x ∷ y ∷ ys else y ∷ insert lte x ys

unfoldable pub sort : {A : Type 0} → (A → A → Bool) → List A → List A
unfolding insert
sort lte [] = []
sort lte (x ∷ xs) = insert lte x (sort lte xs)

-- What `useApi` gives of its list before the first answer, `?? []`.
abbrev pub listed : {A : Type 0} → Option (List A) → List A
listed o = or_default o []

module _ (lte : Text → Text → Bool) where
  -- `(a, b) => b.queuedAt.localeCompare(a.queuedAt)`
  abbrev pub newest_first : Job → Job → Bool
  newest_first a b = lte b.queued_at a.queued_at

  abbrev pub oldest_first : BopEvent → BopEvent → Bool
  oldest_first a b = lte a.timestamp b.timestamp

  -- The rows of the jobs page, those of the dashboard, and the events of a job.
  pub jobs_shown : Option (List Job) → List Job
  jobs_shown jobs = sort newest_first (listed jobs)

  unfoldable pub recent_jobs : Option (List Job) → List Job
  unfolding jobs_shown
  recent_jobs jobs = take 8 (jobs_shown jobs)

  pub events_shown : Option (List BopEvent) → List BopEvent
  events_shown events = sort oldest_first (listed events)

abbrev pub is_running : JobStatus → Bool
is_running queued = true
is_running in_progress = true
is_running _ = false

abbrev pub has_failed : JobStatus → Bool
has_failed failed = true
has_failed _ = false

pub record Stats : Type 0 where
  pub hosts : ℕ
  pub running : ℕ
  pub failures : ℕ

pub stats : Option (List Host) → Option (List Job) → Stats
stats hosts jobs = record {
  hosts = length (listed hosts);
  running = length (filter (λ j. is_running j.status) (listed jobs));
  failures = length (filter (λ j. has_failed j.status) (listed jobs));
}

-- `jobState.data?.status === 'completed' || …`
abbrev pub ends_job : JobStatus → Bool
ends_job completed = true
ends_job failed = true
ends_job _ = false

pub is_terminal : Option Job → Bool
is_terminal none = false
is_terminal (some job) = ends_job job.status

-- The interval at which the events of a job are polled.
pub events_interval : Option Job → Option ℕ
unfolding is_terminal
events_interval job = if is_terminal job then none else some 5000

-- The events page: what is typed, and what was applied.
pub record FilterForm : Type 0 where
  pub host : Text
  pub job_id : Text
  pub applied_host : Text
  pub applied_job_id : Text

unfoldable pub apply_filters : FilterForm → FilterForm
apply_filters s = record s { applied_host = trim s.host; applied_job_id = trim s.job_id }

-- `text || undefined`
abbrev pub given : Text → Option Text
given [] = none
given (c ∷ s) = some (c ∷ s)

-- The filter that the page's request is made with.
unfoldable pub filter_of : FilterForm → EventFilter
filter_of s = record {
  job_id = given s.applied_job_id;
  host = given s.applied_host;
  limit = some 200;
}

-- The effect of the snapshots page: the first host of the inventory, while none is chosen.
pub choose_host : Option (List Host) → Text → Text
choose_host none host = host
choose_host (some []) host = host
choose_host (some (h ∷ hs)) host = if truthy host then host else h.name
