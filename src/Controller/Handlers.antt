-- ===== src/Controller/Handlers.antt =====
-- internal/api/handlers.go: the read endpoints behind their path, and the response that each writes. `reason` is the
-- reason phrase of a status, `rfc3339` the text of a time in JSON, `atoi` is `strconv.Atoi`. The body of an error
-- is the object of its message, so its `json` is no result. `fault` is the error of the store, if any.
pub mod Listings
pub mod Views
use backup_orchestration_pla.Common.{
  ℕ, ltb, ℤ, pos, negsuc, Bool, Option, none, some, List, [], ◌∷◌, ◌++◌, map, if◌then◌else◌, zero,
  suc,
}
use backup_orchestration_pla.Common.Text.{Text, codes, text_eq}
use backup_orchestration_pla.Client.{Response}
use backup_orchestration_pla.Wire
use backup_orchestration_pla.Wire.{JobStatus, queued, in_progress, completed, failed, BopEvent}
use backup_orchestration_pla.Controller.Core.{Job, Snapshot, Event}
use backup_orchestration_pla.Controller.Metadata.{
  Store, EventFilter, list_jobs_by_status, list_jobs, get_job, list_snapshots, list_events_page,
}

module _ (rfc3339 : ℕ → Text) where
  unfoldable pub new_job_summary : Job → Wire.Job
  new_job_summary j = record {
    id = j.id;
    host = j.host;
    plugin = j.plugin;
    policy = j.policy;
    status = j.status;
    queued_at = rfc3339 j.queued_at;
  }

  unfoldable pub new_snapshot_summary : Snapshot → Wire.Snapshot
  new_snapshot_summary s = record {
    id = s.id;
    job_id = s.job_id;
    host = s.host;
    plugin = s.plugin;
    size = s.size;
    checksum = s.checksum;
    created_at = rfc3339 s.created_at;
  }

  unfoldable pub new_event_summary : Event → BopEvent
  new_event_summary e = record {
    type = e.type;
    job_id = e.job_id;
    host = e.host;
    plugin = e.plugin;
    resource = e.resource;
    fields = e.fields;
    timestamp = rfc3339 e.timestamp;
  }

-- The status that `validJobStatuses` admits under a text.
abbrev pub valid_job_status : Text → Option JobStatus
valid_job_status text =
    if text_eq text (codes "queued")
    then some queued
    else if text_eq text (codes "in_progress")
    then some in_progress
    else if text_eq text (codes "completed")
    then some completed
    else if text_eq text (codes "failed")
    then some failed
    else none

abbrev pub default_events_limit : ℕ
default_events_limit = 100

abbrev pub max_events_limit : ℕ
max_events_limit = 1000

-- The limit of a number that was asked for; `none` is refused.
abbrev pub capped : Option ℤ → Option ℕ
capped none = none
capped (some (negsuc n)) = none
capped (some (pos zero)) = none
capped (some (pos (suc n))) =
    some (if ltb max_events_limit (suc n) then max_events_limit else suc n)

module _ (reason : ℕ → Text) where
  abbrev pub write_json : {A : Type 0} → ℕ → A → Response A
  write_json status v = record {
    status = status;
    status_text = reason status;
    json = some v;
    error = none;
  }

  abbrev pub write_error : {A : Type 0} → ℕ → Text → Response A
  write_error status msg = record {
    status = status;
    status_text = reason status;
    json = none;
    error = some msg;
  }

  -- The rows that were read, or the store's error.
  abbrev pub answer : {A B : Type 0} → Option Text → (A → B) → List A → Response (List B)
  answer none f rows = write_json 200 (map f rows)
  answer (some e) f rows = write_error 500 e

  module _ (rfc3339 : ℕ → Text) where
    unfoldable pub list_jobs_handler : Option Text → Text → Store → Response (List Wire.Job)
    list_jobs_handler fault [] s = answer fault (new_job_summary rfc3339) (list_jobs s)
    list_jobs_handler fault (c ∷ status) s = elim (valid_job_status (c ∷ status)) [
      | none ↦ write_error 400 (codes "status: unsupported value " ++ c ∷ status)
      | some st ↦ answer fault (new_job_summary rfc3339) (list_jobs_by_status st s)
    ]

    unfoldable pub get_job_handler : Option Text → Text → Store → Response Wire.Job
    get_job_handler (some e) id s = write_error 500 e
    get_job_handler none id s = elim (get_job id s) [
      | none ↦ write_error 404 (codes "job not found")
      | some job ↦ write_json 200 (new_job_summary rfc3339 job)
    ]

    unfoldable pub list_snapshots_handler :
        Option Text → Text → Store → Response (List Wire.Snapshot)
    list_snapshots_handler fault [] s = write_error 400 (codes "host query parameter is required")
    list_snapshots_handler fault (c ∷ host) s =
        answer fault (new_snapshot_summary rfc3339) (list_snapshots (c ∷ host) s)

    module _ (atoi : Text → Option ℤ) where
      abbrev pub events_limit : Text → Option ℕ
      events_limit [] = some default_events_limit
      events_limit (c ∷ raw) = capped (atoi (c ∷ raw))

      -- `limit`, `job_id` and `host` are the parameters of the query, empty where they are missing.
      unfoldable pub list_events_handler :
          Option Text → (limit job_id host : Text) → Store → Response (List BopEvent)
      list_events_handler fault limit job_id host s = elim (events_limit limit) [
        | none ↦ write_error 400 (codes "limit: must be a positive integer")
        | some n ↦
            answer fault (new_event_summary rfc3339)
              (list_events_page (record { job_id = job_id; host = host; limit = n }) s)
      ]
