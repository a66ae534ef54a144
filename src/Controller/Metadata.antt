-- ===== src/Controller/Metadata.antt =====
-- internal/metadata: jobs.go, events.go, snapshots.go, plugin_settings.go, with the tables of store.go. A table is
-- its rows in the order of their insertion, a statement what its SQL says; `fault` is the error that the database
-- driver returns, if any, and then nothing is written. Rows with one time are listed in the table's order. The
-- JSON of an event's fields is its fields.
use backup_orchestration_pla.Common.{
  ℕ, leb, ltb, zero, suc, Bool, true, not, ◌&&◌, Option, none, some, List, [], ◌∷◌, ◌++◌, map,
  filter, any, take, if◌then◌else◌,
}
use backup_orchestration_pla.Common.Text.{Text, text_eq}
use backup_orchestration_pla.Wire.{JobStatus, failed, in_progress}
use backup_orchestration_pla.Pages.{sort}
use backup_orchestration_pla.Pages.Jobs.{same_status}
use backup_orchestration_pla.Controller.Core.{Job, Snapshot, Event}

-- A row of `plugin_settings`.
pub record Setting : Type 0 where
  pub host : Text
  pub plugin : Text
  pub config_json : Text

pub record Store : Type 0 where
  pub jobs : List Job
  pub snapshots : List Snapshot
  pub events : List Event
  pub settings : List Setting

pub data StoreError : Type 0 where
  driver : Text → StoreError
  key_taken job_not_found : StoreError

-- What a statement that writes does: the store, and the error.
abbrev pub Written : Type 0
Written = Store × Option StoreError

abbrev pub has_job : Text → List Job → Bool
has_job id jobs = any (λ j. text_eq id j.id) jobs

unfoldable pub create_job : Option Text → Job → Store → Written
create_job (some e) job s = (s, some (driver e))
create_job none job s =
    if has_job job.id s.jobs
    then (s, some key_taken)
    else (record s { jobs = s.jobs ++ job ∷ [] }, none)

abbrev pub with_status : Text → JobStatus → Job → Job
with_status id status j = if text_eq id j.id then record j { status = status } else j

unfoldable pub update_job_status : Option Text → Text → JobStatus → Store → Written
update_job_status (some e) id status s = (s, some (driver e))
update_job_status none id status s =
    if has_job id s.jobs
    then (record s { jobs = map (with_status id status) s.jobs }, none)
    else (s, some job_not_found)

-- `WHERE id = ?`
unfoldable pub get_job : Text → Store → Option Job
get_job id s = go s.jobs
  where
    go : List Job → Option Job
    go [] = none
    go (j ∷ js) = if text_eq id j.id then some j else go js

-- `WHERE status = ? ORDER BY queued_at`
unfoldable pub list_jobs_by_status : JobStatus → Store → List Job
list_jobs_by_status status s =
    sort (λ (a b : Job). leb a.queued_at b.queued_at)
      (filter (λ (j : Job). same_status j.status status) s.jobs)

-- `ORDER BY queued_at DESC`
unfoldable pub list_jobs : Store → List Job
list_jobs s = sort (λ (a b : Job). leb b.queued_at a.queued_at) s.jobs

abbrev pub orphan_failed : Job → Job
orphan_failed j = if same_status j.status in_progress then record j { status = failed } else j

unfoldable pub fail_orphaned_jobs : Option Text → Store → Written
fail_orphaned_jobs (some e) s = (s, some (driver e))
fail_orphaned_jobs none s = (record s { jobs = map orphan_failed s.jobs }, none)

unfoldable pub record_snapshot : Option Text → Snapshot → Store → Written
record_snapshot (some e) snap s = (s, some (driver e))
record_snapshot none snap s =
    if any (λ (t : Snapshot). text_eq snap.id t.id) s.snapshots
    then (s, some key_taken)
    else (record s { snapshots = s.snapshots ++ snap ∷ [] }, none)

-- `WHERE host = ? ORDER BY created_at DESC`
unfoldable pub list_snapshots : Text → Store → List Snapshot
list_snapshots host s =
    sort (λ (a b : Snapshot). leb b.created_at a.created_at)
      (filter (λ (t : Snapshot). text_eq host t.host) s.snapshots)

unfoldable pub record_event : Option Text → Event → Store → Written
record_event (some e) event s = (s, some (driver e))
record_event none event s = (record s { events = s.events ++ event ∷ [] }, none)

-- `limit` 0 is none.
pub record EventFilter : Type 0 where
  pub job_id : Text
  pub host : Text
  pub limit : ℕ

-- A condition that is left out for the empty text.
abbrev pub holds : Text → Text → Bool
holds [] value = true
holds (c ∷ wanted) value = text_eq (c ∷ wanted) value

abbrev pub admits : EventFilter → Event → Bool
admits f e = holds f.job_id e.job_id && holds f.host e.host

abbrev pub limited {ℓ} : {A : Type ℓ} → ℕ → List A → List A
limited zero rows = rows
limited (suc n) rows = take (suc n) rows

unfoldable pub list_events_page : EventFilter → Store → List Event
list_events_page f s =
    limited f.limit
      (sort (λ (a b : Event). leb b.timestamp a.timestamp) (filter (admits f) s.events))

unfoldable pub prune_events_older_than : Option Text → (cutoff : ℕ) → Store → Written
prune_events_older_than (some e) cutoff s = (s, some (driver e))
prune_events_older_than none cutoff s =
    (record s { events = filter (λ (e : Event). not (ltb e.timestamp cutoff)) s.events }, none)

abbrev pub is_setting : Text → Text → Setting → Bool
is_setting host plugin row = text_eq host row.host && text_eq plugin row.plugin

unfoldable pub get_plugin_settings : Text → Text → List Setting → Option Text
get_plugin_settings host plugin [] = none
get_plugin_settings host plugin (row ∷ rows) =
    if is_setting host plugin row
    then some row.config_json
    else get_plugin_settings host plugin rows

-- `ON CONFLICT (host, plugin) DO UPDATE`
unfoldable pub put_setting : Setting → List Setting → List Setting
put_setting new [] = new ∷ []
put_setting new (row ∷ rows) =
    if is_setting new.host new.plugin row then new ∷ rows else row ∷ put_setting new rows

unfoldable pub set_plugin_settings : Option Text → Setting → Store → Written
unfolding put_setting
set_plugin_settings (some e) new s = (s, some (driver e))
set_plugin_settings none new s = (record s { settings = put_setting new s.settings }, none)
