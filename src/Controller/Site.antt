-- ===== src/Controller/Site.antt =====
-- The controller's process: `triggerBackupHandler` (internal/api/backups.go), `dispatch`
-- (internal/scheduler/scheduler.go), and the consumer, the reconciliation and the start of internal/cli
-- (wiring.go, controller.go), over the store and the queue.
pub mod Rows
pub mod Durable
pub mod Oldest
pub mod Restart
pub mod Runs
pub mod Drain
pub mod Trigger
use backup_orchestration_pla.Common.{
  ℕ, zero, suc, ℤ, pos, Bool, true, false, not, ◌||◌, Option, none, some, is_some, List, [], ◌∷◌,
  if◌then◌else◌,
}
use backup_orchestration_pla.Common.Text.{Text, codes, truthy}
use backup_orchestration_pla.Client.{Response}
use backup_orchestration_pla.Wire
use backup_orchestration_pla.Wire.{
  JobStatus, queued, in_progress, completed, failed, Policy, TriggerBackupRequest, backup_requested,
}
use backup_orchestration_pla.Controller.Core.{Job, Event, new_job}
use backup_orchestration_pla.Controller.Inventory.{Server, Inventory, RawConfig, lookup}
use backup_orchestration_pla.Controller.Metadata.{
  Store, StoreError, Written, create_job, update_job_status, record_event, fail_orphaned_jobs,
  list_jobs_by_status,
}
use backup_orchestration_pla.Controller.Handlers.{new_job_summary, write_json, write_error}
use backup_orchestration_pla.Controller.Queue.{Memory, new_memory, enqueue, dequeue}

-- `running` is the id of the job that the consumer runs.
pub record Site : Type 0 where
  pub store : Store
  pub queue : Memory
  pub running : Option Text

-- The answers and the clock of one job's creation: the errors of its two writes (without a publisher of events,
-- the second is one), and three readings of the clock.
pub record Creation : Type 0 where
  pub create_fault : Option Text
  pub event_fault : Option Text
  pub nanos : ℕ
  pub now : ℕ
  pub event_at : ℕ

-- The job's event and the queue, after `CreateJob`.
abbrev pub submitted : Creation → Job → Site → Written → Site × Option StoreError
submitted c job s (store, some e) = (s, some e)
submitted c job s (store, none) = (
  record s {
    store =
        (record_event c.event_fault
          (record {
            type = backup_requested;
            job_id = job.id;
            host = job.host;
            plugin = job.plugin;
            resource = [];
            fields = [];
            timestamp = c.event_at;
          })
          store).0;
    queue = (enqueue job s.queue).0;
  },
  none,
)

unfoldable pub submit : Creation → Job → Site → Site × Option StoreError
submit c job s = submitted c job s (create_job c.create_fault job s.store)

-- `srv.Retention`, of the zero server where the host is missing.
abbrev pub retention_of : Option Server → Policy
retention_of none = record { daily = pos 0; weekly = pos 0; monthly = pos 0; yearly = pos 0 }
retention_of (some srv) = srv.retention

abbrev pub requested_job : Inventory → Creation → TriggerBackupRequest → Job
requested_job inv c req =
    new_job req.host req.plugin (retention_of (lookup req.host inv)) c.nanos c.now

-- `create_error` is the text of a store's error.
module _ (reason rfc3339 : ℕ → Text) (create_error : StoreError → Text) (inv : Inventory) where
  abbrev pub trigger_answer : Job → Site × Option StoreError → Site × Response Wire.Job
  trigger_answer job (s, none) = (s, write_json reason 202 (new_job_summary rfc3339 job))
  trigger_answer job (s, some e) = (s, write_error reason 500 (create_error e))

  -- A decoded request, and the error of `BuildPlugin`.
  unfoldable pub trigger_request :
      Creation → TriggerBackupRequest → Option Text → Site → Site × Response Wire.Job
  unfolding submit new_job
  trigger_request c req built s =
      if not (truthy req.host) || not (truthy req.plugin)
      then (s, write_error reason 400 (codes "host and plugin are required"))
      else elim built [
        | some e ↦ (s, write_error reason 404 e)
        | none ↦ trigger_answer (requested_job inv c req) (submit c (requested_job inv c req) s)
      ]

  -- `build` is the error of `BuildPlugin`, if any.
  unfoldable pub trigger_backup_handler :
      Creation
      → (Text → Text → Option Text)
      → Option TriggerBackupRequest
      → Site
      → Site × Response Wire.Job
  unfolding trigger_request
  trigger_backup_handler c build none s = (s, write_error reason 400 (codes "invalid JSON body"))
  trigger_backup_handler c build (some req) s = trigger_request c req (build req.host req.plugin) s

-- `dispatch`, from the `n`th plugin on.
unfoldable pub dispatch :
    (ℕ → Creation) → Text → Policy → ℕ → List (Text × Option RawConfig) → Site → Site
unfolding submit new_job
dispatch cs host retention n [] s = s
dispatch cs host retention n ((plugin, cfg) ∷ plugins) s =
    dispatch cs host retention (suc n) plugins
      (submit (cs n) (new_job host plugin retention (cs n).nanos (cs n).now) s).0

-- The consumer takes a job: `started` says whether `RunJob` marks it in progress.
abbrev pub begin_run : Bool → Option (Job × Memory) → Site → Site
begin_run started none s = s
begin_run false (some (job, rest)) s = record s { queue = rest }
begin_run true (some (job, rest)) s = record s {
  store = (update_job_status none job.id in_progress s.store).0;
  queue = rest;
  running = some job.id;
}

-- `RunJob` returns: the last status that it has written, if any.
abbrev pub end_run : Option Text → Option Bool → Site → Site
end_run none recorded s = s
end_run (some id) none s = record s { running = none }
end_run (some id) (some true) s = record s {
  store = (update_job_status none id completed s.store).0;
  running = none;
}
end_run (some id) (some false) s = record s {
  store = (update_job_status none id failed s.store).0;
  running = none;
}

-- `reconcileQueuedJobs`
unfoldable pub enqueue_all : List Job → Memory → Memory
enqueue_all [] m = m
enqueue_all (j ∷ js) m = enqueue_all js (enqueue j m).0

-- The process starts anew over the store that it finds. With an error of the database it does not start.
unfoldable pub restart : Site → Site
unfolding enqueue_all
restart s =
    let store = (fail_orphaned_jobs none s.store).0 in
    record {
      store = store;
      queue = enqueue_all (list_jobs_by_status queued store) (new_memory s.queue.capacity);
      running = none;
    }

pub data SiteEvent : Type 0 where
  triggered : Creation → (Text → Text → Option Text) → Option TriggerBackupRequest → SiteEvent
  ticked : (ℕ → Creation) → Text → Server → SiteEvent
  taken : (started : Bool) → SiteEvent
  finished : (recorded : Option Bool) → SiteEvent
  restarted : SiteEvent

module _ (reason rfc3339 : ℕ → Text) (create_error : StoreError → Text) (inv : Inventory) where
  unfoldable pub step : Site → SiteEvent → Site
  unfolding trigger_backup_handler dispatch restart
  step s (triggered c build req) =
      (trigger_backup_handler reason rfc3339 create_error inv c build req s).0
  step s (ticked cs host srv) = dispatch cs host srv.retention 0 srv.plugins s
  step s (taken started) = if is_some s.running then s else begin_run started (dequeue s.queue) s
  step s (finished recorded) = end_run s.running recorded s
  step s restarted = restart s

  unfoldable pub run : Site → List SiteEvent → Site
  run s [] = s
  run s (e ∷ es) = run (step s e) es
