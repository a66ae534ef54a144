-- ===== src/Controller/RunJob.antt =====
-- internal/controller/controller.go: `RunJob` and `runPipeline`, with `resolveVerification` of
-- internal/controller/verification.go.
pub mod Resources
pub mod Verified
pub mod Seals
pub mod Ends
use backup_orchestration_pla.Common.{
  ℕ, zero, suc, length, Bool, true, false, Option, none, some, List, [], ◌∷◌, ◌++◌, if◌then◌else◌,
  any,
}
use backup_orchestration_pla.Common.Text.{Text, codes, truthy, text_eq}
use backup_orchestration_pla.Client.Paths.{decimal}
use backup_orchestration_pla.Wire.{
  Policy, JobStatus, in_progress, completed, failed, EventType, backup_started, backup_completed,
  backup_failed, plugin_discovery_started, plugin_discovery_completed, retention_applied,
}
use backup_orchestration_pla.Controller.Core.{Resource, Verification, Job, Fallible, ok, err}
use backup_orchestration_pla.Controller.Inventory.{Server, Inventory, lookup}
use backup_orchestration_pla.Controller.Pipeline.{
  Effect, published, status_set, Run, ran, before, ◌>>=◌, ◌>>◌, effect, wrapped, or_fail, fail_on,
  Attempt, publish, backup_resource,
}

-- The factories and the named storages, by their names.
pub record Controller : Type 0 where
  pub inventory : Inventory
  pub factories : List Text
  pub storages : List Text
  pub verification : Verification

pub data RunError : Type 0 where
  host_not_found plugin_not_registered storage_not_defined not_started : RunError
  job_failed : Text → RunError
  failure_not_recorded : (cause e : Text) → RunError
  completion_not_recorded : Text → RunError

-- `ok none` is the default storage.
pub data StorageChoice : Type 0 where
  default_storage no_host undefined_storage : StorageChoice
  named_storage : Text → StorageChoice

abbrev pub storage_of : Controller → Server → StorageChoice
storage_of ctl srv =
    if truthy srv.storage
    then (if any (text_eq srv.storage) ctl.storages
        then named_storage srv.storage
        else undefined_storage)
    else default_storage

unfoldable pub storage_for : Controller → Text → StorageChoice
storage_for ctl host = elim (lookup host ctl.inventory) [
  | none ↦ no_host
  | some srv ↦ storage_of ctl srv
]

abbrev pub resolve_verification : Verification → Option Verification → Verification
resolve_verification global none = global
resolve_verification global (some override) = override

-- The answers to the calls of one job; `C` is the plugin's configuration, `resolve_config` what
-- `resolvePluginConfig` returns.
pub record Ports (C : Type 0) : Type 0 where
  pub mark_in_progress : Option Text
  pub resolve_config : Fallible C
  pub factory : C → Option Text
  pub discover : Fallible (List Resource)
  pub attempts : ℕ → Attempt
  pub apply_retention : Text → Policy → Option Text
  pub record_status : JobStatus → Option Text
  pub clock : EventType → ℕ

-- `quoted` is the verb `%q`, `joined` the text of `errors.Join`.
module _ (quoted : Text → Text) (joined : List Text → Text) (job : Job) where
  -- One turn of the loop over the resources, before the turns that follow.
  abbrev pub collect : Resource → Run (Unit {0}) → List Effect × List Text → List Effect × List Text
  collect res (ran first (ok u)) (log, errs) = (first ++ log, errs)
  collect res (ran first (err e)) (log, errs) =
      (first ++ log, wrapped (codes "resource " ++ quoted res.id) e ∷ errs)

  -- The loop from the `n`th resource on: its log and the errors that it appends.
  unfoldable pub backup_resources :
      (ℕ → Attempt) → Bool → ℕ → List Resource → List Effect × List Text
  backup_resources attempts enabled n [] = ([], [])
  backup_resources attempts enabled n (res ∷ resources) =
      let rest = backup_resources attempts enabled (suc n) resources in
      collect res (backup_resource job (attempts n) res enabled) rest

  module _ {C : Type 0} (ports : Ports C) where
    -- The error of a pipeline that has collected `errs`.
    abbrev pub report : List Text → Run (Unit {0})
    report [] = ran [] (ok tt)
    report (e ∷ errs) =
        ran []
          (err (wrapped (decimal (length (e ∷ errs)) ++ codes " error(s)") (joined (e ∷ errs))))

    -- The pipeline from the retention on.
    unfoldable pub finish_pipeline : List Text → Run (Unit {0})
    finish_pipeline errs = elim (ports.apply_retention job.host job.policy) [
      | none ↦ publish ports.clock job retention_applied [] [] >> report errs
      | some e ↦ report (errs ++ wrapped (codes "apply retention") e ∷ [])
    ]

    unfoldable pub run_pipeline : Bool → Run (Unit {0})
    unfolding finish_pipeline
    run_pipeline enabled = do
      cfg ← ran [] ports.resolve_config
      fail_on (codes "instantiate plugin " ++ quoted job.plugin) (ports.factory cfg)
      publish ports.clock job plugin_discovery_started [] []
      resources ← or_fail (codes "discover on " ++ quoted job.host) ports.discover
      publish ports.clock job plugin_discovery_completed []
          ((codes "resource_count", decimal (length resources)) ∷ [])
      let (log, errs) = backup_resources ports.attempts enabled 0 resources
      before log (finish_pipeline errs)

    -- The last event of a job, and the status that it ends in.
    abbrev pub completion : Fallible (Unit {0}) → EventType × List (Text × Text) × JobStatus
    completion (ok u) = (backup_completed, [], completed)
    completion (err e) = (backup_failed, (codes "error", e) ∷ [], failed)

    abbrev pub job_error : Fallible (Unit {0}) → Option Text → Option RunError
    job_error (ok u) none = none
    job_error (ok u) (some e) = some (completion_not_recorded e)
    job_error (err cause) none = some (job_failed cause)
    job_error (err cause) (some e) = some (failure_not_recorded cause e)

    abbrev pub status_effect : JobStatus → Option Text → List Effect
    status_effect status none = status_set status ∷ []
    status_effect status (some e) = []

    -- `RunJob` behind the pipeline.
    unfoldable pub end_job : Run (Unit {0}) → List Effect × Option RunError
    end_job (ran log outcome) =
        let (type, fields, status) = completion outcome in
        elim (publish ports.clock job type [] fields) [
          | ran last r ↦ (
            log ++ (last ++ status_effect status (ports.record_status status)),
            job_error outcome (ports.record_status status),
          )
        ]

    -- `RunJob` behind its first write, by the error of that.
    unfoldable pub run_marked : Bool → Option Text → List Effect × Option RunError
    unfolding end_job run_pipeline
    run_marked enabled (some e) = ([], some not_started)
    run_marked enabled none = end_job (
        effect (status_set in_progress)
        >> publish ports.clock job backup_started [] []
        >> run_pipeline enabled)

    unfoldable pub start_job : Bool → List Effect × Option RunError
    unfolding run_marked
    start_job enabled = run_marked enabled ports.mark_in_progress

  -- `ports_of` are the calls with the storage that is chosen.
  module _ {C : Type 0} (ports_of : StorageChoice → Ports C) (ctl : Controller) where
    -- `RunJob` behind `StorageFor`.
    unfoldable pub run_stored : Bool → StorageChoice → List Effect × Option RunError
    run_stored enabled no_host = ([], some host_not_found)
    run_stored enabled undefined_storage = ([], some storage_not_defined)
    run_stored enabled default_storage = start_job (ports_of default_storage) enabled
    run_stored enabled (named_storage name) = start_job (ports_of (named_storage name)) enabled

    -- `RunJob` behind the look-up of the host.
    unfoldable pub run_found : Option Server → List Effect × Option RunError
    run_found none = ([], some host_not_found)
    run_found (some srv) =
        if any (text_eq job.plugin) ctl.factories
        then run_stored (resolve_verification ctl.verification srv.verification).enabled
            (storage_for ctl job.host)
        else ([], some plugin_not_registered)

    unfoldable pub run_job : List Effect × Option RunError
    run_job = run_found (lookup job.host ctl.inventory)
