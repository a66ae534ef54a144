-- ===== src/Controller/RunJob/Ends.antt =====
-- `RunJob` from its look-ups on: the row and the seal of every run.
use backup_orchestration_pla.Common.{
  ℕ, ◌≡◌, ◌≢◌, ◌↔◌, refl, sym, Bool, true, false, Option, none, some, List, [], any, if◌then◌else◌,
}
use backup_orchestration_pla.Common.Text.{Text, text_eq}
use backup_orchestration_pla.Seal
use backup_orchestration_pla.Seal.{
  has_type, same_type, seal_tier_for_events, SealTier, restored, storage,
}
use backup_orchestration_pla.Controller.Core.{Resource, Job, ok}
use backup_orchestration_pla.Controller.Inventory.{Server, lookup}
use backup_orchestration_pla.Controller.Pipeline.{Effect}
use backup_orchestration_pla.Controller.RunJob.{
  Controller, StorageChoice, Ports, RunError, host_not_found, plugin_not_registered,
  storage_not_defined, storage_for, run_job, run_found, run_stored, start_job, no_host,
  undefined_storage, default_storage, named_storage, resolve_verification,
}
use backup_orchestration_pla.Controller.RunJob.Seals.{
  written, is_failure, tier_of, earned, run_marked_seal,
}
use backup_orchestration_pla.Controller.RunJob.Resources.{statuses}

module _ (quoted : Text → Text) (joined : List Text → Text) (job : Job) {C : Type 0} where
  -- What a run says of the row and of the seal.
  abbrev pub Ends :
      (ℕ → Text) → (StorageChoice → Ports C) → Controller → List Effect × Option RunError → Type 0
  Ends rfc3339 ports_of ctl t =
      (statuses t.0 ≡ written t.1)
      × ((tier_of rfc3339 t.0 ≡ Seal.failed) ↔ (is_failure t.1 ≡ true))
      × (statuses t.0 ≢ []
          → is_failure t.1 ≡ false
          → (srv : Server) × (choice : StorageChoice) × (resources : List Resource) × (lookup
                job.host ctl.inventory
              ≡ some srv)
            × ((ports_of choice).discover ≡ ok resources)
            × (tier_of rfc3339 t.0
                ≡ earned (resolve_verification ctl.verification srv.verification).enabled
                    resources))

  unstarted-Ends :
      (rfc3339 : ℕ → Text) (ports_of : StorageChoice → Ports C) (ctl : Controller)
      (error : RunError)
      → written (some error) ≡ []
      → is_failure (some error) ≡ false
      → Ends rfc3339 ports_of ctl ([], some error)
  unfolding seal_tier_for_events has_type
  unstarted-Ends rfc3339 ports_of ctl error w f =
      (sym w, ((λ q. cc q), (λ q. absurd (cc (q, f)))), (λ q. absurd (q refl)))

  started-Ends :
      (rfc3339 : ℕ → Text) (ports_of : StorageChoice → Ports C) (ctl : Controller) (srv : Server)
      (choice : StorageChoice)
      → lookup job.host ctl.inventory ≡ some srv
      → Ends rfc3339 ports_of ctl (
          start_job quoted joined job
            (ports_of choice)
            (resolve_verification ctl.verification srv.verification).enabled)
  unfolding start_job
  started-Ends rfc3339 ports_of ctl srv choice found =
      let ports = ports_of choice in
      let t =
        run_marked_seal quoted joined job rfc3339 ports
          (resolve_verification ctl.verification srv.verification).enabled ports.mark_in_progress in
      (t.0, t.1, (λ q f. let r = t.2 q f in (srv, choice, r.0, found, r.1, r.2)))

  stored-Ends :
      (rfc3339 : ℕ → Text) (ports_of : StorageChoice → Ports C) (ctl : Controller) (srv : Server)
      (choice : StorageChoice)
      → lookup job.host ctl.inventory ≡ some srv
      → Ends rfc3339 ports_of ctl (
          run_stored quoted joined job ports_of ctl
            (resolve_verification ctl.verification srv.verification).enabled
            choice)
  unfolding run_stored
  stored-Ends rfc3339 ports_of ctl srv no_host found =
      unstarted-Ends rfc3339 ports_of ctl host_not_found refl refl
  stored-Ends rfc3339 ports_of ctl srv undefined_storage found =
      unstarted-Ends rfc3339 ports_of ctl storage_not_defined refl refl
  stored-Ends rfc3339 ports_of ctl srv default_storage found =
      started-Ends rfc3339 ports_of ctl srv default_storage found
  stored-Ends rfc3339 ports_of ctl srv (named_storage name) found =
      started-Ends rfc3339 ports_of ctl srv (named_storage name) found

  either-Ends :
      (rfc3339 : ℕ → Text) (ports_of : StorageChoice → Ports C) (ctl : Controller) (b : Bool)
      (t u : List Effect × Option RunError)
      → Ends rfc3339 ports_of ctl t
      → Ends rfc3339 ports_of ctl u
      → Ends rfc3339 ports_of ctl (if b then t else u)
  either-Ends rfc3339 ports_of ctl true t u h k = h
  either-Ends rfc3339 ports_of ctl false t u h k = k

  found-Ends :
      (rfc3339 : ℕ → Text) (ports_of : StorageChoice → Ports C) (ctl : Controller)
      (o : Option Server)
      → lookup job.host ctl.inventory ≡ o
      → Ends rfc3339 ports_of ctl (run_found quoted joined job ports_of ctl o)
  unfolding run_found
  found-Ends rfc3339 ports_of ctl none found =
      unstarted-Ends rfc3339 ports_of ctl host_not_found refl refl
  found-Ends rfc3339 ports_of ctl (some srv) found =
      either-Ends rfc3339 ports_of ctl (any (text_eq job.plugin) ctl.factories) _ _
        (stored-Ends rfc3339 ports_of ctl srv (storage_for ctl job.host) found)
        (unstarted-Ends rfc3339 ports_of ctl plugin_not_registered refl refl)

  -- A run writes to the job's row what its result says: nothing if it could not start, else in_progress, and then
  -- completed or failed, unless this last write fails. The seal of the events that it publishes is the failure
  -- exactly if the job failed; if it was started and did not fail, the seal is that of its resources, which were
  -- discovered: restore-tested where the verification of its host is enabled, storage where not, and none
  -- without resources.
  pub run_job-Ends :
      (rfc3339 : ℕ → Text) (ports_of : StorageChoice → Ports C) (ctl : Controller)
      → Ends rfc3339 ports_of ctl (run_job quoted joined job ports_of ctl)
  unfolding run_job
  run_job-Ends rfc3339 ports_of ctl =
      found-Ends rfc3339 ports_of ctl (lookup job.host ctl.inventory) refl
