-- ===== src/Controller/Tests/Pipeline.antt =====
-- Runs of a job.
use backup_orchestration_pla.Common.{ℕ, ◌≡◌, refl, true, none, some, List, [], ◌∷◌, All}
use backup_orchestration_pla.Common.Text.{Text, codes}
use backup_orchestration_pla.Client.Paths.{decimal_fuel}
use backup_orchestration_pla.Wire.{queued, in_progress, completed, failed}
use backup_orchestration_pla.Seal.{same_type, has_type, seal_tier_for_events, restored, SealTier}
use backup_orchestration_pla.Controller.Core.{Job, new_job}
use backup_orchestration_pla.Controller.Pipeline.{removed, backup_resource}
use backup_orchestration_pla.Controller.Pipeline.Attempts.{
  log_of, removals, last?, Trusted, attempt-Trusted, attempt_cleans_up,
}
use backup_orchestration_pla.Controller.RunJob.{
  run_job, run_found, run_stored, storage_for, start_job, backup_resources,
}
use backup_orchestration_pla.Controller.RunJob.Resources.{statuses}
use backup_orchestration_pla.Controller.RunJob.Seals.{tier_of}
use backup_orchestration_pla.Controller.RunJob.Ends.{Ends, run_job-Ends}
use backup_orchestration_pla.Controller.Handlers.{new_event_summary}
use backup_orchestration_pla.Controller.Tests.{
  test_controller, job_of, etc, attempt_with, ports_with, etc_artifact, weekly_policy,
}

abbrev no_date : ℕ → Text
no_date t = []

abbrev first_of : List Text → Text
first_of [] = []
first_of (t ∷ ts) = t

abbrev nightly : Job
nightly = job_of (codes "j1") 5 queued

new_job_test : (new_job (codes "web") (codes "logs") weekly_policy 12 3).id ≡ codes "web-logs-12"
unfolding new_job decimal_fuel
new_job_test = refl

runs : Unit {0}
unfolding run_job run_found run_stored storage_for start_job backup_resources backup_resource
    new_event_summary same_type has_type seal_tier_for_events decimal_fuel
runs = tt

verified_run :
    let (log, error) = run_job (λ t. t) first_of nightly (ports_with none) test_controller in
    (statuses log ≡ in_progress ∷ completed ∷ [])
    × (error ≡ none)
    × (tier_of no_date log ≡ restored)
unfolding runs
verified_run = (refl, refl, refl)

failing_run :
    let (log, error) =
      run_job (λ t. t) first_of nightly (ports_with (some (codes "no scratch"))) test_controller in
    (statuses log ≡ in_progress ∷ failed ∷ []) × (tier_of no_date log ≡ SealTier.failed)
unfolding runs
failing_run = (refl, refl)

run_job-Ends_example :
    Ends
      (λ t. t)
      first_of
      nightly
      no_date
      (ports_with none)
      test_controller
      (run_job (λ t. t) first_of nightly (ports_with none) test_controller)
run_job-Ends_example =
    run_job-Ends (λ t. t) first_of nightly no_date (ports_with none) test_controller

attempt-Trusted_example :
    All
      (Trusted nightly (attempt_with none) etc)
      (log_of (backup_resource nightly (attempt_with none) etc true))
attempt-Trusted_example = attempt-Trusted nightly (attempt_with none) etc true

attempt_cleans_up_example :
    let log = log_of (backup_resource nightly (attempt_with (some (codes "full"))) etc true) in
    (removals log ≡ codes "/tmp/etc.tar" ∷ []) × (last? log ≡ some (removed (codes "/tmp/etc.tar")))
attempt_cleans_up_example =
    attempt_cleans_up nightly (attempt_with (some (codes "full"))) etc true etc_artifact refl refl
