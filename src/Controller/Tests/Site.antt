-- ===== src/Controller/Tests/Site.antt =====
-- The controller's process at a small table.
use backup_orchestration_pla.Common.{
  ℕ, ◌≡◌, ◌⊎◌, refl, true, Option, none, some, List, [], ◌∷◌, arith,
}
use backup_orchestration_pla.Common.Text.{Text, codes}
use backup_orchestration_pla.Wire.{queued, in_progress, TriggerBackupRequest}
use backup_orchestration_pla.Pages.{insert, sort}
use backup_orchestration_pla.Controller.Metadata.{
  StoreError, fail_orphaned_jobs, list_jobs_by_status,
}
use backup_orchestration_pla.Controller.Queue.{new_memory, enqueue}
use backup_orchestration_pla.Controller.Site
use backup_orchestration_pla.Controller.Site.{
  Creation, SiteEvent, triggered, taken, restarted, trigger_backup_handler, requested_job, restart,
}
use backup_orchestration_pla.Controller.Site.Durable.{Durable}
use backup_orchestration_pla.Controller.Site.Restart.{Recovered, restart-Recovered}
use backup_orchestration_pla.Controller.Site.Runs.{run-Durable}
use backup_orchestration_pla.Controller.Site.Drain.{
  Ending, succeeded, broken, Drained, rounds, restart-Drained,
}
use backup_orchestration_pla.Controller.Site.Oldest.{Oldest}
use backup_orchestration_pla.Controller.Site.Trigger.{Refused, Taken, trigger-Taken}
use backup_orchestration_pla.Controller.Tests.{test_inventory, job_of, stored_with}

abbrev no_text : ℕ → Text
no_text n = []

abbrev no_error : StoreError → Text
no_error e = []

-- A table of an orphan and three queued jobs, found by a controller whose queue holds two.
abbrev found : Site.Site
found = record {
  store = stored_with (
      job_of (codes "j1") 9 queued
      ∷ job_of (codes "j2") 4 in_progress
      ∷ job_of (codes "j3") 5 queued
      ∷ job_of (codes "j4") 7 queued
      ∷ []);
  queue = new_memory 2;
  running = none;
}

abbrev creation : Creation
creation = record { create_fault = none; event_fault = none; nanos = 3; now = 11; event_at = 12 }

abbrev request : TriggerBackupRequest
request = record { host = codes "web"; plugin = codes "filesystem" }

abbrev builds : Text → Text → Option Text
builds host plugin = none

restart-Recovered_example : Recovered found (restart found)
restart-Recovered_example = restart-Recovered found (refl, (refl, (refl, (refl, tt))))

abbrev two_endings : List Ending
two_endings = broken ∷ succeeded ∷ []

restart-Drained_example :
    Oldest 2 found.store.jobs (restart found).queue.jobs
    × Drained
        (restart found).queue.jobs
        two_endings
        (Site.run no_text no_text no_error test_inventory (restart found) (rounds two_endings))
unfolding restart enqueue list_jobs_by_status fail_orphaned_jobs insert sort
restart-Drained_example =
    restart-Drained no_text no_text no_error test_inventory found two_endings
      (refl, (refl, (refl, (refl, tt)))) refl

-- A process without a job.
abbrev empty_site : Site.Site
empty_site = record { store = stored_with []; queue = new_memory 1; running = none }

abbrev day : List SiteEvent
day = triggered creation builds (some request) ∷ taken true ∷ restarted ∷ []

run-Durable_example : Durable (Site.run no_text no_text no_error test_inventory empty_site day)
run-Durable_example =
    run-Durable no_text no_text no_error test_inventory empty_site day
      (tt, (tt, tt, omega arith), tt)

trigger-Taken_example :
    Refused creation none request (requested_job test_inventory creation request) empty_site (
      trigger_backup_handler no_text no_text no_error test_inventory creation builds
        (some request)
        empty_site)
    ⊎ Taken creation none request (requested_job test_inventory creation request) empty_site (
        trigger_backup_handler no_text no_text no_error test_inventory creation builds
          (some request)
          empty_site)
trigger-Taken_example =
    trigger-Taken no_text no_text no_error test_inventory creation builds request empty_site

-- The queue of a start: the two oldest of the three.
restart_takes_oldest :
    (restart found).queue.jobs ≡ job_of (codes "j3") 5 queued ∷ job_of (codes "j4") 7 queued ∷ []
unfolding restart enqueue list_jobs_by_status fail_orphaned_jobs insert sort
restart_takes_oldest = refl
