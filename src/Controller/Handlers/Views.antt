-- ===== src/Controller/Handlers/Views.antt =====
-- The console's pages over the controller's handlers: web/src/pages/JobsPage.tsx and EventsPage.tsx, each request of
-- which internal/api/handlers.go answers from the store of some moment, or refuses.
use backup_orchestration_pla.Common.{
  Bool, ℕ, ℤ, ◌≡◌, false, Option, none, some, or_default, List, [],
}
use backup_orchestration_pla.Common.Text.{Text}
use backup_orchestration_pla.Failure.{resolved}
use backup_orchestration_pla.Client.{conclude}
use backup_orchestration_pla.Client.Paths
use backup_orchestration_pla.Client.Paths.{decimal}
use backup_orchestration_pla.Wire.{Job, BopEvent}
use backup_orchestration_pla.Pages.{jobs_shown}
use backup_orchestration_pla.Pages.Jobs
use backup_orchestration_pla.Pages.Jobs.{Choice, JobsEvent, AllMatch, settled, shown-AllMatch}
use backup_orchestration_pla.Pages.EventLog
use backup_orchestration_pla.Controller.Metadata.{Store}
use backup_orchestration_pla.Controller.Handlers.{list_jobs_handler, list_events_handler}
use backup_orchestration_pla.Controller.Handlers.Listings.{status_param, listed_jobs-AllMatch}

module _ (reason rfc3339 : ℕ → Text) where
  -- The client has the jobs from an answer to a request for the choice.
  pub record JobsServed (choice : Choice) (jobs : List Job) : Type 0 where
    pub fault : Option Text
    pub store : Store
    pub served :
        conclude (list_jobs_handler reason rfc3339 fault (status_param reason rfc3339 choice) store)
        ≡ resolved (some jobs)

  -- If every answer to the jobs' request of the jobs page is one of the controller, from its store of some moment,
  -- to a request with the status it was made under, then after any events of the page, among which the
  -- dependencies of the jobs change by the choice of a status alone, while its jobs have neither a spinner nor
  -- an error, the jobs that it has are such an answer to the status chosen, and all in its table have this status.
  pub jobs_page_of_controller :
      (lte : Text → Text → Bool) (hidden : Bool) (es : List JobsEvent) {jobs : List Job}
      → Jobs.Honest JobsServed (Jobs.mount hidden) es
      → let s = Jobs.run (Jobs.mount hidden) es in
        s.launcher.jobs.loading ≡ false
        → s.launcher.jobs.error ≡ none
        → s.launcher.jobs.value ≡ some jobs
        → JobsServed s.status jobs × AllMatch s.status (jobs_shown lte (some jobs))
  jobs_page_of_controller lte hidden es {jobs} h l e v =
      let s = Jobs.run (Jobs.mount hidden) es in
      let served = settled JobsServed hidden es jobs h l e v in
      (
        served,
        shown-AllMatch lte s.status (some jobs) (λ js q.
            listed_jobs-AllMatch reason rfc3339 served.fault s.status served.store
              (cc (served.served, q))),
      )

  -- The parameter `limit` of a request.
  abbrev pub limit_param : Option ℕ → Text
  limit_param none = []
  limit_param (some n) = decimal n

  module _ (atoi : Text → Option ℤ) where
    -- The client has the events from an answer to a request with the filter.
    pub record EventsServed (f : Paths.EventFilter) (rows : List BopEvent) : Type 0 where
      pub fault : Option Text
      pub store : Store
      pub served :
          conclude (
            list_events_handler reason rfc3339 atoi fault
              (limit_param f.limit)
              (or_default f.job_id [])
              (or_default f.host [])
              store)
          ≡ resolved (some rows)
