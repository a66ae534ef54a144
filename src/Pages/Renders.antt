-- ===== src/Pages/Renders.antt =====
-- When the tables of the pages render, and how the dashboard's table is related to that of the jobs page.
use mathlib.Core.Option
use backup_orchestration_pla.Common.{
  ℕ, ◌≡◌, ◌≢◌, ◌↔◌, refl, ap, subst, Bool, Option, none, some, some_inj, List, [], ◌∷◌, take, All,
}
use backup_orchestration_pla.Common.Text.{Text}
use backup_orchestration_pla.Uri.{encode_uri_component}
use backup_orchestration_pla.Uri.WellFormed.{WellFormed, empty, encode_succeeds_iff}
use backup_orchestration_pla.Format.{Offset}
use backup_orchestration_pla.UseApi.{ApiState}
use backup_orchestration_pla.Wire.{Host, Job, BopEvent}
use backup_orchestration_pla.View.{render_all}
use backup_orchestration_pla.View.Renders.{
  Renders, map-Renders, render_all-Renders, render_all-take,
}
use backup_orchestration_pla.Pages.Sorting.{All-sort}
use backup_orchestration_pla.View.Rows.{
  job_link, informix_link, JobRow, job_row, host_row, event_row, event_job,
}
use backup_orchestration_pla.Pages.{listed, sort, jobs_shown, recent_jobs, newest_first}
use backup_orchestration_pla.Pages.Jobs.{JobsPage}
use backup_orchestration_pla.Pages.EventLog.{EventLog}
use backup_orchestration_pla.Pages.Tables.{TableView, hosts_view, jobs_view, events_view}
use backup_orchestration_pla.Pages.Dashboard.{Dashboard, DashboardView, dashboard_view}

chain : {A B C : Type 0} → (A ↔ B) → (B ↔ C) → (A ↔ C)
chain f g = ((λ a. g.0 (f.0 a)), (λ c. f.1 (g.1 c)))

All_iff :
    {A : Type 0} {P Q : A → Type 0} → ((x : A) → P x ↔ Q x) → (xs : List A) → All P xs ↔ All Q xs
All_iff h [] = ((λ a. a), (λ a. a))
All_iff h (x ∷ xs) =
    let rest = All_iff h xs in ((λ a. ((h x).0 a.0, rest.0 a.1)), (λ a. ((h x).1 a.0, rest.1 a.1)))

host_row-Renders : (h : Host) → Renders (host_row h) ↔ WellFormed h.name
unfolding host_row informix_link
host_row-Renders h =
    chain (map-Renders _ (informix_link h.name))
      (chain (map-Renders _ (encode_uri_component h.name)) (encode_succeeds_iff h.name))

job_link-Renders : (id : Text) → Renders (job_link id) ↔ WellFormed id
unfolding job_link
job_link-Renders id = chain (map-Renders _ (encode_uri_component id)) (encode_succeeds_iff id)

-- An event without a job has no link.
event_job-Renders : (id : Text) → Renders (event_job id) ↔ WellFormed id
event_job-Renders [] = ((λ h. empty), (λ w e. cc e))
event_job-Renders (c ∷ s) = chain (map-Renders _ (job_link (c ∷ s))) (job_link-Renders (c ∷ s))

-- The names and ids of a table that its links can spell.
abbrev pub NamesSpelled : List Host → Type 0
NamesSpelled hosts = All (λ (h : Host). WellFormed h.name) hosts

abbrev pub JobsSpelled : List Job → Type 0
JobsSpelled jobs = All (λ (j : Job). WellFormed j.id) jobs

abbrev pub EventsSpelled : List BopEvent → Type 0
EventsSpelled events = All (λ (e : BopEvent). WellFormed e.job_id) events

map-some :
    {A B : Type 0} (f : A → B) (o : Option A) {b : B}
    → Option.map f o ≡ some b
    → (a : A) × (o ≡ some a) × (f a ≡ b)
map-some f none p = absurd (cc p)
map-some f (some a) p = (a, refl, some_inj p)

module _ (offset_of : Text → Offset) (exact_of : Text → Text) where
  job_row-Renders : (j : Job) → Renders (job_row offset_of exact_of j) ↔ WellFormed j.id
  unfolding job_row
  job_row-Renders j = chain (map-Renders _ (job_link j.id)) (job_link-Renders j.id)

  event_row-Renders :
      (e : BopEvent) → Renders (event_row offset_of exact_of e) ↔ WellFormed e.job_id
  unfolding event_row
  event_row-Renders e = chain (map-Renders _ (event_job e.job_id)) (event_job-Renders e.job_id)

  -- The tables of the hosts, the jobs and the events render exactly if every name of a host, id of a job or job
  -- id of an event in them is a text in which each surrogate stands in a pair.
  pub tables_render_iff :
      (lte : Text → Text → Bool) (hosts : ApiState (Unit {0}) (List Host)) (jobs : JobsPage)
      (log : EventLog)
      → ((hosts_view hosts ≢ none) ↔ NamesSpelled (listed hosts.value))
        × ((jobs_view offset_of exact_of lte jobs ≢ none)
            ↔ JobsSpelled (listed jobs.launcher.jobs.value))
        × ((events_view offset_of exact_of log ≢ none) ↔ EventsSpelled (listed log.events.value))
  unfolding hosts_view jobs_view events_view jobs_shown
  tables_render_iff lte hosts jobs log =
      let sorted = sort (newest_first lte) (listed jobs.launcher.jobs.value) in
      (
        chain (map-Renders _ (render_all host_row (listed hosts.value))) (
            chain (render_all-Renders host_row (listed hosts.value))
              (All_iff host_row-Renders (listed hosts.value))),
        chain (map-Renders _ (render_all (job_row offset_of exact_of) sorted)) (
            chain (render_all-Renders (job_row offset_of exact_of) sorted) (
              chain (All_iff job_row-Renders sorted) (
                All-sort (λ (j : Job). WellFormed j.id) (newest_first lte)
                  (listed jobs.launcher.jobs.value)))),
        chain (map-Renders _ (render_all (event_row offset_of exact_of) (listed log.events.value)))
            (chain (render_all-Renders (event_row offset_of exact_of) (listed log.events.value))
              (All_iff event_row-Renders (listed log.events.value))),
      )

  -- Where the jobs page renders, the dashboard renders over the same jobs, and its table has the first eight rows
  -- of the table of the jobs page.
  pub dashboard_shows_first_jobs :
      (lte : Text → Text → Bool) (today : ℕ) (utc_day : ℕ → ℕ) (label_of : ℕ → Text)
      (page : JobsPage) (dashboard : Dashboard) {v : TableView JobRow}
      → page.launcher.jobs.value ≡ dashboard.launcher.jobs.value
      → jobs_view offset_of exact_of lte page ≡ some v
      → (w : DashboardView) × (dashboard_view lte offset_of exact_of today utc_day label_of
            dashboard
          ≡ some w)
        × (w.rows ≡ take 8 v.rows)
  unfolding jobs_view dashboard_view recent_jobs
  dashboard_shows_first_jobs lte today utc_day label_of page dashboard {v} same p =
      let shown = jobs_shown lte page.launcher.jobs.value in
      let row = job_row offset_of exact_of in
      let rows = map-some _ (render_all row shown) p in
      let firsts : render_all row (take 8 (jobs_shown lte dashboard.launcher.jobs.value))
          ≡ some (take 8 rows.0) =
        subst (λ o. render_all row (take 8 (jobs_shown lte o)) ≡ some (take 8 rows.0)) same
          (render_all-take row 8 shown rows.1) in
      (_, ap (Option.map _) firsts, ap (λ (t : TableView JobRow). take 8 t.rows) rows.2)
