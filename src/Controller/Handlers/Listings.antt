-- ===== src/Controller/Handlers/Listings.antt =====
-- What the lists of the read endpoints hold.
use backup_orchestration_pla.Common.{
  ℕ, ℤ, pos, negsuc, zero, suc, ◌≤◌, ◌≡◌, ◌≢◌, ◌⊎◌, refl, sym, ap, subst, true, Option, none, some,
  Option-cases, inl, inr, List, [], ◌∷◌, map, All, All-take, All_imp, All-map, filter-All, length,
  length-take_le, length-map, arith,
}
use backup_orchestration_pla.Common.Text.{Text, text_eq_iff}
use backup_orchestration_pla.Failure.{resolved}
use backup_orchestration_pla.Client.{conclude}
use backup_orchestration_pla.Wire
use backup_orchestration_pla.Wire.{JobStatus, queued, in_progress, completed, failed, BopEvent}
use backup_orchestration_pla.Pages.Sorting.{All-sort}
use backup_orchestration_pla.Pages.Calls.{status_text}
use backup_orchestration_pla.Pages.Jobs.{same_status, AllMatch, Matches}
use backup_orchestration_pla.Controller.Core.{Job}
use backup_orchestration_pla.Controller.Metadata.{
  Store, EventFilter, holds, admits, limited, list_jobs_by_status, list_events_page,
}
use backup_orchestration_pla.Controller.Handlers.{
  new_job_summary, new_event_summary, list_jobs_handler, list_events_handler, events_limit,
  max_events_limit, default_events_limit, answer, write_error,
}

same_status_eq : (a b : JobStatus) → same_status a b ≡ true → a ≡ b
same_status_eq a b h = ground arith

module _ {A B : Type 0} (reason : ℕ → Text) (f : A → B) where
  -- The client takes an answer of the handlers as the list of rows, or as an error.
  answered_rows :
      (fault : Option Text) (rows : List A) {got : List B}
      → conclude (answer reason fault f rows) ≡ resolved (some got)
      → map f rows ≡ got
  unfolding conclude
  answered_rows none rows h = ground arith
  answered_rows (some e) rows h = absurd (cc h)

-- The client takes no error for a result.
refused :
    {B : Type 0} (reason : ℕ → Text) (msg : Text) {got : Option B}
    → ¬ (conclude (write_error reason 400 msg) ≡ resolved got)
unfolding conclude
refused reason msg h = cc h

module _ (reason rfc3339 : ℕ → Text) where
  by_status-AllMatch :
      (status : JobStatus) (s : Store)
      → AllMatch (some status) (map (new_job_summary rfc3339) (list_jobs_by_status status s))
  unfolding list_jobs_by_status new_job_summary
  by_status-AllMatch status s = All-map (Matches (some status)) (new_job_summary rfc3339) _ (
      (All-sort (λ (j : Job). j.status ≡ status) _ _).1 (
        All_imp (λ (j : Job). same_status j.status status ≡ true) _
          (λ j. same_status_eq j.status status)
          (filter-All (λ (j : Job). same_status j.status status) s.jobs)))

  -- The parameter `status` of the request for a choice, empty for all statuses.
  abbrev pub status_param : Option JobStatus → Text
  status_param none = []
  status_param (some status) = status_text status

  All-Matches_none : (jobs : List Wire.Job) → AllMatch none jobs
  All-Matches_none [] = tt
  All-Matches_none (j ∷ jobs) = (tt, All-Matches_none jobs)

  -- The jobs that the client makes of an answer to a choice have the chosen status.
  pub listed_jobs-AllMatch :
      (fault : Option Text) (choice : Option JobStatus) (s : Store) {jobs : List Wire.Job}
      → conclude (list_jobs_handler reason rfc3339 fault (status_param choice) s)
        ≡ resolved (some jobs)
      → AllMatch choice jobs
  unfolding list_jobs_handler
  listed_jobs-AllMatch fault none s {jobs} h = All-Matches_none jobs
  listed_jobs-AllMatch fault (some queued) s h =
      subst (AllMatch (some queued)) (answered_rows reason _ fault _ h)
        (by_status-AllMatch queued s)
  listed_jobs-AllMatch fault (some in_progress) s h =
      subst (AllMatch (some in_progress)) (answered_rows reason _ fault _ h)
        (by_status-AllMatch in_progress s)
  listed_jobs-AllMatch fault (some completed) s h =
      subst (AllMatch (some completed)) (answered_rows reason _ fault _ h)
        (by_status-AllMatch completed s)
  listed_jobs-AllMatch fault (some failed) s h =
      subst (AllMatch (some failed)) (answered_rows reason _ fault _ h)
        (by_status-AllMatch failed s)

  limited-All :
      {A : Type 0} (P : A → Type 0) (n : ℕ) (rows : List A) → All P rows → All P (limited n rows)
  limited-All P zero rows h = h
  limited-All P (suc n) rows h = All-take P (suc n) rows h

  length-limited : {A : Type 0} (n : ℕ) (rows : List A) → n ≢ 0 → length (limited n rows) ≤ n
  length-limited zero rows h = absurd (h refl)
  length-limited (suc n) rows h = length-take_le (suc n) rows

  page-admits : (f : EventFilter) (s : Store) → All (λ e. admits f e ≡ true) (list_events_page f s)
  unfolding list_events_page
  page-admits f s =
      limited-All (λ e. admits f e ≡ true) f.limit _
        ((All-sort (λ e. admits f e ≡ true) _ _).1 (filter-All (admits f) s.events))

  length_page :
      (f : EventFilter) (s : Store) → f.limit ≢ 0 → length (list_events_page f s) ≤ f.limit
  unfolding list_events_page
  length_page f s h = length-limited f.limit _ h

  -- A value that is what was asked for, if anything was.
  abbrev pub Asked : (wanted value : Text) → Type 0
  Asked wanted value = (wanted ≡ []) ⊎ (value ≡ wanted)

  -- An event of the filter that a request names.
  abbrev pub OfFilter : (job_id host : Text) → BopEvent → Type 0
  OfFilter job_id host e = Asked job_id e.job_id × Asked host e.host

  holds-Asked : (wanted value : Text) → holds wanted value ≡ true → Asked wanted value
  holds-Asked [] value h = inl refl
  holds-Asked (c ∷ wanted) value h = inr (sym ((text_eq_iff (c ∷ wanted) value).0 h))

  page-OfFilter :
      (f : EventFilter) (s : Store)
      → All (OfFilter f.job_id f.host) (map (new_event_summary rfc3339) (list_events_page f s))
  unfolding new_event_summary
  page-OfFilter f s = All-map (OfFilter f.job_id f.host) (new_event_summary rfc3339) _ (
      All_imp (λ e. admits f e ≡ true) _
        (λ e h.
          (holds-Asked f.job_id e.job_id (ground arith), holds-Asked f.host e.host (ground arith)))
        (page-admits f s))

  module _ (atoi : Text → Option ℤ) where
    events_limit_bounds :
        (limit : Text) {n : ℕ}
        → events_limit reason rfc3339 atoi limit ≡ some n
        → (n ≢ 0)
          × (n ≤ max_events_limit)
          × (limit ≡ [] → n ≡ default_events_limit)
          × ((k : ℕ) → limit ≢ [] → atoi limit ≡ some (pos k) → n ≤ k)
    events_limit_bounds [] h = ground arith
    events_limit_bounds (c ∷ limit) h = elim (Option-cases (atoi (c ∷ limit))) [
      | inl e ↦ absurd (cc (e, h))
      | inr (pos zero, e) ↦ ground (arith, e)
      | inr (pos (suc k), e) ↦ ground (arith, e)
      | inr (negsuc k, e) ↦ ground (arith, e)
    ]

    -- The events that the client makes of an answer: each has the job and the host that were asked for, and there
    -- are at most 1000 of them, at most 100 where no limit is asked for, and at most as many as are asked for.
    pub listed_events :
        (fault : Option Text) (limit job_id host : Text) (s : Store) {rows : List BopEvent}
        → conclude (list_events_handler reason rfc3339 atoi fault limit job_id host s)
          ≡ resolved (some rows)
        → All (OfFilter job_id host) rows
          × (length rows ≤ max_events_limit)
          × (limit ≡ [] → length rows ≤ default_events_limit)
          × ((k : ℕ) → limit ≢ [] → atoi limit ≡ some (pos k) → length rows ≤ k)
    unfolding list_events_handler
    listed_events fault limit job_id host s {rows} h =
        elim (Option-cases (events_limit reason rfc3339 atoi limit)) [
          | inl e ↦ absurd (refused reason _ (rw (e, list_events_handler) at h))
          | inr (n, e) ↦
              let f : EventFilter = record { job_id = job_id; host = host; limit = n } in
              let b = events_limit_bounds limit e in
              let got =
                answered_rows reason (new_event_summary rfc3339) fault (list_events_page f s)
                  (rw (e, list_events_handler) at h) in
              let size = length_page f s b.0 in
              let all = subst (All (OfFilter job_id host)) got (page-OfFilter f s) in
              let count = ap length got in
              let same = length-map (new_event_summary rfc3339) (list_events_page f s) in
              (
                all,
                omega (arith, size, b.1, count, same),
                (λ q. omega (arith, size, b.2 q, count, same)),
                (λ k q a. omega (arith, size, b.3 k q a, count, same)),
              )
        ]
