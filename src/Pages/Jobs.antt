-- ===== src/Pages/Jobs.antt =====
-- web/src/pages/JobsPage.tsx: the launcher with a status that its jobs are asked for by.
use backup_orchestration_pla.Common.{
  ◌≡◌, refl, subst, ◌∙◌, Bool, true, false, Bool-cases, inl, inr, Option, none, some, List, [], ◌∷◌,
  All, if◌then◌else◌,
}
use backup_orchestration_pla.Common.Text.{Text, codes, is_given}
use backup_orchestration_pla.Wire.{Job, JobStatus, queued, in_progress, completed, failed}
use backup_orchestration_pla.UseApi
use backup_orchestration_pla.UseApi.{ApiState}
use backup_orchestration_pla.UseApi.Invariant.{Inv, step-Inv, mount-Inv}
use backup_orchestration_pla.UseApi.Current.{Says, Current, step-Current, mount-Current}
use backup_orchestration_pla.UseApi.Frames.{KeepsInputs, step-inputs, deps-changed, mount-inputs}
use backup_orchestration_pla.Pages.{jobs_shown, newest_first, listed}
use backup_orchestration_pla.Pages.Sorting.{All-sort}
use backup_orchestration_pla.Pages.Launcher
use backup_orchestration_pla.Pages.Launcher.{
  Launcher, LauncherEvent, hosts_answered, jobs_answered, jobs_deps, ticked, retried,
  trigger_clicked, closed, submitted, visibility, host_selected, plugin_selected, trigger_answered,
  update_hosts, update_jobs, show, close, can_trigger,
}

-- The value of `status`: `none` is the empty text, for all statuses.
abbrev pub Choice : Type 0
Choice = Option JobStatus

-- `STATUS_OPTIONS`
abbrev pub status_options : List (Choice × Text)
status_options =
    (none, codes "All statuses")
    ∷ (some queued, codes "Queued")
    ∷ (some in_progress, codes "Running")
    ∷ (some completed, codes "Succeeded")
    ∷ (some failed, codes "Failed")
    ∷ []

abbrev pub same_status : JobStatus → JobStatus → Bool
same_status queued queued = true
same_status in_progress in_progress = true
same_status completed completed = true
same_status failed failed = true
same_status _ _ = false

abbrev pub same_choice : Choice → Choice → Bool
same_choice none none = true
same_choice (some a) (some b) = same_status a b
same_choice _ _ = false

pub record JobsPage : Type 0 where
  pub status : Choice
  pub launcher : Launcher Choice

-- `jobs_deps` of the launcher is no event of its own here: it comes with a change of the status.
pub data JobsEvent : Type 0 where
  status_selected : Choice → JobsEvent
  launched : LauncherEvent Choice → JobsEvent

pub set_status : Choice → JobsPage → JobsPage
set_status v s =
    if same_choice v s.status
    then s
    else record { status = v; launcher = Launcher.step s.launcher (jobs_deps v) }

unfoldable pub step : JobsPage → JobsEvent → JobsPage
unfolding set_status
step s (status_selected v) = set_status v s
step s (launched e) = record s { launcher = Launcher.step s.launcher e }

unfoldable pub run : JobsPage → List JobsEvent → JobsPage
run s [] = s
run s (e ∷ es) = run (step s e) es

unfoldable pub mount : Bool → JobsPage
mount hidden = record { status = none; launcher = Launcher.mount none hidden }

module _ (Of : Choice → List Job → Type 0) where
  -- What an answer to the jobs' hook is, by the environment. The page does not pass `jobs_deps` on.
  abbrev pub Answers : JobsPage → JobsEvent → Type 0
  Answers s (launched (jobs_answered id outcome)) =
      Says Of s.launcher.jobs (UseApi.answered id outcome)
  Answers s (launched (jobs_deps d)) = ⊥
  Answers s _ = Unit

  abbrev pub Honest : JobsPage → List JobsEvent → Type 0
  Honest s [] = Unit
  Honest s (e ∷ es) = Answers s e × Honest (step s e) es

  record Shows (status : Choice) (jobs : ApiState Choice (List Job)) : Type 0 where
    chosen : jobs.deps ≡ status
    inv : Inv jobs
    fits : Current Of jobs

  jobs-Shows :
      (status : Choice) (jobs : ApiState Choice (List Job)) (e : UseApi.Event Choice (List Job))
      → KeepsInputs e
      → Says Of jobs e
      → Shows status jobs
      → Shows status (UseApi.step jobs e)
  jobs-Shows status jobs e k says h = record {
    chosen = (step-inputs jobs e k).1 ∙ h.chosen;
    inv = step-Inv jobs e h.inv;
    fits = step-Current Of jobs e says h.inv h.fits;
  }

  either-Shows :
      (b : Bool) (status : Choice) (s t : Launcher Choice)
      → Shows status s.jobs
      → Shows status t.jobs
      → Shows status (if b then s else t).jobs
  either-Shows true status s t h k = h
  either-Shows false status s t h k = k

  launched-Shows :
      (s : JobsPage) (e : LauncherEvent Choice)
      → Answers s (launched e)
      → Shows s.status s.launcher.jobs
      → Shows s.status (Launcher.step s.launcher e).jobs
  unfolding Launcher.step
  launched-Shows s (hosts_answered id outcome) a h = h
  launched-Shows s (jobs_answered id outcome) a h =
      jobs-Shows s.status s.launcher.jobs (UseApi.answered id outcome) tt a h
  launched-Shows s (jobs_deps d) a h = absurd a
  launched-Shows s ticked a h = jobs-Shows s.status s.launcher.jobs UseApi.tick tt tt h
  launched-Shows s retried a h =
      either-Shows (is_given s.launcher.jobs.error) s.status (update_jobs UseApi.reload s.launcher)
        s.launcher (jobs-Shows s.status s.launcher.jobs UseApi.reload tt tt h) h
  launched-Shows s (visibility hidden) a h =
      jobs-Shows s.status s.launcher.jobs (UseApi.visibility hidden) tt tt h
  launched-Shows s trigger_clicked a h =
      either-Shows (can_trigger (listed s.launcher.hosts.value)) s.status (show s.launcher)
        s.launcher h h
  launched-Shows s closed a h =
      either-Shows s.launcher.show_trigger s.status (close s.launcher) s.launcher
        (jobs-Shows s.status s.launcher.jobs UseApi.reload tt tt h) h
  launched-Shows s submitted a h = h
  launched-Shows s (host_selected v) a h = h
  launched-Shows s (plugin_selected q) a h = h
  launched-Shows s (trigger_answered outcome) a h = h

  set_status-Shows :
      (v : Choice) (s : JobsPage)
      → Shows s.status s.launcher.jobs
      → let t = set_status v s in Shows t.status t.launcher.jobs
  unfolding set_status Launcher.step
  set_status-Shows v s h = elim (Bool-cases (same_choice v s.status)) [
    | inl same ↦ rw same h
    | inr other ↦ rw other (record {
      chosen = (deps-changed s.launcher.jobs v (some 5000)).0;
      inv = step-Inv s.launcher.jobs (UseApi.deps_changed v (some 5000)) h.inv;
      fits = step-Current Of s.launcher.jobs (UseApi.deps_changed v (some 5000)) tt h.inv h.fits;
    })
  ]

  step-Shows :
      (s : JobsPage) (e : JobsEvent)
      → Answers s e
      → Shows s.status s.launcher.jobs
      → let t = step s e in Shows t.status t.launcher.jobs
  unfolding step
  step-Shows s (status_selected v) a h = set_status-Shows v s h
  step-Shows s (launched e) a h = launched-Shows s e a h

  run-Shows :
      (s : JobsPage) (es : List JobsEvent)
      → Honest s es
      → Shows s.status s.launcher.jobs
      → let t = run s es in Shows t.status t.launcher.jobs
  unfolding run
  run-Shows s [] a h = h
  run-Shows s (e ∷ es) a h = run-Shows (step s e) es a.1 (step-Shows s e a.0 h)

  mount-Shows : (hidden : Bool) → let s = mount hidden in Shows s.status s.launcher.jobs
  unfolding mount Launcher.mount
  mount-Shows hidden = record {
    chosen = (mount-inputs {A = List Job} none (some 5000) hidden).1;
    inv = mount-Inv none (some 5000) hidden;
    fits = mount-Current Of none (some 5000) hidden;
  }

  pub settled :
      (hidden : Bool) (es : List JobsEvent) (jobs : List Job)
      → Honest (mount hidden) es
      → let s = run (mount hidden) es in
        s.launcher.jobs.loading ≡ false
        → s.launcher.jobs.error ≡ none
        → s.launcher.jobs.value ≡ some jobs
        → Of s.status jobs
  settled hidden es jobs a l e v =
      let s = run (mount hidden) es in
      let h = run-Shows (mount hidden) es a (mount-Shows hidden) in
      subst (λ c. Of c jobs) h.chosen (h.fits.fits jobs l e v)

-- A job that the page may list under a choice.
abbrev pub Matches : Choice → Job → Type 0
Matches none job = Unit
Matches (some status) job = job.status ≡ status

abbrev pub AllMatch : Choice → List Job → Type 0
AllMatch choice jobs = All (Matches choice) jobs

pub shown-AllMatch :
    (lte : Text → Text → Bool) (choice : Choice) (value : Option (List Job))
    → ((jobs : List Job) → value ≡ some jobs → AllMatch choice jobs)
    → AllMatch choice (jobs_shown lte value)
unfolding jobs_shown
shown-AllMatch lte choice none h = (All-sort (Matches choice) (newest_first lte) []).1 tt
shown-AllMatch lte choice (some jobs) h =
    (All-sort (Matches choice) (newest_first lte) jobs).1 (h jobs refl)

-- If the controller answers a request for a status with jobs of that status, then after any events of the page,
-- among which the dependencies of the jobs change by the choice of a status alone, while its jobs have neither a
-- spinner nor an error, every job in its table has the status chosen.
pub jobs_of_chosen_status :
    (lte : Text → Text → Bool) (hidden : Bool) (es : List JobsEvent)
    → Honest AllMatch (mount hidden) es
    → let s = run (mount hidden) es in
      s.launcher.jobs.loading ≡ false
      → s.launcher.jobs.error ≡ none
      → AllMatch s.status (jobs_shown lte s.launcher.jobs.value)
jobs_of_chosen_status lte hidden es a l e =
    let s = run (mount hidden) es in
    shown-AllMatch lte s.status s.launcher.jobs.value
      (λ jobs v. settled AllMatch hidden es jobs a l e v)
