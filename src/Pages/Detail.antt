-- ===== src/Pages/Detail.antt =====
-- web/src/pages/JobDetailPage.tsx: a job that is polled, and its events, which are polled until the job has
-- ended. The interval of the second hook follows the value of the first. The page is mounted anew for every
-- job, since its path is the key of web/src/components/AppShell.tsx.
use backup_orchestration_pla.Common.{
  ℕ, ◌≡◌, ◌≢◌, ◌↔◌, refl, sym, ap, ◌∙◌, Bool, true, false, not, ◌&&◌, Option, none, some, List, [],
  ◌∷◌, arith, if◌then◌else◌,
}
use backup_orchestration_pla.Common.Text.{Text, is_given}
use backup_orchestration_pla.Failure.{Outcome}
use backup_orchestration_pla.Wire.{Job, BopEvent, JobStatus, queued, in_progress, completed, failed}
use backup_orchestration_pla.UseApi
use backup_orchestration_pla.UseApi.{ApiState, polls}
use backup_orchestration_pla.UseApi.Invariant.{Inv, step-Inv, mount-Inv}
use backup_orchestration_pla.UseApi.Frames.{
  KeepsInputs, step-inputs, interval-changed, mount-inputs,
}
use backup_orchestration_pla.Pages.{ends_job, is_terminal, events_interval}

pub record Detail : Type 0 where
  pub job : ApiState Text Job
  pub events : ApiState Text (List BopEvent)

pub data DetailEvent : Type 0 where
  job_answered : ℕ → Outcome Job → DetailEvent
  events_answered : ℕ → Outcome (List BopEvent) → DetailEvent
  job_ticked events_ticked job_retried events_retried : DetailEvent
  visibility : Bool → DetailEvent

-- An event of the first hook, and the effect of the second one's interval behind it. Where the interval is
-- what it was, the effect changes nothing.
pub update_job : UseApi.Event Text Job → Detail → Detail
update_job e s =
    let job = UseApi.step s.job e in
    record {
      job = job;
      events = UseApi.step s.events (UseApi.interval_changed (events_interval job.value));
    }

pub update_events : UseApi.Event Text (List BopEvent) → Detail → Detail
update_events e s = record s { events = UseApi.step s.events e }

unfoldable pub step : Detail → DetailEvent → Detail
unfolding update_job update_events
step s (job_answered id outcome) = update_job (UseApi.answered id outcome) s
step s (events_answered id outcome) = update_events (UseApi.answered id outcome) s
step s job_ticked = update_job UseApi.tick s
step s events_ticked = update_events UseApi.tick s
step s job_retried = if is_given s.job.error then update_job UseApi.reload s else s
step s events_retried = if is_given s.events.error then update_events UseApi.reload s else s
step s (visibility hidden) =
    update_events (UseApi.visibility hidden) (update_job (UseApi.visibility hidden) s)

unfoldable pub run : Detail → List DetailEvent → Detail
run s [] = s
run s (e ∷ es) = run (step s e) es

unfoldable pub mount : Text → Bool → Detail
mount id hidden = record {
  job = UseApi.mount id (some 5000) hidden;
  events = UseApi.mount id (some 5000) hidden;
}

-- The interval of the events is that of the job, and both hooks have their invariant.
record Follows (s : Detail) : Type 0 where
  interval : s.events.interval ≡ events_interval s.job.value
  job_inv : Inv s.job
  events_inv : Inv s.events

update_job-Follows : (e : UseApi.Event Text Job) (s : Detail) → Follows s → Follows (update_job e s)
unfolding update_job
update_job-Follows e s h = record {
  interval = interval-changed s.events (events_interval (UseApi.step s.job e).value);
  job_inv = step-Inv s.job e h.job_inv;
  events_inv =
      step-Inv s.events (UseApi.interval_changed (events_interval (UseApi.step s.job e).value))
        h.events_inv;
}

update_events-Follows :
    (e : UseApi.Event Text (List BopEvent)) (s : Detail)
    → KeepsInputs e
    → Follows s
    → Follows (update_events e s)
unfolding update_events
update_events-Follows e s k h = record {
  interval = (step-inputs s.events e k).0 ∙ h.interval;
  job_inv = h.job_inv;
  events_inv = step-Inv s.events e h.events_inv;
}

either-Follows : (b : Bool) {s t : Detail} → Follows s → Follows t → Follows (if b then s else t)
either-Follows true h k = h
either-Follows false h k = k

step-Follows : (s : Detail) (e : DetailEvent) → Follows s → Follows (step s e)
unfolding step
step-Follows s (job_answered id outcome) h = update_job-Follows (UseApi.answered id outcome) s h
step-Follows s (events_answered id outcome) h =
    update_events-Follows (UseApi.answered id outcome) s tt h
step-Follows s job_ticked h = update_job-Follows UseApi.tick s h
step-Follows s events_ticked h = update_events-Follows UseApi.tick s tt h
step-Follows s job_retried h =
    either-Follows (is_given s.job.error) (update_job-Follows UseApi.reload s h) h
step-Follows s events_retried h =
    either-Follows (is_given s.events.error) (update_events-Follows UseApi.reload s tt h) h
step-Follows s (visibility hidden) h =
    update_events-Follows (UseApi.visibility hidden) (update_job (UseApi.visibility hidden) s) tt
      (update_job-Follows (UseApi.visibility hidden) s h)

run-Follows : (s : Detail) (es : List DetailEvent) → Follows s → Follows (run s es)
unfolding run
run-Follows s [] h = h
run-Follows s (e ∷ es) h = run-Follows (step s e) es (step-Follows s e h)

mount-Follows : (id : Text) (hidden : Bool) → Follows (mount id hidden)
unfolding mount events_interval
mount-Follows id hidden =
    let events : ApiState Text (List BopEvent) = UseApi.mount id (some 5000) hidden in
    let job : ApiState Text Job = UseApi.mount id (some 5000) hidden in
    record {
      interval =
          (mount-inputs {A = List BopEvent} id (some 5000) hidden).0
          ∙ sym (ap events_interval (mount-inputs {A = Job} id (some 5000) hidden).2);
      job_inv = mount-Inv id (some 5000) hidden;
      events_inv = mount-Inv id (some 5000) hidden;
    }

polls-events_interval : (job : Option Job) → polls (events_interval job) ≡ not (is_terminal job)
unfolding events_interval
polls-events_interval job = ground arith

-- As far as it is known, the job has not ended.
abbrev pub Unended : Option Job → Type 0
Unended none = Unit
Unended (some job) = (job.status ≢ completed) × (job.status ≢ failed)

ends_iff : (st : JobStatus) → (ends_job st ≡ false) ↔ ((st ≢ completed) × (st ≢ failed))
ends_iff queued = ((λ h. ((λ e. cc e), (λ e. cc e))), (λ h. refl))
ends_iff in_progress = ((λ h. ((λ e. cc e), (λ e. cc e))), (λ h. refl))
ends_iff completed = ((λ h. absurd (cc h)), (λ h. absurd (h.0 refl)))
ends_iff failed = ((λ h. absurd (cc h)), (λ h. absurd (h.1 refl)))

Unended-iff : (job : Option Job) → (is_terminal job ≡ false) ↔ Unended job
unfolding is_terminal
Unended-iff none = ((λ h. tt), (λ h. refl))
Unended-iff (some job) = ends_iff job.status

-- After any events of the page the timer of the events runs exactly while the tab is shown and the job, as far as
-- it is known, has neither completed nor failed.
pub events_polled_until_end :
    (id : Text) (hidden : Bool) (es : List DetailEvent)
    → let s = run (mount id hidden) es in
      (s.events.timer ≡ true) ↔ ((s.events.hidden ≡ false) × Unended s.job.value)
events_polled_until_end id hidden es =
    let s = run (mount id hidden) es in
    let h = run-Follows (mount id hidden) es (mount-Follows id hidden) in
    let timer : s.events.timer ≡ (not (is_terminal s.job.value) && not s.events.hidden) =
      h.events_inv.polling
      ∙ ap (λ b. b && not s.events.hidden)
          (ap polls h.interval ∙ polls-events_interval s.job.value) in
    (
      (λ e. (ground (arith, e, timer), (Unended-iff s.job.value).0 (ground (arith, e, timer)))),
      (λ k. timer ∙ rw ((Unended-iff s.job.value).1 k.1, k.0) refl),
    )
