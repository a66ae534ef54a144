-- ===== src/Pages/EventLog.antt =====
-- web/src/pages/EventsPage.tsx: the fields of the filter, what was applied of them, and the hook that asks
-- for the events under what was applied. `answered` may be the answer to any request in flight.
use backup_orchestration_pla.Common.{
  ℕ, ◌≡◌, refl, sym, ap, ap₂, subst, ◌∙◌, Bool, true, false, ◌&&◌, Bool-cases, inl, inr, none, List,
  [], ◌∷◌, some, if◌then◌else◌, arith,
}
use backup_orchestration_pla.Common.Text.{Text, text_eq, text_eq_iff, is_given}
use backup_orchestration_pla.Client.Paths.{EventFilter}
use backup_orchestration_pla.Failure.{Outcome}
use backup_orchestration_pla.Wire.{BopEvent}
use backup_orchestration_pla.UseApi
use backup_orchestration_pla.UseApi.{ApiState}
use backup_orchestration_pla.UseApi.Invariant.{Inv, step-Inv, mount-Inv}
use backup_orchestration_pla.UseApi.Current.{Says, Current, step-Current, mount-Current}
use backup_orchestration_pla.UseApi.Frames.{KeepsInputs, step-inputs, deps-changed, mount-inputs}
use backup_orchestration_pla.Pages.{FilterForm, apply_filters, filter_of}

pub record EventLog : Type 0 where
  pub form : FilterForm
  pub events : ApiState (Text × Text) (List BopEvent)

pub data LogEvent : Type 0 where
  answered : ℕ → Outcome (List BopEvent) → LogEvent
  host_typed job_typed : Text → LogEvent
  submitted retried : LogEvent
  visibility : Bool → LogEvent

-- `[appliedHost, appliedJobId]`
abbrev pub applied : FilterForm → Text × Text
applied form = (form.applied_host, form.applied_job_id)

abbrev pub same_applied : FilterForm → FilterForm → Bool
same_applied f g =
    text_eq f.applied_host g.applied_host && text_eq f.applied_job_id g.applied_job_id

pub update_events : UseApi.Event (Text × Text) (List BopEvent) → EventLog → EventLog
update_events e s = record s { events = UseApi.step s.events e }

-- The form is submitted: `applyFilters()`, and the effects of the hook where what is applied has changed.
unfoldable pub submit : EventLog → EventLog
unfolding apply_filters
submit s =
    let form = apply_filters s.form in
    let events = UseApi.step s.events (UseApi.deps_changed (applied form) none) in
    if same_applied form s.form
    then record s { form = form }
    else record { form = form; events = events }

unfoldable pub step : EventLog → LogEvent → EventLog
unfolding update_events submit
step s (answered id outcome) = update_events (UseApi.answered id outcome) s
step s (host_typed text) = record s { form = record s.form { host = text } }
step s (job_typed text) = record s { form = record s.form { job_id = text } }
step s submitted = submit s
step s retried = if is_given s.events.error then update_events UseApi.reload s else s
step s (visibility hidden) = update_events (UseApi.visibility hidden) s

unfoldable pub run : EventLog → List LogEvent → EventLog
run s [] = s
run s (e ∷ es) = run (step s e) es

unfoldable pub mount : Bool → EventLog
mount hidden = record {
  form = record { host = []; job_id = []; applied_host = []; applied_job_id = [] };
  events = UseApi.mount ([], []) none hidden;
}

-- The filter of a request that is made under what was applied.
abbrev pub asked : Text × Text → EventFilter
unfolding filter_of
asked (host, job_id) =
    filter_of (record { host = []; job_id = []; applied_host = host; applied_job_id = job_id })

asked-applied : (form : FilterForm) → asked (applied form) ≡ filter_of form
unfolding filter_of
asked-applied form = refl

same_applied_iff : (f g : FilterForm) → same_applied f g ≡ true → applied f ≡ applied g
same_applied_iff f g e =
    ap₂ (λ (h j : Text). (h, j)) ((text_eq_iff f.applied_host g.applied_host).0 (ground arith))
      ((text_eq_iff f.applied_job_id g.applied_job_id).0 (ground arith))

-- What the events of a filter are, by the environment.
module _ (Of : EventFilter → List BopEvent → Type 0) where
  abbrev OfAsked : Text × Text → List BopEvent → Type 0
  OfAsked d = Of (asked d)

  abbrev pub Answers : EventLog → LogEvent → Type 0
  Answers s (answered id outcome) = Says OfAsked s.events (UseApi.answered id outcome)
  Answers s _ = Unit

  abbrev pub Honest : EventLog → List LogEvent → Type 0
  Honest s [] = Unit
  Honest s (e ∷ es) = Answers s e × Honest (step s e) es

  record Shows (s : EventLog) : Type 0 where
    chosen : s.events.deps ≡ applied s.form
    inv : Inv s.events
    fits : Current OfAsked s.events

  update_events-Shows :
      (e : UseApi.Event (Text × Text) (List BopEvent)) (s : EventLog)
      → KeepsInputs e
      → Says OfAsked s.events e
      → Shows s
      → Shows (update_events e s)
  unfolding update_events
  update_events-Shows e s k says h = record {
    chosen = (step-inputs s.events e k).1 ∙ h.chosen;
    inv = step-Inv s.events e h.inv;
    fits = step-Current OfAsked s.events e says h.inv h.fits;
  }

  submit-Shows : (s : EventLog) → Shows s → Shows (submit s)
  unfolding submit
  submit-Shows s h =
      let form = apply_filters s.form in
      elim (Bool-cases (same_applied form s.form)) [
        | inl same ↦ rw same (record {
          chosen = h.chosen ∙ sym (same_applied_iff form s.form same);
          inv = h.inv;
          fits = h.fits;
        })
        | inr other ↦ rw other (record {
          chosen = (deps-changed s.events (applied form) none).0;
          inv = step-Inv s.events (UseApi.deps_changed (applied form) none) h.inv;
          fits =
              step-Current OfAsked s.events (UseApi.deps_changed (applied form) none) tt h.inv
                h.fits;
        })
      ]

  retried-Shows :
      (b : Bool) (s : EventLog) → Shows s → Shows (if b then update_events UseApi.reload s else s)
  retried-Shows true s h = update_events-Shows UseApi.reload s tt tt h
  retried-Shows false s h = h

  step-Shows : (s : EventLog) (e : LogEvent) → Answers s e → Shows s → Shows (step s e)
  unfolding step
  step-Shows s (answered id outcome) a h = update_events-Shows (UseApi.answered id outcome) s tt a h
  step-Shows s (host_typed text) a h = record { chosen = h.chosen; inv = h.inv; fits = h.fits }
  step-Shows s (job_typed text) a h = record { chosen = h.chosen; inv = h.inv; fits = h.fits }
  step-Shows s submitted a h = submit-Shows s h
  step-Shows s retried a h = retried-Shows (is_given s.events.error) s h
  step-Shows s (visibility hidden) a h = update_events-Shows (UseApi.visibility hidden) s tt tt h

  run-Shows : (s : EventLog) (es : List LogEvent) → Honest s es → Shows s → Shows (run s es)
  unfolding run
  run-Shows s [] a h = h
  run-Shows s (e ∷ es) a h = run-Shows (step s e) es a.1 (step-Shows s e a.0 h)

  mount-Shows : (hidden : Bool) → Shows (mount hidden)
  unfolding mount
  mount-Shows hidden = record {
    chosen = (mount-inputs {A = List BopEvent} ([], []) none hidden).1;
    inv = mount-Inv ([], []) none hidden;
    fits = mount-Current OfAsked ([], []) none hidden;
  }

  -- If every answer to a request with a filter is a list of events of that filter, then after any events of the
  -- page, while it has neither a spinner nor an error, the events on show are of the filter that was applied
  -- last, whatever is typed by then.
  pub events_of_applied_filter :
      (hidden : Bool) (es : List LogEvent) (rows : List BopEvent)
      → Honest (mount hidden) es
      → let s = run (mount hidden) es in
        s.events.loading ≡ false
        → s.events.error ≡ none
        → s.events.value ≡ some rows
        → Of (filter_of s.form) rows
  events_of_applied_filter hidden es rows a l e v =
      let s = run (mount hidden) es in
      let h = run-Shows (mount hidden) es a (mount-Shows hidden) in
      subst (λ f. Of f rows) (ap asked h.chosen ∙ asked-applied s.form) (h.fits.fits rows l e v)
