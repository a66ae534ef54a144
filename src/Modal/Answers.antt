-- ===== src/Modal/Answers.antt =====
-- The dialog and the answers to its requests: one at a time while it stays open, and a late answer to an
-- earlier opening.
use backup_orchestration_pla.Common.{
  ℕ, zero, suc, ◌≤◌, ◌≡◌, refl, true, false, none, some, List, [], ◌∷◌, All, arith, if◌then◌else◌,
}
use backup_orchestration_pla.Common.Text.{Text, truthy}
use backup_orchestration_pla.Failure.{Outcome, resolved, rejected}
use backup_orchestration_pla.Wire.{Host}
use backup_orchestration_pla.Modal.{
  Modal, Event, opened, closed, submitted, hosts_loaded, host_selected, plugin_selected, answered,
  trigger_failure, host_effect, open_effect, handle_submit, settle, answer, form_shown, step, run,
  mount,
}

-- While requests are sent and answered in one opening, the dialog knows of them all.
record Tracks (s : Modal) : Type 0 where
  counted : s.waiting ≡ (if s.submitting then 1 else 0)
  asleep : s.open_now ≡ false → s.waiting ≡ 0

abbrev pub StaysOpen : Event → Type 0
StaysOpen closed = ⊥
StaysOpen _ = Unit

answer-Tracks :
    (n : ℕ) (outcome : Outcome Text) (s : Modal)
    → s.waiting ≡ n
    → Tracks s
    → Tracks (answer n outcome s)
unfolding answer settle
answer-Tracks zero outcome s e h = h
answer-Tracks (suc n) (resolved id) s e h = ground arith
answer-Tracks (suc n) (rejected err) s e h = ground arith

step-Tracks : (s : Modal) (e : Event) → StaysOpen e → Tracks s → Tracks (step s e)
unfolding step open_effect host_effect handle_submit
step-Tracks s opened k h = ground arith
step-Tracks s closed k h = absurd k
step-Tracks s submitted k h = ground arith
step-Tracks s (hosts_loaded hosts) k h = record { counted = h.counted; asleep = h.asleep }
step-Tracks s (host_selected v) k h = ground arith
step-Tracks s (plugin_selected p) k h = ground arith
step-Tracks s (answered outcome) k h = answer-Tracks s.waiting outcome s refl h

run-Tracks : (s : Modal) (es : List Event) → All StaysOpen es → Tracks s → Tracks (run s es)
unfolding run
run-Tracks s [] k h = h
run-Tracks s (e ∷ es) k h = run-Tracks (step s e) es k.1 (step-Tracks s e k.0 h)

mount-Tracks : (hosts : List Host) → Tracks (mount hosts)
unfolding mount
mount-Tracks hosts = record { counted = refl; asleep = λ h. refl }

-- After any events since the first render among which the dialog is not closed, at most one request is in
-- flight.
pub one_request_at_a_time :
    (hosts : List Host) (es : List Event) → All StaysOpen es → (run (mount hosts) es).waiting ≤ 1
one_request_at_a_time hosts es k =
    let h = run-Tracks (mount hosts) es k (mount-Tracks hosts) in ground (arith, h.counted)

-- What the dialog shows when a request is answered.
abbrev pub Ended : Outcome Text → Modal → Modal → Type 0
Ended (resolved id) s t = (t.queued_job_id ≡ some id) × (t.error ≡ s.error)
Ended (rejected err) s t =
    (t.error ≡ some (trigger_failure err)) × (t.queued_job_id ≡ s.queued_job_id)

-- A form that is shown, not submitting, with a host and a plugin, sends exactly one request, for them; its answer ends the
-- submission, with the id of the queued job or with the error alone.
pub submission_ends :
    (s : Modal) (outcome : Outcome Text)
    → form_shown s ≡ true
    → s.submitting ≡ false
    → truthy s.host ≡ true
    → truthy s.plugin ≡ true
    → let w = step s submitted in
      let t = step w (answered outcome) in
      (w.sent ≡ record { host = s.host; plugin = s.plugin } ∷ s.sent)
      × (w.error ≡ none)
      × (w.submitting ≡ true)
      × (t.submitting ≡ false)
      × (t.waiting ≡ s.waiting)
      × (t.sent ≡ w.sent)
      × Ended outcome w t
unfolding step handle_submit answer settle
submission_ends s (resolved id) f b h p = ground arith
submission_ends s (rejected err) f b h p = ground arith

-- A dialog that is closed while a request is in flight and opened anew starts without a job and not
-- submitting; the late answer to the request then shows its job in the new opening.
pub late_answer_shows :
    (s : Modal) (id : Text) {n : ℕ}
    → s.open_now ≡ true
    → s.waiting ≡ suc n
    → let t = step (step s closed) opened in
      (t.queued_job_id ≡ none)
      × (t.submitting ≡ false)
      × (t.sent ≡ s.sent)
      × ((step t (answered (resolved id))).queued_job_id ≡ some id)
unfolding step open_effect host_effect answer settle
late_answer_shows s id o w = ground arith
