-- ===== src/Modal/Dialog.antt =====
-- What the dialog renders, and its buttons: the form with its selectors, or the note that a backup is queued.
use mathlib.Core.Option
use backup_orchestration_pla.Common.{
  ◌≡◌, ◌≢◌, refl, sym, subst, Bool, true, false, not, ◌||◌, Bool-cases, inl, inr, or_default,
  Option, none, some, List, [], ◌∷◌, map, All, if◌then◌else◌, arith,
}
use backup_orchestration_pla.Common.Text.{Text, codes, text_eq, text_eq_iff, truthy, is_given}
use backup_orchestration_pla.Wire.{Host}
use backup_orchestration_pla.View.Rows.{job_link}
use backup_orchestration_pla.Modal.{
  Modal, Event, closed, submitted, hosts_loaded, plugins_of, includes, handle_submit, step, run,
  mount,
}
use backup_orchestration_pla.Modal.Offers.{Offered, KeepsHosts, Fits, run-Fits}
use backup_orchestration_pla.Modal.Idle.{StaysShut, run-Idle, mount-Idle, loaded-Fits}

-- `error` is the text that is shown, if any; `label` is that of the button.
pub record FormView : Type 0 where
  pub host_options : List Text
  pub host : Text
  pub plugin_options : List Text
  pub plugin : Text
  pub error : Option Text
  pub disabled : Bool
  pub label : Text

-- The dialog is closed, says that the job is queued, or shows its form.
pub data DialogView : Type 0 where
  nothing : DialogView
  queued_view : Text → DialogView
  form_view : FormView → DialogView

-- `{error && …}`
abbrev pub shown_error : Option Text → Option Text
shown_error none = none
shown_error (some e) = if truthy e then some e else none

unfoldable pub form_of : Modal → FormView
form_of s = record {
  host_options = map (λ (h : Host). h.name) s.hosts;
  host = s.host;
  plugin_options = plugins_of s.hosts s.host;
  plugin = s.plugin;
  error = shown_error s.error;
  disabled = s.submitting || (not (truthy s.host) || not (truthy s.plugin));
  label = if s.submitting then codes "Queuing…" else codes "Trigger backup";
}

unfoldable pub dialog_view : Modal → DialogView
unfolding form_of
dialog_view s =
    if s.open_now
    then (if is_given s.queued_job_id
        then queued_view (or_default s.queued_job_id [])
        else form_view (form_of s))
    else nothing

-- "View job": the path that the console goes to, and the dialog behind `onClose`; `none` where the path throws.
unfoldable pub view_job : Text → Modal → Option (Text × Modal)
view_job id s = Option.map (λ path. (path, step s closed)) (job_link id)

-- The form is shown.
record IsForm (s : Modal) (v : FormView) : Type 0 where
  open_now : s.open_now ≡ true
  unqueued : is_given s.queued_job_id ≡ false
  form : v ≡ form_of s

form_inj : {v w : FormView} → form_view v ≡ form_view w → w ≡ v
form_inj e = cc e

shown-IsForm : (s : Modal) (v : FormView) → dialog_view s ≡ form_view v → IsForm s v
unfolding dialog_view
shown-IsForm s v e = elim (Bool-cases s.open_now) [
  | inr shut ↦ absurd (cc (rw shut at e))
  | inl o ↦ elim (Bool-cases (is_given s.queued_job_id)) [
    | inl queued ↦ absurd (cc (rw (o, queued) at e))
    | inr form ↦ record { open_now = o; unqueued = form; form = form_inj (rw (o, form) at e) }
  ]
]

option_of_offer :
    (hosts : List Host) (host plugin : Text)
    → Offered hosts host plugin
    → includes (map (λ (h : Host). h.name) hosts) host ≡ true
unfolding includes plugins_of
option_of_offer [] host plugin o = cc o
option_of_offer (x ∷ hs) host plugin o = elim (Bool-cases (text_eq x.name host)) [
  | inl same ↦ rw ((text_eq_iff host x.name).1 (sym ((text_eq_iff x.name host).0 same))) refl
  | inr other ↦ ground (arith, option_of_offer hs host plugin (rw other at o))
]

-- The button does what the form shows.
button_agrees :
    (s : Modal) (v : FormView)
    → IsForm s v
    → (v.disabled ≡ true → step s submitted ≡ s)
      × (v.disabled ≡ false
          → (step s submitted).sent ≡ record { host = v.host; plugin = v.plugin } ∷ s.sent)
unfolding step handle_submit form_of
button_agrees s v f =
    subst
      (λ (w : FormView).
        (w.disabled ≡ true → step s submitted ≡ s)
        × (w.disabled ≡ false
            → (step s submitted).sent ≡ record { host = w.host; plugin = w.plugin } ∷ s.sent))
      (sym f.form) (of_form s.submitting refl)
  where
    of_form :
        (b : Bool)
        → s.submitting ≡ b
        → ((form_of s).disabled ≡ true → step s submitted ≡ s)
          × ((form_of s).disabled ≡ false
              → (step s submitted).sent ≡ record { host = s.host; plugin = s.plugin } ∷ s.sent)
    of_form b e = rw (f.open_now, f.unqueued) (ground arith)

form_options :
    (hs : List Host) (s : Modal) (v : FormView)
    → Fits hs s
    → IsForm s v
    → (includes v.host_options v.host ≡ true) × (includes v.plugin_options v.plugin ≡ true)
unfolding form_of
form_options hs s v h f =
    let offered : Offered s.hosts s.host s.plugin = rw h.given (h.choice f.open_now) in
    rw f.form (option_of_offer s.hosts s.host s.plugin offered, offered)

-- The dialog is mounted with any hosts, as with none, and stays shut until an inventory is loaded that is not empty
-- and each host of which has a plugin. After any events behind it that do not load the inventory anew, a form on
-- show has its host and its plugin among the options of its selectors; its button, when disabled, does nothing,
-- and otherwise asks for a backup of that host and plugin.
pub form_sends_its_choice :
    (first hs : List Host) (before es : List Event) (v : FormView)
    → All StaysShut before
    → hs ≢ []
    → All (λ h. h.plugins ≢ []) hs
    → All KeepsHosts es
    → let s = run (step (run (mount first) before) (hosts_loaded hs)) es in
      dialog_view s ≡ form_view v
      → (includes v.host_options v.host ≡ true)
        × (includes v.plugin_options v.plugin ≡ true)
        × (v.disabled ≡ true → step s submitted ≡ s)
        × (v.disabled ≡ false
            → (step s submitted).sent ≡ record { host = v.host; plugin = v.plugin } ∷ s.sent)
form_sends_its_choice first hs before es v b n p k e =
    let shut = run (mount first) before in
    let s = run (step shut (hosts_loaded hs)) es in
    let f = shown-IsForm s v e in
    let loaded = loaded-Fits hs shut (run-Idle (mount first) before b (mount-Idle first)) in
    let o = form_options hs s v (run-Fits hs (step shut (hosts_loaded hs)) es n p k loaded) f in
    let sent = button_agrees s v f in (o.0, o.1, sent.0, sent.1)
