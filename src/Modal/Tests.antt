-- ===== src/Modal/Tests.antt =====
-- The dialog at a concrete inventory.
use backup_orchestration_pla.Common.{◌≡◌, refl, true, false, none, some, List, [], ◌∷◌}
use backup_orchestration_pla.Common.Text.{codes}
use backup_orchestration_pla.Failure.{resolved}
use backup_orchestration_pla.Wire.{Host}
use backup_orchestration_pla.Modal.{
  Modal, Event, opened, closed, hosts_loaded, submitted, host_selected, answered, step, run, mount,
  host_effect, open_effect, handle_submit, settle, answer, plugins_of, includes,
}
use backup_orchestration_pla.Modal.Dialog.{
  FormView, queued_view, dialog_view, view_job, form_sends_its_choice,
}
use backup_orchestration_pla.View.Rows.{job_link}
use backup_orchestration_pla.Uri.{encode_uri_component, scalars, classify, encode_scalar}
use backup_orchestration_pla.Modal.Answers.{late_answer_shows}

dialog : Unit {0}
unfolding run step mount host_effect open_effect handle_submit settle answer plugins_of includes
dialog = tt

abbrev web : Host
web = record {
  name = codes "web";
  host = codes "10.0.0.1";
  plugins = codes "filesystem" ∷ [];
  schedule = codes "0 2 * * *";
}

abbrev db : Host
db = record {
  name = codes "db";
  host = codes "10.0.0.2";
  plugins = codes "postgres" ∷ codes "informix" ∷ [];
  schedule = codes "0 3 * * *";
}

abbrev inventory : List Host
inventory = web ∷ db ∷ []

abbrev backup : List Event
backup = opened ∷ host_selected (codes "db") ∷ submitted ∷ []

backup_of_db :
    (run (mount inventory) backup).sent
    ≡ record { host = codes "db"; plugin = codes "postgres" } ∷ []
unfolding dialog
backup_of_db = refl

abbrev open_dialog : Modal
open_dialog = step (mount inventory) opened

abbrev in_flight : Modal
in_flight = run (mount inventory) backup

late_answer_shows_example :
    let t = step (step in_flight closed) opened in
    (t.queued_job_id ≡ none)
    × (t.submitting ≡ false)
    × (t.sent ≡ in_flight.sent)
    × ((step t (answered (resolved (codes "job-1")))).queued_job_id ≡ some (codes "job-1"))
unfolding dialog
late_answer_shows_example = late_answer_shows in_flight (codes "job-1") {n = 0} refl refl

abbrev chosen : List Event
chosen = opened ∷ host_selected (codes "db") ∷ []

abbrev chosen_form : FormView
chosen_form = record {
  host_options = codes "web" ∷ codes "db" ∷ [];
  host = codes "db";
  plugin_options = codes "postgres" ∷ codes "informix" ∷ [];
  plugin = codes "postgres";
  error = none;
  disabled = false;
  label = codes "Trigger backup";
}

-- The dialog of a page whose inventory is loaded behind the mount.
abbrev loaded_dialog : Modal
loaded_dialog = step (run (mount []) (closed ∷ [])) (hosts_loaded inventory)

form_sends_its_choice_example :
    (includes (codes "web" ∷ codes "db" ∷ []) (codes "db") ≡ true)
    × (includes (codes "postgres" ∷ codes "informix" ∷ []) (codes "postgres") ≡ true)
    × (false ≡ true → step (run loaded_dialog chosen) submitted ≡ run loaded_dialog chosen)
    × (false ≡ false
        → (step (run loaded_dialog chosen) submitted).sent
          ≡ record { host = codes "db"; plugin = codes "postgres" }
            ∷ (run loaded_dialog chosen).sent)
unfolding dialog dialog_view
form_sends_its_choice_example =
    form_sends_its_choice [] inventory (closed ∷ []) chosen chosen_form (tt, tt) (λ e. cc)
      ((λ e. cc), ((λ e. cc), tt)) (tt, (tt, tt)) refl

queued_dialog :
    (dialog_view (step in_flight (answered (resolved (codes "job-1"))))
      ≡ queued_view (codes "job-1"))
    × (view_job (codes "job-1") in_flight ≡ some (codes "/jobs/job-1", step in_flight closed))
unfolding dialog dialog_view view_job job_link encode_uri_component scalars classify encode_scalar
queued_dialog = (refl, refl)
