-- ===== src/Modal.antt =====
-- web/src/components/TriggerBackupModal.tsx: the dialog that queues a backup. Its three effects run with
-- the change that triggers them; `sent` lists the requests that were made, the last one first.
pub mod Offers
pub mod Answers
pub mod Idle
pub mod Dialog
mod Tests
use backup_orchestration_pla.Common.{
  ℕ, zero, suc, ◌==◌, Bool, true, false, not, ◌&&◌, or_default, Option, none, some, List, [], ◌∷◌,
  ◌++◌, any, find, head?, if◌then◌else◌,
}
use backup_orchestration_pla.Common.Text.{Text, codes, text_eq, truthy, is_given}
use backup_orchestration_pla.Failure.{Failure, api_error, other_error, Outcome, resolved, rejected}
use backup_orchestration_pla.Wire.{Host, Job, TriggerBackupRequest}

pub record Modal : Type 0 where
  pub open_now : Bool
  pub hosts : List Host
  pub host : Text
  pub plugin : Text
  pub submitting : Bool
  pub error : Option Text
  pub queued_job_id : Option Text
  pub waiting : ℕ
  pub sent : List TriggerBackupRequest

-- `hosts[0]?.name ?? ''` and `hosts[0]?.plugins[0] ?? ''`
abbrev pub first_host : List Host → Text
first_host [] = []
first_host (h ∷ hs) = h.name

abbrev pub first_plugin : List Host → Text
first_plugin [] = []
first_plugin (h ∷ hs) = or_default (head? h.plugins) []

-- `hosts.find((h) => h.name === host)?.plugins ?? []`
abbrev pub plugins_of_found : Option Host → List Text
plugins_of_found none = []
plugins_of_found (some h) = h.plugins

unfoldable pub plugins_of : List Host → Text → List Text
plugins_of hosts host = plugins_of_found (find (λ h. text_eq h.name host) hosts)

-- `plugins.includes(plugin)`
unfoldable pub includes : List Text → Text → Bool
includes plugins plugin = any (text_eq plugin) plugins

abbrev pub adjusted : List Text → Text → Text
adjusted [] plugin = plugin
adjusted (p ∷ ps) plugin = if includes (p ∷ ps) plugin then plugin else p

-- The effect of `[host]`.
pub host_effect : Modal → Modal
host_effect s = record s { plugin = adjusted (plugins_of s.hosts s.host) s.plugin }

-- The effect of `[open]`, and that of `[host]` behind it; where the host stays, the latter finds the
-- host's first plugin chosen already.
pub open_effect : Modal → Modal
unfolding host_effect
open_effect s = host_effect (record s {
  host = first_host s.hosts;
  plugin = first_plugin s.hosts;
  submitting = false;
  error = none;
  queued_job_id = none;
})

abbrev pub trigger_failure : Failure → Text
trigger_failure (api_error status message) =
    if status == 401
    then codes "This token can't trigger backups. Reconnect with a write token to do this."
    else message
trigger_failure other_error = codes "Could not reach the controller."

-- `handleSubmit` up to its `await`.
pub handle_submit : Modal → Modal
handle_submit s =
    if truthy s.host && truthy s.plugin
    then record s {
      submitting = true;
      error = none;
      waiting = suc s.waiting;
      sent = record { host = s.host; plugin = s.plugin } ∷ s.sent;
    }
    else s

-- The rest of `handleSubmit` behind its `await`.
pub settle : Outcome Text → Modal → Modal
settle (resolved id) s = record s { queued_job_id = some id; submitting = false }
settle (rejected err) s = record s { error = some (trigger_failure err); submitting = false }

pub answer : ℕ → Outcome Text → Modal → Modal
unfolding settle
answer zero outcome s = s
answer (suc n) outcome s = settle outcome (record s { waiting = n })

-- The form is shown while the dialog is open and `queuedJobId` is falsy; its button is disabled while
-- submitting, and without a host or a plugin.
abbrev pub form_shown : Modal → Bool
form_shown s = s.open_now && not (is_given s.queued_job_id)

-- A selection is one of the options, and fires only for a host other than the present one; the answer to a request carries the id of the queued job.
pub data Event : Type 0 where
  opened closed submitted : Event
  hosts_loaded : List Host → Event
  host_selected plugin_selected : Text → Event
  answered : Outcome Text → Event

unfoldable pub step : Modal → Event → Modal
unfolding host_effect open_effect handle_submit answer
step s opened = if s.open_now then s else open_effect (record s { open_now = true })
step s closed = record s { open_now = false }
step s (hosts_loaded hosts) = record s { hosts = hosts }
step s (host_selected v) =
    if form_shown s && (any (λ h. text_eq h.name v) s.hosts && not (text_eq v s.host))
    then host_effect (record s { host = v })
    else s
step s (plugin_selected p) =
    if form_shown s && includes (plugins_of s.hosts s.host) p then record s { plugin = p } else s
step s submitted = if form_shown s && not s.submitting then handle_submit s else s
step s (answered outcome) = answer s.waiting outcome s

unfoldable pub run : Modal → List Event → Modal
run s [] = s
run s (e ∷ es) = run (step s e) es

-- The first render, closed.
unfoldable pub mount : List Host → Modal
mount hosts = record {
  open_now = false;
  hosts = hosts;
  host = first_host hosts;
  plugin = first_plugin hosts;
  submitting = false;
  error = none;
  queued_job_id = none;
  waiting = 0;
  sent = [];
}
