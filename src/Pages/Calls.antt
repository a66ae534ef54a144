-- ===== src/Pages/Calls.antt =====
-- The calls of the object `api` that the pages hand to their hooks, under the dependencies of the hook.
use mathlib.Core.Option
use backup_orchestration_pla.Common.{
  ◌≡◌, ◌↔◌, refl, sym, ap, ◌∙◌, true, false, Option, Bool-cases, inl, inr, none, some, some_inj, [],
  ◌∷◌, ◌++◌, All, or_default, ◌==◌, if◌then◌else◌,
}
use backup_orchestration_pla.Common.Text.{Text, codes}
use backup_orchestration_pla.Uri.{encode_uri_component, scalars, classify, encode_scalar}
use backup_orchestration_pla.Uri.Scalars.{IsUnit}
use backup_orchestration_pla.Uri.RoundTrip.{decode-encode}
use backup_orchestration_pla.Uri.Decode.{decode_uri_component}
use backup_orchestration_pla.Client.{Response, responded}
use backup_orchestration_pla.Client.Paths.{
  ApiCall, list_hosts, list_jobs, get_job, list_snapshots, list_events, trigger_backup,
  set_plugin_config, PluginConfig, path_of, suppresses,
}
use backup_orchestration_pla.Auth.{Console, call_answered, step}
use backup_orchestration_pla.Auth.Invariant.{Inv}
use backup_orchestration_pla.Auth.Reload.{call_answered_cases}
use backup_orchestration_pla.Wire.{
  JobStatus, queued, in_progress, completed, failed, TriggerBackupRequest,
}
use backup_orchestration_pla.Pages.Jobs.{Choice}
use backup_orchestration_pla.Pages.EventLog.{asked}

-- A fetcher of a page, with the dependencies that it closes over.
pub data PageCall : Type 0 where
  inventory recent_events : PageCall
  jobs_of : Choice → PageCall
  job_of job_events snapshots_of : Text → PageCall
  event_log : Text × Text → PageCall

-- A status as the wire spells it.
abbrev pub status_text : JobStatus → Text
status_text queued = codes "queued"
status_text in_progress = codes "in_progress"
status_text completed = codes "completed"
status_text failed = codes "failed"

-- The inventory is asked for by the dashboard and the hosts, jobs and snapshots pages, the recent events by the
-- dashboard; a job and its events by its page, the event log by the events page. `none` is
-- `Promise.resolve([])`, the snapshots page without a host.
abbrev pub call_of : PageCall → Option ApiCall
call_of inventory = some list_hosts
call_of recent_events = some (list_events (record { job_id = none; host = none; limit = some 8 }))
call_of (jobs_of choice) = some (list_jobs (Option.map status_text choice))
call_of (job_of id) = some (get_job id)
call_of (job_events id) =
    some (list_events (record { job_id = some id; host = none; limit = some 200 }))
call_of (snapshots_of []) = none
call_of (snapshots_of (c ∷ host)) = some (list_snapshots (c ∷ host))
call_of (event_log deps) = some (list_events (asked deps))

unsuppressed : (c : PageCall) {call : ApiCall} → call_of c ≡ some call → suppresses call ≡ false
unsuppressed inventory e = ap suppresses (sym (some_inj e))
unsuppressed recent_events e = ap suppresses (sym (some_inj e))
unsuppressed (jobs_of choice) e = ap suppresses (sym (some_inj e))
unsuppressed (job_of id) e = ap suppresses (sym (some_inj e))
unsuppressed (job_events id) e = ap suppresses (sym (some_inj e))
unsuppressed (snapshots_of []) e = absurd (cc e)
unsuppressed (snapshots_of (c ∷ host)) e = ap suppresses (sym (some_inj e))
unsuppressed (event_log deps) e = ap suppresses (sym (some_inj e))

write_keeps :
    {A : Type 0} (s : Console) (r : Response A)
    → Inv s
    → s.connected ≡ true
    → step s (call_answered true (responded r)) ≡ s
write_keeps s r h connected =
    let t = step s (call_answered true (responded r)) in
    let c = call_answered_cases s r true h connected in
    elim (Bool-cases t.connected) [
      | inl still ↦ c.1.0 still
      | inr ended ↦ absurd (cc ((c.0.0 ended).0))
    ]

-- In a connected console of the invariant, the response to a request of a page's hook ends the connection exactly
-- if it is a 401; a response to the dialog's or a form's write never changes the console.
pub reads_end_connection :
    {A : Type 0} (s : Console) (r : Response A) (c : PageCall) {call : ApiCall}
    (req : TriggerBackupRequest) (host plugin : Text) (cfg : PluginConfig)
    → Inv s
    → s.connected ≡ true
    → call_of c ≡ some call
    → let answer = λ (x : ApiCall). step s (call_answered (suppresses x) (responded r)) in
      (((answer call).connected ≡ false) ↔ (r.status ≡ 401))
      × (answer (trigger_backup req) ≡ s)
      × (answer (set_plugin_config host plugin cfg) ≡ s)
reads_end_connection s r c {call} req host plugin cfg h connected e =
    let silent = unsuppressed c e in
    let read = call_answered_cases s r (suppresses call) h connected in
    (
      ((λ ended. (read.0.0 ended).1), (λ refused. read.0.1 (silent, refused))),
      write_keeps s r h connected,
      write_keeps s r h connected,
    )

-- The path of a page's request; `none` without a request, or where it throws.
unfoldable pub page_path : PageCall → Option Text
unfolding Option.bind
page_path c = Option.bind (call_of c) path_of

-- Calls of the inventory, a list of jobs, a job or the snapshots of a host, by texts of UTF-16 units.
abbrev pub IsNamed : PageCall → Type 0
IsNamed (job_of id) = All IsUnit id
IsNamed (snapshots_of host) = All IsUnit host
IsNamed recent_events = ⊥
IsNamed (job_events id) = ⊥
IsNamed (event_log deps) = ⊥
IsNamed _ = Unit

-- A path as its call spells it.
abbrev Spells : PageCall → Text → Type 0
Spells inventory p = codes "/v1/hosts" ≡ p
Spells (jobs_of none) p = codes "/v1/jobs" ≡ p
Spells (jobs_of (some st)) p = codes "/v1/jobs?status=" ++ status_text st ≡ p
Spells (job_of id) p =
    (e : Text) × (encode_uri_component id ≡ some e) × (codes "/v1/jobs/" ++ e ≡ p)
Spells (snapshots_of host) p =
    (e : Text) × (encode_uri_component host ≡ some e) × (codes "/v1/snapshots?host=" ++ e ≡ p)
Spells _ p = ⊥

prefixed :
    (pre : Text) (o : Option Text) {p : Text}
    → Option.map (λ e. pre ++ e) o ≡ some p
    → (e : Text) × (o ≡ some e) × (pre ++ e ≡ p)
prefixed pre none h = absurd (cc h)
prefixed pre (some e) h = (e, refl, some_inj h)

path-Spells : (c : PageCall) {p : Text} → IsNamed c → page_path c ≡ some p → Spells c p
unfolding page_path path_of encode_uri_component scalars classify encode_scalar
path-Spells inventory n h = some_inj h
path-Spells recent_events n h = absurd n
path-Spells (jobs_of none) n h = some_inj h
path-Spells (jobs_of (some queued)) n h = some_inj h
path-Spells (jobs_of (some in_progress)) n h = some_inj h
path-Spells (jobs_of (some completed)) n h = some_inj h
path-Spells (jobs_of (some failed)) n h = some_inj h
path-Spells (job_of id) n h = prefixed (codes "/v1/jobs/") (encode_uri_component id) h
path-Spells (job_events id) n h = absurd n
path-Spells (snapshots_of []) n h = absurd (cc h)
path-Spells (snapshots_of (c ∷ host)) n h =
    prefixed (codes "/v1/snapshots?host=") (encode_uri_component (c ∷ host)) h
path-Spells (event_log deps) n h = absurd n

-- A reader of paths, to tell the calls apart by: what is behind a prefix, and the call.
strip : Text → Text → Option Text
strip [] s = some s
strip (c ∷ pre) [] = none
strip (c ∷ pre) (d ∷ s) = let rest = strip pre s in if c == d then rest else none

abbrev or_else : {A : Type 0} → Option A → Option A → Option A
or_else none b = b
or_else (some a) b = some a

-- A status by its first letter.
abbrev status_at : Text → JobStatus
status_at [] = failed
status_at (c ∷ s) =
    if c == b'q'
    then queued
    else if c == b'i'
    then in_progress
    else if c == b'c'
    then completed
    else failed

abbrev decoded : Text → Text
decoded e = or_default (decode_uri_component e) []

read_path : Text → PageCall
unfolding strip
read_path p =
    or_default
      (or_else (Option.map (λ e. job_of (decoded e)) (strip (codes "/v1/jobs/") p)) (
        or_else (Option.map (λ e. snapshots_of (decoded e)) (strip (codes "/v1/snapshots?host=") p))
          (or_else
            (Option.map (λ e. jobs_of (some (status_at e))) (strip (codes "/v1/jobs?status=") p))
            (Option.map (λ e. jobs_of none) (strip (codes "/v1/jobs") p)))))
      inventory

read_path-Spells : (c : PageCall) (p : Text) → IsNamed c → Spells c p → read_path p ≡ c
unfolding read_path
read_path-Spells inventory p n h = ap read_path (sym h)
read_path-Spells recent_events p n h = absurd n
read_path-Spells (jobs_of none) p n h = ap read_path (sym h)
read_path-Spells (jobs_of (some queued)) p n h = ap read_path (sym h)
read_path-Spells (jobs_of (some in_progress)) p n h = ap read_path (sym h)
read_path-Spells (jobs_of (some completed)) p n h = ap read_path (sym h)
read_path-Spells (jobs_of (some failed)) p n h = ap read_path (sym h)
read_path-Spells (job_of id) p n h =
    ap read_path (sym h.2) ∙ ap (λ o. job_of (or_default o [])) (decode-encode id n h.1)
read_path-Spells (job_events id) p n h = absurd n
read_path-Spells (snapshots_of host) p n h =
    ap read_path (sym h.2) ∙ ap (λ o. snapshots_of (or_default o [])) (decode-encode host n h.1)
read_path-Spells (event_log deps) p n h = absurd n

-- Two calls of the inventory, of a list of jobs, of a job or of the snapshots of a host, by texts of UTF-16 units,
-- whose requests have one path are one call, with one status, id or host.
pub page_path-injective :
    (c d : PageCall) {p : Text}
    → IsNamed c
    → IsNamed d
    → page_path c ≡ some p
    → page_path d ≡ some p
    → c ≡ d
page_path-injective c d {p} n m h k =
    sym (read_path-Spells c p n (path-Spells c n h)) ∙ read_path-Spells d p m (path-Spells d m k)
