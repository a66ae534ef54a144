-- ===== src/View/Rows.antt =====
-- The rows of the tables and lists of web/src/pages. A link whose name cannot be encoded throws.
use mathlib.Core.Option
use backup_orchestration_pla.Common.{
  ℕ, Option, none, some, List, [], ◌∷◌, ◌++◌, take, if◌then◌else◌,
}
use backup_orchestration_pla.Common.Text.{Text, codes, truthy}
use backup_orchestration_pla.Common.Text.Split.{join}
use backup_orchestration_pla.Uri.{encode_uri_component}
use backup_orchestration_pla.Wire.{Host, Job, Snapshot, BopEvent, EventType}
use backup_orchestration_pla.Format.{Offset, Relative, format_relative}
use backup_orchestration_pla.Format.Bytes.{format_bytes}
use backup_orchestration_pla.View.{pill, or_dash}

-- `/jobs/${encodeURIComponent(id)}`
unfoldable pub job_link : Text → Option Text
job_link id = Option.map (λ e. codes "/jobs/" ++ e) (encode_uri_component id)

-- `/hosts/${encodeURIComponent(host.name)}/plugins/informix/config`
unfoldable pub informix_link : Text → Option Text
informix_link host =
    Option.map (λ e. codes "/hosts/" ++ (e ++ codes "/plugins/informix/config"))
      (encode_uri_component host)

pub record JobRow : Type 0 where
  pub to : Text
  pub host : Text
  pub plugin : Text
  pub status : Text
  pub queued : Relative

pub record HostRow : Type 0 where
  pub name : Text
  pub address : Text
  pub plugins : Text
  pub schedule : Text
  pub configure : Text

unfoldable pub host_row : Host → Option HostRow
unfolding informix_link
host_row h =
    Option.map
      (λ to. record {
        name = h.name;
        address = h.host;
        plugins = join (codes ", ") h.plugins;
        schedule = or_dash h.schedule;
        configure = to;
      })
      (informix_link h.name)

-- The type of an event is shown as the wire spells it: here the type itself.
pub record FeedItem : Type 0 where
  pub type : EventType
  pub host : Text
  pub when : Relative

pub record EventRow : Type 0 where
  pub type : EventType
  pub host : Text
  pub job : Option (Text × Text)
  pub exact : Text
  pub when : Relative

pub record SnapshotRow : Type 0 where
  pub plugin : Text
  pub size : Text
  pub checksum : Text
  pub title : Text
  pub exact : Text
  pub created : Relative

pub record TimelineItem : Type 0 where
  pub type : EventType
  pub exact : Text
  pub when : Relative
  pub fields : List (Text × Text)

-- `event.jobId ? <Link …>{event.jobId.slice(0, 18)}…</Link> : '—'`: the target and the text, or the dash.
abbrev pub event_job : Text → Option (Option (Text × Text))
event_job id =
    if truthy id
    then Option.map (λ to. some (to, take 18 id ++ 0x2026 ∷ [])) (job_link id)
    else some none

module _ (offset_of : Text → Offset) (exact_of : Text → Text) where
  -- `formatRelative(iso)`
  abbrev pub relative_of : Text → Relative
  relative_of iso = format_relative (offset_of iso)

  unfoldable pub job_row : Job → Option JobRow
  job_row j =
      Option.map
        (λ to. record {
          to = to;
          host = j.host;
          plugin = j.plugin;
          status = pill j.status;
          queued = relative_of j.queued_at;
        })
        (job_link j.id)

  unfoldable pub feed_item : BopEvent → FeedItem
  feed_item e = record { type = e.type; host = e.host; when = relative_of e.timestamp }

  unfoldable pub event_row : BopEvent → Option EventRow
  event_row e =
      Option.map
        (λ job. record {
          type = e.type;
          host = or_dash e.host;
          job = job;
          exact = exact_of e.timestamp;
          when = relative_of e.timestamp;
        })
        (event_job e.job_id)

  -- The fields of an event are shown in the order of the object's entries.
  unfoldable pub timeline_item : BopEvent → TimelineItem
  timeline_item e = record {
    type = e.type;
    exact = exact_of e.timestamp;
    when = relative_of e.timestamp;
    fields = e.fields;
  }

  unfoldable pub snapshot_row : (log_index : ℕ → ℕ) → Snapshot → SnapshotRow
  snapshot_row log_index s = record {
    plugin = s.plugin;
    size = format_bytes log_index s.size;
    checksum = take 12 s.checksum ++ 0x2026 ∷ [];
    title = s.checksum;
    exact = exact_of s.created_at;
    created = relative_of s.created_at;
  }
