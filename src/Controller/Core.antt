-- ===== src/Controller/Core.antt =====
-- internal/core/core.go: the domain types, and internal/events/event.go. A Go string is the text that JSON
-- carries, a time the number of its nanoseconds.
use backup_orchestration_pla.Common.{ℕ, Bool, List, ◌++◌}
use backup_orchestration_pla.Common.Text.{Text, codes}
use backup_orchestration_pla.Client.Paths.{decimal}
use backup_orchestration_pla.Wire.{JobStatus, queued, EventType, Policy}

pub record Resource : Type 0 where
  pub id : Text
  pub name : Text
  pub labels : List (Text × Text)

pub record Artifact : Type 0 where
  pub resource_id : Text
  pub host : Text
  pub plugin : Text
  pub path : Text
  pub size : ℕ
  pub checksum : Text
  pub encrypted : Bool
  pub created_at : ℕ

pub record Snapshot : Type 0 where
  pub id : Text
  pub job_id : Text
  pub host : Text
  pub plugin : Text
  pub size : ℕ
  pub checksum : Text
  pub created_at : ℕ

pub record Verification : Type 0 where
  pub enabled : Bool
  pub target_dir : Text

pub record Job : Type 0 where
  pub id : Text
  pub host : Text
  pub plugin : Text
  pub policy : Policy
  pub status : JobStatus
  pub queued_at : ℕ

-- `nanos` and `now` are the two readings of the clock.
unfoldable pub new_job : Text → Text → Policy → (nanos now : ℕ) → Job
new_job host plugin policy nanos now = record {
  id = host ++ (codes "-" ++ (plugin ++ (codes "-" ++ decimal nanos)));
  host = host;
  plugin = plugin;
  policy = policy;
  status = queued;
  queued_at = now;
}

-- `events.Event`
pub record Event : Type 0 where
  pub type : EventType
  pub job_id : Text
  pub host : Text
  pub plugin : Text
  pub resource : Text
  pub fields : List (Text × Text)
  pub timestamp : ℕ

-- What a Go function that can fail returns.
pub data Fallible (A : Type 0) : Type 0 where
  ok : A → Fallible A
  err : Text → Fallible A
