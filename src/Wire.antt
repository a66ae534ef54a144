-- ===== src/Wire.antt =====
-- web/src/api/types.ts: the values that the controller's API sends and takes.
use backup_orchestration_pla.Common.{ℕ, ℤ, List}
use backup_orchestration_pla.Common.Text.{Text}

pub data JobStatus : Type 0 where
  queued in_progress completed failed : JobStatus

pub record Host : Type 0 where
  pub name : Text
  pub host : Text
  pub plugins : List Text
  pub schedule : Text

pub record Policy : Type 0 where
  pub daily : ℤ
  pub weekly : ℤ
  pub monthly : ℤ
  pub yearly : ℤ

pub record Job : Type 0 where
  pub id : Text
  pub host : Text
  pub plugin : Text
  pub policy : Policy
  pub status : JobStatus
  pub queued_at : Text

pub record Snapshot : Type 0 where
  pub id : Text
  pub job_id : Text
  pub host : Text
  pub plugin : Text
  pub size : ℕ
  pub checksum : Text
  pub created_at : Text

pub data EventType : Type 0 where
  backup_requested backup_started backup_completed backup_failed : EventType
  plugin_discovery_started plugin_discovery_completed : EventType
  artifact_created artifact_upload_started artifact_upload_completed : EventType
  repository_verification_started repository_verification_completed : EventType
  restore_verification_started restore_verification_completed : EventType
  retention_applied : EventType

pub record BopEvent : Type 0 where
  pub type : EventType
  pub job_id : Text
  pub host : Text
  pub plugin : Text
  pub resource : Text
  pub fields : List (Text × Text)
  pub timestamp : Text

pub record TriggerBackupRequest : Type 0 where
  pub host : Text
  pub plugin : Text

pub record InformixConfig : Type 0 where
  pub host : Text
  pub port : ℤ
  pub username : Text
  pub password_env : Text
  pub server_name : Text
  pub database : Text
  pub tables : List Text
  pub agent_path : Text

pub record PostgresConfig : Type 0 where
  pub username : Text
  pub password_env : Text
  pub databases : List Text
  pub container : Text

pub record FilesystemConfig : Type 0 where
  pub paths : List Text
  pub excludes : List Text
