-- ===== src/Controller/Pipeline.antt =====
-- internal/controller/controller.go: `RunJob`, `runPipeline` and `backupResource`. A step of the pipeline is
-- its log of effects, in their order, with what it returns. A plugin, a storage and the clock are arguments:
-- each is asked once for an attempt at a resource, so an attempt has an answer of its own to every call, and
-- a time of its own for the event of every type.
pub mod Attempts
use backup_orchestration_pla.Common.{
  ℕ, zero, suc, length, Bool, true, false, Option, none, some, List, [], ◌∷◌, ◌++◌, if◌then◌else◌,
}
use backup_orchestration_pla.Common.Text.{Text, codes, truthy}
use backup_orchestration_pla.Client.Paths.{decimal}
use backup_orchestration_pla.Wire.{
  JobStatus, in_progress, completed, failed, EventType, backup_started, backup_completed,
  backup_failed, plugin_discovery_started, plugin_discovery_completed, artifact_created,
  artifact_upload_started, artifact_upload_completed, repository_verification_started,
  repository_verification_completed, restore_verification_started, restore_verification_completed,
  retention_applied,
}
use backup_orchestration_pla.Controller.Core.{
  Resource, Artifact, Snapshot, Job, Event, Fallible, ok, err,
}

-- What the controller does to the world: an event published, an artifact handed to the storage or to the
-- plugin's restore, a snapshot's row written, a file removed, a status written to the job's row.
pub data Effect : Type 0 where
  published : Event → Effect
  stored restored : Artifact → Effect
  snapshot_recorded : Snapshot → Effect
  removed : Text → Effect
  status_set : JobStatus → Effect

pub data Run (A : Type 0) : Type 0 where
  ran : List Effect → Fallible A → Run A

abbrev pub before : {A : Type 0} → List Effect → Run A → Run A
before log (ran more r) = ran (log ++ more) r

infixl 5 ◌>>=◌ ◌>>◌
abbrev pub ◌>>=◌ : {A B : Type 0} → Run A → (A → Run B) → Run B
ran log (ok a) >>= f = before log (f a)
ran log (err e) >>= f = ran log (err e)

abbrev pub ◌>>◌ : {B : Type 0} → Run (Unit {0}) → Run B → Run B
m >> k = m >>= λ _. k

abbrev pub effect : Effect → Run (Unit {0})
effect e = ran (e ∷ []) (ok tt)

-- `fmt.Errorf("<step>: %w", err)`
abbrev pub wrapped : Text → Text → Text
wrapped step e = step ++ (codes ": " ++ e)

-- `if err != nil { return fmt.Errorf(…) }`
abbrev pub or_fail : {A : Type 0} → Text → Fallible A → Run A
or_fail step (ok a) = ran [] (ok a)
or_fail step (err e) = ran [] (err (wrapped step e))

abbrev pub fail_on : Text → Option Text → Run (Unit {0})
fail_on step none = ran [] (ok tt)
fail_on step (some e) = ran [] (err (wrapped step e))

-- `defer c.cleanupArtifact(artifact)`
abbrev pub cleanup_artifact : Text → List Effect
cleanup_artifact path = if truthy path then removed path ∷ [] else []

abbrev pub deferring : {A : Type 0} → List Effect → Run A → Run A
deferring last (ran log r) = ran (log ++ last) r

-- The answers to the calls of one attempt at a resource.
pub record Attempt : Type 0 where
  pub backup : Resource → Fallible Artifact
  pub verify : Artifact → Option Text
  pub checksum_file : Text → Fallible Text
  pub store : Artifact → Fallible Text
  pub verify_snapshot : Text → Option Text
  pub record_snapshot : Snapshot → Option Text
  pub restore : Artifact → Option Text
  pub created_at : ℕ
  pub clock : EventType → ℕ

-- `c.publish(ctx, events.Event{…})` of a job.
abbrev pub publish : (EventType → ℕ) → Job → EventType → Text → List (Text × Text) → Run (Unit {0})
publish clock job type resource fields = effect (
    published (record {
      type = type;
      job_id = job.id;
      host = job.host;
      plugin = job.plugin;
      resource = resource;
      fields = fields;
      timestamp = clock type;
    }))

-- `plugin.RestoreTestSuffix`
abbrev pub restore_test_suffix : Text
restore_test_suffix = codes "-bop-verify"

module _ (job : Job) (a : Attempt) (res : Resource) where
  abbrev pub publish_for : EventType → List (Text × Text) → Run (Unit {0})
  publish_for type fields = publish a.clock job type res.id fields

  -- `c.Metadata.RecordSnapshot(ctx, snap)`
  abbrev pub record_snapshot : Snapshot → Run (Unit {0})
  record_snapshot snap = elim (a.record_snapshot snap) [
    | none ↦ effect (snapshot_recorded snap)
    | some e ↦ ran [] (err (wrapped (codes "record snapshot") e))
  ]

  -- The optional restore test.
  unfoldable pub restore_test : Bool → Artifact → Run (Unit {0})
  restore_test false artifact = ran [] (ok tt)
  restore_test true artifact = do
    let target : Artifact = record artifact { resource_id = res.id ++ restore_test_suffix }
    publish_for restore_verification_started []
    effect (restored target)
    fail_on (codes "restore test") (a.restore target)
    publish_for restore_verification_completed []

  -- The snapshot of an artifact that was stored under `id`, from the storage's verification on.
  unfoldable pub record_stored : Bool → Artifact → Text → Run (Unit {0})
  unfolding restore_test
  record_stored enabled artifact id = do
    publish_for repository_verification_started []
    fail_on (codes "storage verify") (a.verify_snapshot id)
    publish_for repository_verification_completed []
    record_snapshot (record {
      id = id;
      job_id = job.id;
      host = job.host;
      plugin = job.plugin;
      size = artifact.size;
      checksum = artifact.checksum;
      created_at = a.created_at;
    })
    restore_test enabled artifact

  -- An artifact that the plugin has made and the controller has stamped, up to its upload.
  unfoldable pub store_artifact : Bool → Artifact → Run (Unit {0})
  unfolding record_stored
  store_artifact enabled made = do
    fail_on (codes "verify artifact") (a.verify made)
    checksum ← or_fail (codes "checksum") (a.checksum_file made.path)
    let artifact : Artifact = record made { checksum = checksum }
    publish_for artifact_created
        ((codes "size", decimal artifact.size) ∷ (codes "checksum", artifact.checksum) ∷ [])
    publish_for artifact_upload_started []
    effect (stored artifact)
    id ← or_fail (codes "store") (a.store artifact)
    publish_for artifact_upload_completed ((codes "snapshot_id", id) ∷ [])
    record_stored enabled artifact id

  unfoldable pub backup_resource : Bool → Run (Unit {0})
  unfolding store_artifact
  backup_resource enabled = do
    artifact ← or_fail (codes "backup") (a.backup res)
    let stamped : Artifact = record artifact { host = job.host; plugin = job.plugin }
    deferring (cleanup_artifact stamped.path) (store_artifact enabled stamped)
