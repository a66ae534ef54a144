-- ===== src/Controller/Pipeline/Attempts.antt =====
-- One attempt at a resource: what it publishes, what it trusts, and what it leaves behind.
use backup_orchestration_pla.Common.{
  ◌≡◌, ◌≢◌, ◌↔◌, refl, ap, length, length-append, Bool, true, false, Option, none, some, List, [],
  ◌∷◌, ◌++◌, All, any, arith,
}
use backup_orchestration_pla.Common.Text.{Text, truthy}
use backup_orchestration_pla.Wire.{
  EventType, backup_failed, repository_verification_completed, restore_verification_completed,
}
use backup_orchestration_pla.Seal.{same_type}
use backup_orchestration_pla.Controller.Core.{Resource, Artifact, Snapshot, Job, Fallible, ok}
use backup_orchestration_pla.Controller.Pipeline.{
  Effect, published, restored, snapshot_recorded, removed, status_set, Run, ran, Attempt,
  restore_test_suffix, backup_resource,
}

abbrev pub log_of : {A : Type 0} → Run A → List Effect
log_of (ran log r) = log

abbrev pub result_of : {A : Type 0} → Run A → Fallible A
result_of (ran log r) = r

abbrev pub is_event : EventType → Effect → Bool
is_event t (published e) = same_type e.type t
is_event t _ = false

-- An event of the type is published.
abbrev pub publishes : EventType → List Effect → Bool
publishes t log = any (is_event t) log

abbrev pub last? : List Effect → Option Effect
last? [] = none
last? (e ∷ []) = some e
last? (_ ∷ f ∷ log) = last? (f ∷ log)

-- The files that are removed.
abbrev pub removals : List Effect → List Text
removals [] = []
removals (removed path ∷ log) = path ∷ removals log
removals (_ ∷ log) = removals log

-- The scratch resource of a restore test is another one.
suffix-other : (id : Text) → id ++ restore_test_suffix ≢ id
suffix-other id e = omega (arith, ap length e, length-append id restore_test_suffix)

module _ (job : Job) (a : Attempt) (res : Resource) where
  -- An attempt publishes no failure of the backup; it publishes the end of a restore test exactly if it succeeds
  -- with the test enabled; and if it succeeds, it publishes its artifact and the storage's verification.
  pub attempt_events :
      (enabled : Bool)
      → let m = backup_resource job a res enabled in
        (publishes backup_failed (log_of m) ≡ false)
        × ((publishes restore_verification_completed (log_of m) ≡ true)
            ↔ ((result_of m ≡ ok tt) × (enabled ≡ true)))
        × (result_of m ≡ ok tt → publishes repository_verification_completed (log_of m) ≡ true)
  unfolding backup_resource same_type
  attempt_events enabled = ground arith

  -- The storage has returned the snapshot's id for an artifact of the job with the snapshot's size and with the
  -- checksum of its file.
  pub record Backed (snap : Snapshot) : Type 0 where
    pub artifact : Artifact
    pub stored_as : a.store artifact ≡ ok snap.id
    pub same_host : artifact.host ≡ job.host
    pub same_plugin : artifact.plugin ≡ job.plugin
    pub same_size : artifact.size ≡ snap.size
    pub same_checksum : artifact.checksum ≡ snap.checksum
    pub checked : a.checksum_file artifact.path ≡ ok snap.checksum

  -- What an attempt may do: it records the snapshots that the storage has verified, and restores into another
  -- resource than its own.
  abbrev pub Trusted : Effect → Type 0
  Trusted (snapshot_recorded snap) =
      (a.verify_snapshot snap.id ≡ none) × (snap.job_id ≡ job.id) × Backed snap
  Trusted (restored target) = target.resource_id ≢ res.id
  Trusted (status_set status) = ⊥
  Trusted _ = Unit

  -- The row of an artifact that was stored under `id`.
  abbrev snapshot_of : Artifact → Text → Snapshot
  snapshot_of artifact id = record {
    id = id;
    job_id = job.id;
    host = job.host;
    plugin = job.plugin;
    size = artifact.size;
    checksum = artifact.checksum;
    created_at = a.created_at;
  }

  abbrev stamped : Artifact → Text → Artifact
  stamped made checksum = record made { host = job.host; plugin = job.plugin; checksum = checksum }

  backed :
      (made : Artifact) (checksum id : Text)
      → a.checksum_file made.path ≡ ok checksum
      → a.store (stamped made checksum) ≡ ok id
      → Backed (snapshot_of (stamped made checksum) id)
  backed made checksum id c s = record {
    artifact = stamped made checksum;
    stored_as = s;
    same_host = refl;
    same_plugin = refl;
    same_size = refl;
    same_checksum = refl;
    checked = c;
  }

  -- Every effect of an attempt is one that it may have.
  pub attempt-Trusted : (enabled : Bool) → All Trusted (log_of (backup_resource job a res enabled))
  unfolding backup_resource
  attempt-Trusted false = grind (arith, suffix-other res.id, backed)
  attempt-Trusted true = grind (arith, suffix-other res.id, backed)

  -- An attempt whose plugin has made a file removes that file and no other, and this is its last effect, however the
  -- attempt goes.
  pub attempt_cleans_up :
      (enabled : Bool) (made : Artifact)
      → a.backup res ≡ ok made
      → truthy made.path ≡ true
      → let log = log_of (backup_resource job a res enabled) in
        (removals log ≡ made.path ∷ []) × (last? log ≡ some (removed made.path))
  unfolding backup_resource
  attempt_cleans_up false made b t = ground arith
  attempt_cleans_up true made b t = ground arith
