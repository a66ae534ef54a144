-- ===== src/Controller/Tests.antt =====
-- A controller with two hosts, and the data that its tests share.
mod Pipeline
mod Pages
mod Access
mod Site
use backup_orchestration_pla.Common.{ℕ, pos, Bool, true, false, Option, none, some, List, [], ◌∷◌}
use backup_orchestration_pla.Common.Text.{Text, codes}
use backup_orchestration_pla.Wire.{JobStatus, queued, EventType, Policy}
use backup_orchestration_pla.Controller.Core.{Resource, Artifact, Snapshot, Job, Fallible, ok, err}
use backup_orchestration_pla.Controller.Inventory.{RawConfig, Server, Inventory}
use backup_orchestration_pla.Controller.Metadata.{Store}
use backup_orchestration_pla.Controller.Pipeline.{Attempt}
use backup_orchestration_pla.Controller.RunJob.{Controller, Ports, StorageChoice}

abbrev pub weekly_policy : Policy
weekly_policy = record { daily = pos 7; weekly = pos 4; monthly = pos 0; yearly = pos 0 }

abbrev pub web : Server
web = record {
  host = codes "10.0.0.5";
  ssh_user = codes "bop";
  ssh_key = [];
  plugins = (codes "postgres", none) ∷ (codes "filesystem", none) ∷ [];
  retention = weekly_policy;
  schedule = [];
  verification = some (record { enabled = true; target_dir = [] });
  storage = [];
}

abbrev pub test_inventory : Inventory
test_inventory = (codes "web", web) ∷ []

abbrev pub test_controller : Controller
test_controller = record {
  inventory = test_inventory;
  factories = codes "filesystem" ∷ [];
  storages = [];
  verification = record { enabled = false; target_dir = [] };
}

abbrev pub job_of : Text → ℕ → JobStatus → Job
job_of id at status = record {
  id = id;
  host = codes "web";
  plugin = codes "filesystem";
  policy = weekly_policy;
  status = status;
  queued_at = at;
}

abbrev pub etc : Resource
etc = record { id = codes "/etc"; name = codes "/etc"; labels = [] }

abbrev pub etc_artifact : Artifact
etc_artifact = record {
  resource_id = codes "/etc";
  host = [];
  plugin = [];
  path = codes "/tmp/etc.tar";
  size = 12;
  checksum = [];
  encrypted = false;
  created_at = 1;
}

abbrev pub epoch : EventType → ℕ
epoch t = 0

-- An attempt that succeeds but for its restore test, which ends with `restored`.
abbrev pub attempt_with : Option Text → Attempt
attempt_with restored = record {
  backup = λ res. ok etc_artifact;
  verify = λ a. none;
  checksum_file = λ path. ok (codes "sha256:0");
  store = λ a. ok (codes "s1");
  verify_snapshot = λ id. none;
  record_snapshot = λ snap. none;
  restore = λ a. restored;
  created_at = 2;
  clock = epoch;
}

abbrev pub ports_with : Option Text → StorageChoice → Ports (Unit {0})
ports_with restored choice = record {
  mark_in_progress = none;
  resolve_config = ok tt;
  factory = λ cfg. none;
  discover = ok (etc ∷ []);
  attempts = λ n. attempt_with restored;
  apply_retention = λ host policy. none;
  record_status = λ status. none;
  clock = epoch;
}

abbrev pub stored_with : List Job → Store
stored_with jobs = record { jobs = jobs; snapshots = []; events = []; settings = [] }
