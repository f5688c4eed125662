-- ===== src/Examples/Fixtures.antt =====
-- One machine with one slot, one run in each of a few states, and the disks that hold them.
use vci.Base.{true, false, none, [], ◌∷◌, pos, Result, ok, err, absent, holds, Text, codes}
use vci.Config.Types.{BundleCachePolicy, Config, Machine}
use vci.Model.State.{RunState, running}
use vci.Scheduler.Files.{claim_file}
use vci.Store.Disk.{Claim, Disk, RunDir}
use vci.Store.Record.{RunRecord, StoreError, write_failed}

abbrev pub run_1 : Text
run_1 = codes "run_1"

abbrev pub run_2 : Text
run_2 = codes "run_2"

abbrev pub mac : Text
mac = codes "mac"

abbrev pub linux : Text
linux = codes "linux"

abbrev pub no_cache : BundleCachePolicy
no_cache = record { max_entries = pos 0; max_bytes = pos 0; admission_bytes = pos 0 }

abbrev pub one_slot : Machine
one_slot = record {
  max_concurrent = pos 1;
  host = [];
  runtime = codes "native";
  image = [];
  snapshot = [];
  os = [];
  source_paths = [];
  bundle_cache = no_cache;
}

abbrev pub one_machine : Config
one_machine = record {
  schema_version = pos 2;
  orchestrator = codes "self";
  log_limits = record { stdout_bytes = pos 1; stderr_bytes = pos 1 };
  retention = record { max_bytes = pos 1 };
  machines = (mac, one_slot) ∷ [];
  projects = [];
}

abbrev pub run_in : RunState → Text → RunRecord
run_in s id = record {
  schema_version = 1;
  id = id;
  project = codes "p";
  machine = mac;
  state = s;
  source_digest = [];
  source_path = [];
  config_digest = [];
  config_snapshot = [];
  command = [];
  queued_at = 1;
  updated_at = 1;
  cancellation_requested_at = none;
  parent_run_id = [];
  children = [];
}

abbrev pub dir_in : RunState → Text → RunDir
dir_in s id = record {
  run = holds (run_in s id);
  lease = absent;
  result = none;
  execution = absent;
  artifacts = false;
}

-- A disk with `run_1` in a state and no claims.
abbrev pub disk_in : RunState → Disk
disk_in s = record { runs = (run_1, dir_in s run_1) ∷ []; claims = []; healthy = true }

abbrev pub claim_1 : Claim
claim_1 = record { schema_version = 1; machine = mac; run_id = run_1; created_at = 5 }

-- The one slot is taken by a running run.
abbrev pub full_disk : Disk
full_disk = record (disk_in running) { claims = claim_file mac claim_1 ∷ [] }

-- A publication that does nothing and succeeds, and one that fails.
abbrev pub publish_fine : Text → Disk → Disk × Result StoreError (Unit {0})
publish_fine machine d = (d, ok tt)

abbrev pub publish_fails : Text → Disk → Disk × Result StoreError (Unit {0})
publish_fails machine d = (d, err write_failed)
