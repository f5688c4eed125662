-- ===== src/Examples/OfApp.antt =====
-- The theorems on the choice of a machine and on the staging of a build request at concrete values.
use vci.Base.{
  ℕ, ◌≡◌, refl, true, Option, none, some, List, [], ◌∷◌, if◌then◌else◌, pos, err, Text, codes,
  text_eq, lookup,
}
use vci.App.Atomic.{AreFresh, failed_stage_fanout}
use vci.App.Stage.{Request, new_child, no_run_id, save_new, stage_each, stage_fanout}
use vci.Config.Defaults.{resolve_command}
use vci.Config.Types.{Config, Project}
use vci.Examples.Fixtures.{disk_in, linux, mac, one_machine, one_slot, run_2}
use vci.Model.Names.{is_alnum, is_name_char, name_chars, valid_name, valid_run_id}
use vci.Model.State.{staging, valid}
use vci.Scheduler.Choose.{Snapshot}
use vci.Store.Disk.{find_dir, put_dir}
use vci.Store.Record.{new_run, new_run_from_id, validate_record}
use vci.Store.Runs.{load, make_dir, save, save_unlocked}

abbrev two_machines : Config
two_machines = record one_machine {
  machines = (mac, record one_slot { max_concurrent = pos 2 }) ∷ (linux, one_slot) ∷ [];
}

-- One run is active on the machine with two slots.
abbrev active_runs : Text → ℕ
active_runs m = if text_eq m mac then 1 else 0

abbrev linux_free : Snapshot
linux_free = record { name = linux; capacity = 1; active = 0 }

abbrev two_targets : Project
two_targets = record {
  machines = mac ∷ linux ∷ [];
  command = codes "make" ∷ [];
  commands = [];
  environment = [];
  artifacts = [];
  excluded_paths = [];
  hosted_fallback = record { url = []; commit = [] };
}

abbrev build_request : Request
build_request = record {
  project_name = codes "p";
  project = two_targets;
  parent_id = codes "run_0";
  source_path = [];
  source_digest = [];
  now = 3;
  parent_snapshot = [];
}

abbrev same_text : Text → Text
same_text t = t

-- The second identifier cannot be drawn.
abbrev one_id : List (Option Text)
one_id = some run_2 ∷ none ∷ []

staging_fails :
    (stage_fanout same_text same_text build_request (disk_in staging) one_id).1 ≡ err no_run_id
unfolding stage_fanout stage_each new_child new_run_from_id new_run save_new save make_dir
    save_unlocked validate_record valid valid_run_id valid_name is_alnum name_chars is_name_char
    find_dir put_dir text_eq resolve_command lookup
staging_fails = refl

run_2_is_fresh : AreFresh (disk_in staging) one_id
unfolding load find_dir text_eq valid_run_id name_chars is_name_char
run_2_is_fresh = (refl, tt)

run_2_is_valid : valid_run_id run_2 ≡ true
unfolding valid_run_id name_chars is_name_char
run_2_is_valid = refl

failed_stage_fanout_example :
    load (stage_fanout same_text same_text build_request (disk_in staging) one_id).0 run_2
    ≡ load (disk_in staging) run_2
failed_stage_fanout_example =
    failed_stage_fanout same_text same_text build_request (disk_in staging) one_id no_run_id run_2
      run_2_is_fresh refl run_2_is_valid staging_fails
