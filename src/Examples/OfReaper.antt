-- ===== src/Examples/OfReaper.antt =====
-- The cleaning of directories and of remote hosts at concrete disks.
use vci.Base.{
  ℕ, ◌≡◌, refl, inl, Bool, true, false, not, ◌||◌, Option, none, some, List, [], ◌∷◌, All, In,
  Result, ok, err, Text, codes, text_eq, has_prefix, has_suffix, lookup, mem_text,
}
use vci.Config.Strings.{
  contains, equal_fold, fold_code, has_parent_segment, is_control, is_space, split_path, trim_left,
  trim_right, trim_space,
}
use vci.Config.Types.{BundleCachePolicy, Config, Machine, Project}
use vci.Config.Validation.{validate_machine_host}
use vci.Examples.Fixtures.{claim_1, dir_in, disk_in, linux, mac, one_machine, one_slot, run_1}
use vci.Host.Cache.{Reaped}
use vci.Host.Client.{Command, ssh}
use vci.Host.Paths.{HostError, check_segments, remote_work_dir, validate_host, validate_remote_path}
use vci.Host.Windows.{is_windows_os}
use vci.Model.Names.{is_alnum, is_name_char, name_chars, valid_name, valid_run_id}
use vci.Model.State.{is_terminal, lost, running, succeeded, valid}
use vci.Reaper.Artifacts.{Clears, reap_artifacts-Clears}
use vci.Reaper.Cleaned.{Justified, reap_remote_turds-Justified, successes}
use vci.Reaper.Dirs.{
  TempEntry, WorkEntry, artifacts_due, clear_each, clear_sub, is_ended, is_run_dir,
  is_stale_transfer, is_transfer_dir, outlived, reap_artifacts, reap_transfer_dirs, reap_work_dirs,
  remove_artifacts, without_subs,
}
use vci.Reaper.Maintain.{
  Estate, Surroundings, cleaning_failed, partials_part, reaper_run, sweep_part, transfers_part,
}
use vci.Reaper.MapOrder.{reap_remote_bundle_caches-Perm}
use vci.Reaper.Partials.{reap_partials}
use vci.Reaper.Remote.{
  MachineSnapshot, attached_to, clean_each, clean_host, clean_loaded, cleanup_command, cleanup_line,
  cleanup_remote, is_live, reap_machines, reap_projects, reap_remote_bundle_caches,
  reap_remote_turds, remote_host_for,
}
use vci.Reaper.Sweep.{sweep, sweep_runs}
use vci.Reaper.WorkDirs.{reap_work_dirs-keeps}
use vci.Scheduler.Files.{claim_file}
use vci.Store.Disk.{Disk, find_dir, put_dir}
use vci.Store.Lease.{decode_lease, read_lease}
use vci.Store.Record.{validate_record}
use vci.Store.Runs.{load, load_path}
use mathlib.Core.List.Perm

abbrev remote_machine : Text → Machine
remote_machine host = record one_slot { host = host; os = codes "linux" }

abbrev box_snapshot : Text → Option MachineSnapshot
box_snapshot s =
    some (record { machine = mac; machines = (mac, remote_machine (codes "box")) ∷ [] })

abbrev ssh_works : Command → Bool
ssh_works c = true

sends_one_command :
    (reap_remote_turds box_snapshot ssh_works 9 (disk_in succeeded)).sent
    ≡ record {
      executable = codes "ssh";
      args = codes "box" ∷ codes "rm -rf -- ~/.vci/state/work/run_1" ∷ [];
      stdin = none;
    }
      ∷ []
unfolding reap_remote_turds clean_each clean_loaded clean_host cleanup_remote cleanup_command
    cleanup_line remote_host_for load load_path find_dir validate_record valid_run_id valid_name
    name_chars is_name_char is_alnum text_eq valid is_terminal read_lease decode_lease has_prefix
    lookup contains equal_fold fold_code has_parent_segment is_control is_space split_path trim_left
    trim_right trim_space validate_machine_host ssh check_segments remote_work_dir validate_host
    validate_remote_path is_windows_os mem_text
sends_one_command = refl

reap_remote_turds-Justified_example :
    All
      (Justified box_snapshot 9 (disk_in succeeded))
      (reap_remote_turds box_snapshot ssh_works 9 (disk_in succeeded)).sent
    × ((reap_remote_turds box_snapshot ssh_works 9 (disk_in succeeded)).cleaned
        ≡ successes ssh_works (reap_remote_turds box_snapshot ssh_works 9 (disk_in succeeded)).sent)
reap_remote_turds-Justified_example =
    reap_remote_turds-Justified box_snapshot ssh_works 9 (disk_in succeeded)

abbrev project_on : Text → Project
project_on machine = record {
  machines = machine ∷ [];
  command = [];
  commands = [];
  environment = [];
  artifacts = [];
  excluded_paths = [];
  hosted_fallback = record { url = []; commit = [] };
}

abbrev two_boxes : List (Text × Machine) → Config
two_boxes ms = record one_machine {
  machines = ms;
  projects = (codes "p", project_on mac) ∷ (codes "q", project_on linux) ∷ [];
}

abbrev one_of_each : Text → Text → BundleCachePolicy → Result HostError Reaped
one_of_each host project policy = ok (record { stale = 1; evicted = 2 })

abbrev forwards : List (Text × Machine)
forwards = (mac, remote_machine (codes "box")) ∷ (linux, remote_machine (codes "tin")) ∷ []

abbrev backwards : List (Text × Machine)
backwards = (linux, remote_machine (codes "tin")) ∷ (mac, remote_machine (codes "box")) ∷ []

adds_both : reap_remote_bundle_caches one_of_each (two_boxes forwards) (3, 0) ≡ (5, 4)
unfolding reap_remote_bundle_caches reap_machines reap_projects attached_to mem_text text_eq
adds_both = refl

reap_remote_bundle_caches-Perm_example :
    reap_remote_bundle_caches one_of_each (two_boxes forwards) (3, 0)
    ≡ reap_remote_bundle_caches one_of_each (two_boxes backwards) (3, 0)
reap_remote_bundle_caches-Perm_example =
    reap_remote_bundle_caches-Perm one_of_each (two_boxes forwards) (two_boxes backwards) (3, 0)
      (Perm.swap (linux, remote_machine (codes "tin")) (mac, remote_machine (codes "box")) [])
      (Perm.refl (two_boxes forwards).projects)

-- `run_1` has been lost long ago and has artifacts.
abbrev littered : Disk
littered = record {
  runs = (run_1, record (dir_in lost run_1) { artifacts = true }) ∷ [];
  claims = [];
  healthy = true;
}

abbrev no_ages : Text → Option ℕ
no_ages id = none

clears_one : (reap_artifacts 1800000000002 no_ages littered).reaped ≡ 1
unfolding reap_artifacts clear_each artifacts_due outlived remove_artifacts put_dir load load_path
    find_dir validate_record valid_run_id valid_name name_chars is_name_char is_alnum text_eq valid
clears_one = refl

clears_none_early : (reap_artifacts 1800000000001 no_ages littered).reaped ≡ 0
unfolding reap_artifacts clear_each artifacts_due outlived remove_artifacts put_dir load load_path
    find_dir validate_record valid_run_id valid_name name_chars is_name_char is_alnum text_eq valid
clears_none_early = refl

reap_artifacts-Clears_example :
    Clears 1800000000002 no_ages littered
      (run_1 ∷ [])
      (reap_artifacts 1800000000002 no_ages littered)
reap_artifacts-Clears_example = reap_artifacts-Clears 1800000000002 no_ages littered

abbrev work_entry : WorkEntry
work_entry = record { name = run_1; is_dir = true; tmp = some 5; home = none }

abbrev all_removable : Text → Bool
all_removable path = true

removes_ended :
    (reap_work_dirs all_removable 1800000000005 (disk_in succeeded) (work_entry ∷ [])).left ≡ []
unfolding reap_work_dirs without_subs clear_sub is_run_dir has_suffix is_terminal read_lease
    decode_lease load load_path find_dir validate_record valid_run_id valid_name name_chars
    is_name_char is_alnum text_eq valid
removes_ended = refl

run_1_is_used :
    not (is_ended (load (disk_in running) run_1))
      || is_live 1800000000005 (read_lease (disk_in running) run_1)
    ≡ true
unfolding is_terminal read_lease decode_lease load load_path find_dir validate_record valid_run_id
    valid_name name_chars is_name_char is_alnum text_eq valid
run_1_is_used = refl

reap_work_dirs-keeps_example :
    (e' : WorkEntry) × In e'
      (reap_work_dirs all_removable 1800000000005 (disk_in running) (work_entry ∷ [])).left
    × (e'.name ≡ run_1)
    × (is_live 1800000000005 (read_lease (disk_in running) run_1) ≡ true → e' ≡ work_entry)
reap_work_dirs-keeps_example =
    reap_work_dirs-keeps all_removable 1800000000005 (disk_in running) (work_entry ∷ []) work_entry
      (inl refl) run_1_is_used

abbrev old_transfer : TempEntry
old_transfer = record { name = codes "vci-hosted-1"; is_dir = true; modified = some 5 }

abbrev stranger : TempEntry
stranger = record { name = codes "mine"; is_dir = true; modified = some 5 }

removes_transfers :
    reap_transfer_dirs all_removable 1800000000005 (old_transfer ∷ stranger ∷ [])
    ≡ record { left = stranger ∷ []; removed = 1; failed = false }
unfolding reap_transfer_dirs is_stale_transfer is_transfer_dir has_prefix
removes_transfers = refl

-- Nothing can be removed, and ssh does not answer.
abbrev stuck : Surroundings
stuck = record {
  removable = λ path. false;
  modified = λ id. none;
  decode = λ snapshot. none;
  run = λ command. false;
}

abbrev estate : Estate
estate = record {
  disk = record { runs = []; claims = claim_file mac claim_1 ∷ []; healthy = true };
  temp = old_transfer ∷ [];
  work = [];
  partials = [];
  blobs = [];
}

-- A transfer directory that cannot be removed ends the pass before the claims are reaped.
stuck_pass :
    ((reaper_run stuck 1800000000005 1800000000005 estate).0 ≡ estate)
    × ((reaper_run stuck 1800000000005 1800000000005 estate).2 ≡ err cleaning_failed)
unfolding reaper_run sweep_part sweep sweep_runs partials_part reap_partials transfers_part
    reap_transfer_dirs is_stale_transfer is_transfer_dir has_prefix
stuck_pass = (refl, refl)
