-- ===== src/Examples/OfStore.antt =====
-- The theorems on the store at concrete disks.
use vci.Base.{
  ◌≡◌, refl, ◌≢◌, true, false, none, [], ◌∷◌, arith, if◌then◌else◌, ok, err, holds, Text, codes,
  text_eq,
}
use vci.Examples.Fixtures.{dir_in, disk_in, run_1, run_2, run_in}
use vci.Model.Names.{is_name_char, name_chars, valid_name, valid_run_id}
use vci.Model.State.{lost, queued, running, staging, succeeded, valid}
use vci.Process.Execution.{Execution, no_phase}
use vci.Store.Aggregate.{aggregate_state, aggregate_state-eq-reduction, reduction}
use vci.Store.Disk.{Disk, find_dir}
use vci.Store.Exclusion.{HeldBy, lease_excludes}
use vci.Store.Lease.{claim_lease, release_lease, renew_lease}
use vci.Store.LeaseLaws.{lease, lease_of}
use vci.Store.Record.{leased_by, not_owned_by, validate_record}
use vci.Store.Runs.{Change, load, load_path, transition_run}
use vci.Store.Transitions.{kept, outcome, transition_run_lem}

abbrev crash : Change
crash execution r = (execution, ok (record r { state = running }))

transition_run_lem_example :
    ((transition_run (disk_in queued) run_1 staging 9).1 ≡ outcome (run_in queued run_1) staging 9)
    × (load (transition_run (disk_in queued) run_1 staging 9).0 run_1 ≡ (
        if text_eq run_1 run_1
        then ok (kept (run_in queued run_1) (outcome (run_in queued run_1) staging 9))
        else load (disk_in queued) run_1))
unfolding load load_path find_dir validate_record valid_run_id name_chars is_name_char text_eq valid
transition_run_lem_example =
    transition_run_lem (disk_in queued) run_1 staging 9 (run_in queued run_1) run_1 refl refl

-- `run_1` is leased to the first worker until 20.
abbrev first_worker : Text
first_worker = codes "worker-1"

abbrev second_worker : Text
second_worker = codes "worker-2"

abbrev leased_disk : Disk
leased_disk = record {
  runs =
      (run_1, record (dir_in running run_1) { lease = holds (lease run_1 first_worker 20) }) ∷ [];
  claims = [];
  healthy = true;
}

run_1_valid : valid_name run_1 ≡ true
unfolding valid_name is_name_char
run_1_valid = refl

first_worker_holds : HeldBy leased_disk run_1 first_worker 20
unfolding find_dir text_eq
first_worker_holds = (refl, refl)

workers_differ : second_worker ≢ first_worker
workers_differ e = ground (arith, e)

lease_excludes_example :
    ((claim_lease leased_disk run_1 second_worker 10 5).1 ≡ err (leased_by first_worker))
    × ((renew_lease leased_disk run_1 second_worker 10 5).1 ≡ err (not_owned_by second_worker))
    × ((release_lease leased_disk run_1 second_worker).1 ≡ err (not_owned_by second_worker))
    × (lease_of (claim_lease leased_disk run_1 second_worker 10 5).0 run_1
        ≡ holds (lease run_1 first_worker 20))
    × (lease_of (renew_lease leased_disk run_1 second_worker 10 5).0 run_1
        ≡ holds (lease run_1 first_worker 20))
    × (lease_of (release_lease leased_disk run_1 second_worker).0 run_1
        ≡ holds (lease run_1 first_worker 20))
lease_excludes_example =
    lease_excludes leased_disk run_1 first_worker 20 run_1_valid first_worker_holds second_worker 10
      5 (omega arith) workers_differ

aggregate_state-eq-reduction_example :
    aggregate_state (run_in succeeded run_1 ∷ run_in lost run_2 ∷ []) false
    ≡ reduction (run_in succeeded run_1 ∷ run_in lost run_2 ∷ [])
aggregate_state-eq-reduction_example =
    aggregate_state-eq-reduction (run_in succeeded run_1 ∷ run_in lost run_2 ∷ [])

abbrev started : Execution
started = record {
  schema_version = 1;
  run_id = run_1;
  owner = codes "worker-1";
  pid = 7;
  pgid = 7;
  started_at = 3;
  cancellation_requested_at = none;
  cancellation_phase = no_phase;
}

record_is_valid : validate_record (run_in queued run_2) ≡ ok tt
unfolding validate_record valid_run_id name_chars is_name_char valid
record_is_valid = refl
