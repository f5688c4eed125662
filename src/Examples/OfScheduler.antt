-- ===== src/Examples/OfScheduler.antt =====
-- The theorems on the scheduler at concrete disks.
use vci.Base.{◌≡◌, refl, true, [], ◌∷◌, arith, pos, ok, err, text_eq, lookup, mem_text}
use vci.Config.Defaults.{effective_capacity}
use vci.Config.Types.{Config, Machine}
use vci.Examples.Fixtures.{
  claim_1, disk_in, full_disk, mac, one_machine, one_slot, publish_fails, publish_fine, run_1,
  run_2,
}
use vci.Model.Names.{is_name_char, name_chars, valid_name, valid_run_id}
use vci.Model.State.{is_terminal, queued, staging, valid}
use vci.Scheduler.Capacity.{Shrinks, WithinCapacity}
use vci.Scheduler.Choose.{
  choose_slot, compute_machine_snapshots, first_free, less, validate_run_and_candidates,
}
use vci.Scheduler.Claims.{
  Reservation, check_claim, claimed_run, count_active, enumerate_claims, find_claim, no_capacity,
  publish_failed, remove_claim, strip_json, validate_claim_file,
}
use vci.Scheduler.Files.{claim_file, drop_claim, write_claim}
use vci.Scheduler.Full.{reserve_lem}
use vci.Scheduler.Operations.{
  claim_and_publish, claim_verdict, reap_and_count, reap_claims, reap_each, reserve,
  reserve_and_publish, reserve_on, roll_back,
}
use vci.Scheduler.Reserved.{Reserves}
use vci.Scheduler.Reserving.{reserve_and_publish-WithinCapacity}
use vci.Scheduler.Rollback.{failed_reservation-Shrinks}
use vci.Scheduler.Slots.{slots}
use vci.Store.Disk.{Disk, find_dir}
use vci.Store.Record.{validate_record, write_failed}
use vci.Store.Runs.{load, load_path}

mac-WithinCapacity : WithinCapacity one_machine (disk_in staging)
unfolding slots effective_capacity
mac-WithinCapacity = record { bounded = λ m x l. ground arith }

reserve_and_publish-WithinCapacity_example :
    WithinCapacity one_machine
      (reserve_and_publish load 10 (disk_in staging) one_machine run_1 (mac ∷ []) 5 publish_fine).0
unfolding lookup
reserve_and_publish-WithinCapacity_example =
    reserve_and_publish-WithinCapacity publish_fine (λ m d. refl) load 10 (disk_in staging)
      one_machine run_1 (mac ∷ []) 5 (refl, tt) mac-WithinCapacity

-- Every definition that a run of `reserve_and_publish` calls.
publication_fails :
    (reserve_and_publish load 10 (disk_in staging) one_machine run_1 (mac ∷ []) 5 publish_fails).1
    ≡ err (publish_failed write_failed)
unfolding reserve_and_publish validate_run_and_candidates reap_and_count reap_claims reap_each
    enumerate_claims choose_slot compute_machine_snapshots first_free claim_and_publish write_claim
    roll_back drop_claim find_claim remove_claim lookup mem_text text_eq valid_run_id name_chars
    is_name_char effective_capacity count_active less
publication_fails = refl

failed_reservation-Shrinks_example :
    Shrinks
      (disk_in staging)
      (reserve_and_publish load 10 (disk_in staging) one_machine run_1 (mac ∷ []) 5 publish_fails).0
failed_reservation-Shrinks_example =
    failed_reservation-Shrinks publish_fails (λ m d. refl) load 10 (disk_in staging) one_machine
      run_1 (mac ∷ []) 5 (publish_failed write_failed) publication_fails (λ x h. cc)

refused_when_full :
    (reserve_and_publish load 10 full_disk one_machine run_2 (mac ∷ []) 5 publish_fine).1
    ≡ err no_capacity
unfolding reserve_and_publish validate_run_and_candidates reap_and_count reap_claims reap_each
    enumerate_claims choose_slot compute_machine_snapshots first_free claimed_run strip_json
    validate_claim_file check_claim claim_verdict load load_path find_dir validate_record valid
    is_terminal lookup mem_text text_eq valid_run_id valid_name name_chars is_name_char
    effective_capacity count_active less
refused_when_full = refl

abbrev two_slots : Machine
two_slots = record one_slot { max_concurrent = pos 2 }

abbrev two_slot_config : Config
two_slot_config = record one_machine { machines = (mac, two_slots) ∷ [] }

-- The queued run has a claim already.
abbrev claimed_disk : Disk
claimed_disk = record (disk_in queued) { claims = claim_file mac claim_1 ∷ [] }

abbrev reserved_1 : Reservation
reserved_1 = record { machine = mac; run_id = run_1; created_at = 5 }

mac_and_run_1_valid : (valid_name mac ≡ true) × (valid_run_id run_1 ≡ true)
unfolding valid_name valid_run_id name_chars is_name_char
mac_and_run_1_valid = (refl, refl)

claimed_reap :
    ((reap_and_count load 10 claimed_disk).1 ≡ ok (reserved_1 ∷ []))
    × ((reap_and_count load 10 claimed_disk).0.healthy ≡ true)
unfolding reap_and_count reap_claims reap_each enumerate_claims claimed_run strip_json
    validate_claim_file check_claim claim_verdict load load_path find_dir validate_record valid
    is_terminal text_eq valid_run_id valid_name name_chars is_name_char
claimed_reap = (refl, refl)

reserve_lem_example :
    Reserves 10
      (effective_capacity two_slots)
      mac
      run_1
      6
      (reap_and_count load 10 claimed_disk).0
      (reserve load 10 claimed_disk two_slot_config mac run_1 6)
unfolding lookup text_eq
reserve_lem_example =
    reserve_lem load 10 claimed_disk two_slot_config mac run_1 6 two_slots (reserved_1 ∷ [])
      mac_and_run_1_valid.0 mac_and_run_1_valid.1 refl refl refl claimed_reap.0 claimed_reap.1

-- It gets a second reservation, since the machine has another slot.
reserved_again : (reserve load 10 claimed_disk two_slot_config mac run_1 6).1 ≡ ok tt
unfolding reserve reserve_on reap_and_count reap_claims reap_each enumerate_claims claimed_run
    strip_json validate_claim_file check_claim claim_verdict load load_path find_dir validate_record
    valid is_terminal text_eq valid_run_id valid_name name_chars is_name_char lookup
    effective_capacity count_active write_claim
reserved_again = refl
