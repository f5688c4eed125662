-- ===== src/Examples/OfSystem.antt =====
-- The theorems on the whole system and on the reaper at concrete disks.
use vci.Base.{
  ◌≡◌, refl, inl, inr, true, false, List, [], ◌∷◌, arith, In, pos, sort_by, ok, holds, codes,
  text_eq, text_eq_iff,
}
use vci.App.Abort.{abort_run, request_of}
use vci.Config.Defaults.{effective_capacity}
use vci.Examples.Fixtures.{dir_in, disk_in, mac, one_machine, run_1, run_2, run_in}
use vci.Model.Names.{is_name_char, name_chars, valid_run_id}
use vci.Model.State.{
  aborted, can_transition, is_terminal, lost, next, queued, running, staging, succeeded, transition,
  valid,
}
use vci.Reaper.Retention.{
  Blob, Enforces, enforce, enforce-Enforces, enforce_loop, is_before, total_size,
}
use vci.Reaper.Sweep.{sweep_run, swept_none}
use vci.Reaper.Workers.{sweep_run-live, sweep_run-stale}
use vci.Scheduler.Capacity.{WithinCapacity}
use vci.Scheduler.Operations.{reserve}
use vci.Scheduler.Slots.{slots}
use vci.Store.Disk.{Disk, find_dir}
use vci.Store.Exclusion.{HeldBy}
use vci.Store.Lease.{claim_lease}
use vci.Store.LeaseLaws.{lease}
use vci.Store.Record.{RunRecord, validate_record}
use vci.Store.Runs.{load, load_path}
use vci.Store.Transitions.{moved}
use vci.System.Aborted.{Aborts, abort_run_lem}
use vci.System.Composites.{abort_run-History}
use vci.System.Histories.{History-WithinCapacity, History-frozen}
use vci.System.Steps.{History, beginning, claims_lease, reserves, step}

mac_has_room : WithinCapacity one_machine (disk_in staging)
unfolding slots effective_capacity
mac_has_room = record { bounded = λ m x l. ground arith }

-- A reservation, a worker's lease and a transition.
abbrev work : Disk → Disk
work d = (claim_lease (reserve load 10 d one_machine mac run_1 5).0 run_1 (codes "worker-1") 6 7).0

work-History : (d : Disk) → History one_machine d (work d)
work-History d = step (reserves 10 d mac run_1 5) (
    step (claims_lease (reserve load 10 d one_machine mac run_1 5).0 run_1 (codes "worker-1") 6 7)
      beginning)

History-WithinCapacity_example : WithinCapacity one_machine (work (disk_in staging))
History-WithinCapacity_example =
    History-WithinCapacity one_machine (disk_in staging) (work (disk_in staging))
      (work-History (disk_in staging)) mac_has_room

run_1_loads : load (disk_in succeeded) run_1 ≡ ok (run_in succeeded run_1)
unfolding load load_path find_dir validate_record valid_run_id name_chars is_name_char text_eq valid
run_1_loads = refl

succeeded_is_terminal : is_terminal succeeded ≡ true
unfolding is_terminal
succeeded_is_terminal = refl

History-frozen_example :
    load (abort_run 10 9 (disk_in succeeded) run_1).0 run_1 ≡ ok (run_in succeeded run_1)
History-frozen_example =
    History-frozen one_machine (disk_in succeeded) (abort_run 10 9 (disk_in succeeded) run_1).0
      run_1 (run_in succeeded run_1) (abort_run-History one_machine 10 9 (disk_in succeeded) run_1)
      run_1_loads succeeded_is_terminal

-- `run_1` is running and leased until 20.
abbrev worked_disk : Disk
worked_disk = record {
  runs =
      (run_1, record (dir_in running run_1) { lease = holds (lease run_1 (codes "worker-1") 20) })
      ∷ [];
  claims = [];
  healthy = true;
}

run_1_runs : load worked_disk run_1 ≡ ok (run_in running run_1)
unfolding load load_path find_dir validate_record valid_run_id name_chars is_name_char text_eq valid
run_1_runs = refl

worker_holds : HeldBy worked_disk run_1 (codes "worker-1") 20
unfolding find_dir text_eq
worker_holds = (refl, refl)

sweep_run-live_example :
    sweep_run 600000000000 600000000000 (swept_none worked_disk) run_1
    ≡ record (swept_none worked_disk) { active = run_1 ∷ [] }
sweep_run-live_example =
    sweep_run-live 600000000000 600000000000 (swept_none worked_disk) run_1 (codes "worker-1") 20
      (run_in running run_1) run_1_runs refl worker_holds (omega arith)

sweep_run-stale_example :
    load (sweep_run 600000000020 600000000020 (swept_none worked_disk) run_1).disk run_1
    ≡ ok (moved (run_in running run_1) lost 600000000020)
sweep_run-stale_example =
    sweep_run-stale 600000000020 600000000020 (swept_none worked_disk) run_1 (codes "worker-1") 20
      (run_in running run_1) run_1_runs refl worker_holds (omega arith)

abbrev two_blobs : List Blob
two_blobs =
    record { path = codes "new"; size = 3; modified = 9 }
    ∷ record { path = codes "old"; size = 4; modified = 2 }
    ∷ []

enforce-Enforces_example :
    Enforces
      (pos 5)
      (sort_by is_before two_blobs)
      (record { left = []; removed_bytes = 0; removed_entries = 0 })
      (enforce (pos 5) two_blobs)
enforce-Enforces_example = enforce-Enforces (pos 5) two_blobs

-- The older blob is removed.
enforce_test : enforce (pos 5) two_blobs ≡ record {
  left = record { path = codes "new"; size = 3; modified = 9 } ∷ [];
  removed_bytes = 4;
  removed_entries = 1;
}
unfolding enforce enforce_loop total_size
enforce_test = refl

-- A build request with a queued and a running target, beside a run of its own.
abbrev request_1 : RunRecord
request_1 = record (run_in queued run_1) {
  machine = [];
  children = codes "run_a" ∷ codes "run_b" ∷ [];
}

abbrev waiting_target : RunRecord
waiting_target = record (run_in queued (codes "run_a")) { parent_run_id = run_1 }

abbrev working_target : RunRecord
working_target = record (run_in running (codes "run_b")) { parent_run_id = run_1 }

abbrev request_disk : Disk
request_disk = record {
  runs =
      (run_1, record (dir_in queued run_1) { run = holds request_1 })
      ∷ (codes "run_a", record (dir_in queued (codes "run_a")) { run = holds waiting_target })
      ∷ (codes "run_b", record (dir_in running (codes "run_b")) { run = holds working_target })
      ∷ (run_2, dir_in running run_2)
      ∷ [];
  claims = [];
  healthy = true;
}

working_target_loads : load request_disk (codes "run_b") ≡ ok working_target
unfolding load load_path find_dir validate_record valid_run_id name_chars is_name_char text_eq valid
working_target_loads = refl

request_1_loads : load request_disk run_1 ≡ ok request_1
unfolding load load_path find_dir validate_record valid_run_id name_chars is_name_char text_eq valid
request_1_loads = refl

request_1_apart : In run_1 (codes "run_a" ∷ codes "run_b" ∷ []) → ⊥
unfolding text_eq
request_1_apart (inl e) = absurd (ground (arith, e, text_eq_iff (codes "run_a") run_1))
request_1_apart (inr (inl e)) = absurd (ground (arith, e, text_eq_iff (codes "run_b") run_1))
request_1_apart (inr (inr e)) = e

request_1_of : request_of request_disk working_target ≡ request_1
request_1_of = rw request_1_loads refl

queued_may_abort : transition queued aborted ≡ ok tt
unfolding transition valid can_transition next text_eq
queued_may_abort = refl

queued_goes_on : is_terminal queued ≡ false
unfolding is_terminal
queued_goes_on = refl

-- The abortion of the running target is one of the whole request.
abort_run_lem_example :
    ((abort_run 10 9 request_disk (codes "run_b")).1 ≡ ok (moved request_1 aborted 9))
    × Aborts request_disk (abort_run 10 9 request_disk (codes "run_b")).0 request_1 9
abort_run_lem_example =
    abort_run_lem 10 9 request_disk (codes "run_b") working_target request_1 working_target_loads
      request_1_of request_1_loads refl refl request_1_apart queued_may_abort queued_goes_on
