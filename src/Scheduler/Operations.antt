-- ===== src/Scheduler/Operations.antt =====
-- internal/scheduler/claims.go and scheduler.go: the operations under the scheduler's lock. `loader`
-- is the `recordLoader` that reads run records, and `clock` is `time.Now()`.
use vci.Base.{
  ℕ, ◌+◌, ◌-◌, not, none, some, List, [], ◌∷◌, ltb, leb, if◌then◌else◌, Result, ok, err, ◌>>=◌,
  Text, lookup,
}
use vci.Config.Defaults.{effective_capacity}
use vci.Config.Types.{Config, Machine}
use vci.Model.Names.{valid_name, valid_run_id}
use vci.Model.State.{is_terminal}
use vci.Scheduler.Choose.{
  Snapshot, choose_slot, compute_machine_snapshots, validate_run_and_candidates,
}
use vci.Scheduler.Claims.{
  Reservation, SchedulerError, bad_machine, bad_run_id, claim_schema_version, count_active,
  enumerate_claims, future_now, load_failed, minute, no_capacity, publish_failed, rollback_failed,
  unknown_machine,
}
use vci.Scheduler.Files.{drop_claim, write_claim}
use vci.Store.Disk.{Disk}
use vci.Store.Record.{RunRecord, StoreError, not_exist}

pub record MachineStatus : Type 0 where
  pub machine : Text
  pub capacity : ℕ
  pub active : ℕ
  pub available : ℕ

-- The loop of `Status`; `maxInt(0, capacity - active)` is the truncated subtraction.
unfoldable pub statuses : List Snapshot → List MachineStatus
statuses [] = []
statuses (s ∷ ss) =
    record {
      machine = s.name;
      capacity = s.capacity;
      active = s.active;
      available = s.capacity - s.active;
    }
    ∷ statuses ss

-- What the state of a claim's run record asks of the claim.
pub data Verdict : Type 0 where
  stays goes : Verdict
  fails : StoreError → Verdict

unfoldable pub claim_verdict : Result StoreError RunRecord → Verdict
claim_verdict (err not_exist) = goes
claim_verdict (err e) = fails e
claim_verdict (ok r) = if is_terminal r.state then goes else stays

-- The rollback of `ReserveAndPublish` after a failed publication.
unfoldable pub roll_back : Disk → Text → Text → StoreError → Disk × Result SchedulerError Text
roll_back d machine run_id e =
    let (d', removed) = drop_claim d machine run_id in
    (d', elim removed [ ok _ ↦ err (publish_failed e) | err _ ↦ err (rollback_failed e) ])

-- From the chosen slot on. The answer names the machine.
unfoldable pub claim_and_publish :
    Disk
    → Text
    → Text
    → ℕ
    → (Text → Disk → Disk × Result StoreError (Unit {0}))
    → Disk × Result SchedulerError Text
claim_and_publish d machine run_id now publish =
    let (d', written) = write_claim d machine (record {
      schema_version = claim_schema_version;
      machine = machine;
      run_id = run_id;
      created_at = now;
    }) in
    elim written [
      | err e ↦ (d', err e)
      | ok _ ↦
          let (d'', published) = publish machine d' in
          elim published [ ok _ ↦ (d'', ok machine) | err e ↦ roll_back d'' machine run_id e ]
    ]

abbrev pub active_in : List Reservation → Text → ℕ
active_in cs m = count_active m cs

module _ (loader : Disk → Text → Result StoreError RunRecord) where
  -- The loop of `reapClaims`, with the number of claims that it has removed.
  unfoldable pub reap_each :
      Disk → ℕ → List Reservation → Disk × ℕ × Result SchedulerError (Unit {0})
  reap_each d n [] = (d, n, ok tt)
  reap_each d n (c ∷ cs) = elim (claim_verdict (loader d c.run_id)) [
    | fails e ↦ (d, n, err (load_failed e))
    | stays ↦ reap_each d n cs
    | goes ↦
        let (d', removed) = drop_claim d c.machine c.run_id in
        elim removed [ err e ↦ (d', n, err e) | ok _ ↦ reap_each d' (n + 1) cs ]
  ]

  unfoldable pub reap_claims : ℕ → Disk → Disk × ℕ × Result SchedulerError (Unit {0})
  reap_claims clock d = elim (enumerate_claims clock d.claims) [
    | err e ↦ (d, 0, err e)
    | ok cs ↦ reap_each d 0 cs
  ]

  -- The state after the reap and the counts of the claims that are left.
  unfoldable pub reap_and_count : ℕ → Disk → Disk × Result SchedulerError (List Reservation)
  reap_and_count clock d =
      let (d', n, swept) = reap_claims clock d in
      (d', swept >>= λ _. enumerate_claims clock d'.claims)

  unfoldable pub reserve_and_publish :
      ℕ
      → Disk
      → Config
      → Text
      → List Text
      → ℕ
      → (Text → Disk → Disk × Result StoreError (Unit {0}))
      → Disk × Result SchedulerError Text
  reserve_and_publish clock d cfg run_id candidates now publish =
      elim (validate_run_and_candidates cfg run_id candidates) [
        | err e ↦ (d, err e)
        | ok _ ↦
            if ltb (clock + minute) now
            then (d, err future_now)
            else let (d', counted) = reap_and_count clock d in
              elim counted [
                | err e ↦ (d', err e)
                | ok cs ↦ elim (choose_slot (active_in cs) cfg candidates) [
                  | none ↦ (d', err no_capacity)
                  | some s ↦ claim_and_publish d' s.name run_id now publish
                ]
              ]
      ]

  -- From the machine's entry of the inventory on.
  unfoldable pub reserve_on :
      ℕ → Disk → Machine → Text → Text → ℕ → Disk × Result SchedulerError (Unit {0})
  reserve_on clock d m machine run_id now =
      let (d', counted) = reap_and_count clock d in
      elim counted [
        | err e ↦ (d', err e)
        | ok cs ↦
            if leb (effective_capacity m) (count_active machine cs)
            then (d', err no_capacity)
            else write_claim d' machine (record {
              schema_version = claim_schema_version;
              machine = machine;
              run_id = run_id;
              created_at = now;
            })
      ]

  unfoldable pub reserve :
      ℕ → Disk → Config → Text → Text → ℕ → Disk × Result SchedulerError (Unit {0})
  reserve clock d cfg machine run_id now =
      if not (valid_name machine)
      then (d, err bad_machine)
      else if not (valid_run_id run_id)
      then (d, err bad_run_id)
      else elim (lookup machine cfg.machines) [
        | none ↦ (d, err unknown_machine)
        | some m ↦
            if ltb (clock + minute) now
            then (d, err future_now)
            else reserve_on clock d m machine run_id now
      ]

  unfoldable pub reap : ℕ → Disk → Disk × ℕ × Result SchedulerError (Unit {0})
  reap clock d = reap_claims clock d

  unfoldable pub status : ℕ → Disk → Config → Disk × Result SchedulerError (List MachineStatus)
  status clock d cfg =
      let (d', counted) = reap_and_count clock d in
      (d', counted >>= λ cs. ok (statuses (compute_machine_snapshots (active_in cs) cfg)))
