-- ===== src/Scheduler/Files.antt =====
-- internal/scheduler/claims.go and scheduler.go: writing, removing, releasing and reading one claim
-- file.
use vci.Base.{ℕ, not, none, some, [], ◌∷◌, ◌++◌, if◌then◌else◌, Result, ok, err, Text}
use vci.Model.Names.{valid_name, valid_run_id}
use vci.Scheduler.Claims.{
  Reservation, SchedulerError, bad_claim, bad_machine, bad_run_id, dot_json, find_claim, missing,
  remove_claim, remove_failed, validate_claim_file, write_failed,
}
use vci.Store.Disk.{Claim, ClaimFile, Disk, claim, regular}

-- The file of a claim of a machine.
abbrev pub claim_file : Text → Claim → ClaimFile
claim_file machine c = record {
  machine = machine;
  name = c.run_id ++ dot_json;
  kind = regular;
  content = claim c;
}

-- `atomicWriteClaim`: the rename replaces a claim file of the same name.
unfoldable pub write_claim : Disk → Text → Claim → Disk × Result SchedulerError (Unit {0})
write_claim d machine c = if not d.healthy then (d, err write_failed) else (
  record d { claims = remove_claim machine c.run_id d.claims ++ claim_file machine c ∷ [] },
  ok tt,
)

-- `os.Remove` of a claim file, where a missing file is no error.
unfoldable pub drop_claim : Disk → Text → Text → Disk × Result SchedulerError (Unit {0})
drop_claim d machine run_id = elim (find_claim machine run_id d.claims) [
  | none ↦ (d, ok tt)
  | some f ↦
      if d.healthy
      then (record d { claims = remove_claim machine run_id d.claims }, ok tt)
      else (d, err remove_failed)
]

unfoldable pub release_claim : ℕ → Disk → Text → Text → Disk × Result SchedulerError (Unit {0})
release_claim clock d machine run_id =
    if not (valid_name machine)
    then (d, err bad_machine)
    else if not (valid_run_id run_id)
    then (d, err bad_run_id)
    else elim (find_claim machine run_id d.claims) [
      | none ↦ (d, ok tt)
      | some f ↦ elim (validate_claim_file clock f machine run_id) [
        | err e ↦ (d, err (bad_claim e))
        | ok _ ↦ drop_claim d machine run_id
      ]
    ]

unfoldable pub reservation_for : ℕ → Disk → Text → Text → Result SchedulerError Reservation
reservation_for clock d machine run_id =
    if not (valid_name machine)
    then err bad_machine
    else if not (valid_run_id run_id)
    then err bad_run_id
    else elim (find_claim machine run_id d.claims) [
      | none ↦ err (bad_claim missing)
      | some f ↦ elim (validate_claim_file clock f machine run_id) [
        | err e ↦ err (bad_claim e)
        | ok r ↦ ok r
      ]
    ]
