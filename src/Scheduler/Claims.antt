-- ===== src/Scheduler/Claims.antt =====
-- internal/scheduler/claims.go: claim files, their validation and their enumeration. A time is a
-- number of nanoseconds since Go's zero time; `clock` is `time.Now()`.
use vci.Base.{
  ℕ, suc, ◌+◌, Bool, not, ◌&&◌, ◌||◌, Option, none, some, List, [], ◌∷◌, ◌++◌, ltb, ◌==◌,
  if◌then◌else◌, Result, ok, err, Text, codes, text_eq,
}
use vci.Model.Names.{valid_name, valid_run_id}
use vci.Store.Disk.{
  Claim, ClaimContent, ClaimFile, claim, directory, empty, garbled, regular, symlink,
}
use vci.Store.Record.{StoreError}
use mathlib.Core.Option

pub data ClaimError : Type 0 where
  missing is_symlink not_regular is_empty_file bad_json bad_schema : ClaimError
  wrong_machine wrong_run zero_time future_time : ClaimError

pub data SchedulerError : Type 0 where
  bad_run_id bad_machine no_candidates unknown_machine future_now : SchedulerError
  no_capacity remove_failed write_failed : SchedulerError
  bad_claim corrupt_claim : ClaimError → SchedulerError
  load_failed publish_failed rollback_failed : StoreError → SchedulerError

pub record Reservation : Type 0 where
  pub machine : Text
  pub run_id : Text
  pub created_at : ℕ

abbrev pub minute : ℕ
minute = 60000000000

abbrev pub claim_schema_version : ℕ
claim_schema_version = 1

abbrev pub dot_json : Text
dot_json = codes ".json"

-- The checks of a decoded claim.
unfoldable pub check_claim : ℕ → Claim → Text → Text → Result ClaimError Reservation
check_claim clock c machine run_id =
    if not (c.schema_version == claim_schema_version)
    then err bad_schema
    else if not (valid_name c.machine) || not (text_eq c.machine machine)
    then err wrong_machine
    else if not (valid_run_id c.run_id) || not (text_eq c.run_id run_id)
    then err wrong_run
    else if c.created_at == 0
    then err zero_time
    else if ltb (clock + minute) c.created_at
    then err future_time
    else ok (record { machine = c.machine; run_id = c.run_id; created_at = c.created_at })

abbrev check_content : ℕ → ClaimContent → Text → Text → Result ClaimError Reservation
check_content clock empty machine run_id = err is_empty_file
check_content clock garbled machine run_id = err bad_json
check_content clock (claim c) machine run_id = check_claim clock c machine run_id

unfoldable pub validate_claim_file : ℕ → ClaimFile → Text → Text → Result ClaimError Reservation
validate_claim_file clock f machine run_id = elim f.kind [
  | symlink ↦ err is_symlink
  | regular ↦ check_content clock f.content machine run_id
  | _ ↦ err not_regular
]

-- Whether a file is the claim file of a machine and a run.
abbrev pub is_claim_of : Text → Text → ClaimFile → Bool
is_claim_of machine run_id f = text_eq f.machine machine && text_eq f.name (run_id ++ dot_json)

unfoldable pub find_claim : Text → Text → List ClaimFile → Option ClaimFile
find_claim machine run_id [] = none
find_claim machine run_id (f ∷ fs) =
    if is_claim_of machine run_id f then some f else find_claim machine run_id fs

-- `os.Remove` of the claim file of a machine and a run.
unfoldable pub remove_claim : Text → Text → List ClaimFile → List ClaimFile
remove_claim machine run_id [] = []
remove_claim machine run_id (f ∷ fs) =
    let rest = remove_claim machine run_id fs in
    if is_claim_of machine run_id f then rest else f ∷ rest

-- The name without its suffix `.json`, if it has one.
unfoldable pub strip_json : Text → Option Text
strip_json [] = none
strip_json (c ∷ cs) =
    if text_eq (c ∷ cs) dot_json then some [] else Option.map (λ rest. c ∷ rest) (strip_json cs)

-- The run id of a file that `enumerateClaims` does not pass over.
unfoldable pub claimed_run : ClaimFile → Option Text
claimed_run f = if not (valid_name f.machine) then none else elim f.kind [
  | directory ↦ none
  | _ ↦ elim (strip_json f.name) [
    | none ↦ none
    | some run_id ↦ if valid_run_id run_id then some run_id else none
  ]
]

abbrev cons_claim :
    Reservation
    → Result SchedulerError (List Reservation)
    → Result SchedulerError (List Reservation)
cons_claim r (err e) = err e
cons_claim r (ok rs) = ok (r ∷ rs)

-- `enumerateClaims`: one claim that does not validate is an error of the whole.
unfoldable pub enumerate_claims : ℕ → List ClaimFile → Result SchedulerError (List Reservation)
enumerate_claims clock [] = ok []
enumerate_claims clock (f ∷ fs) = elim (claimed_run f) [
  | none ↦ enumerate_claims clock fs
  | some run_id ↦ elim (validate_claim_file clock f f.machine run_id) [
    | err e ↦ err (corrupt_claim e)
    | ok r ↦ cons_claim r (enumerate_claims clock fs)
  ]
]

-- `countActiveByMachine`, looked up at a machine.
unfoldable pub count_active : Text → List Reservation → ℕ
count_active m [] = 0
count_active m (r ∷ rs) =
    let rest = count_active m rs in if text_eq r.machine m then suc rest else rest
