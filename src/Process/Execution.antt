-- ===== src/Process/Execution.antt =====
-- internal/process/process.go: `Execution`, `Validate`, `WriteExecution`, `ReadExecution`.
use vci.Base.{
  ℕ, ◌≡◌, Bool, true, false, not, ◌||◌, Option, arith, ltb, ◌==◌, if◌then◌else◌, length, Result, ok,
  err, ◌>>=◌, File, absent, damaged, holds, Text, text_eq,
}
use vci.Model.Names.{valid_run_id}

pub data CancellationPhase : Type 0 where
  no_phase requested terminating reaped killed : CancellationPhase
  other_phase : Text → CancellationPhase

-- `PID` and `PGID` are 0 where the code has a number that is not positive.
pub record Execution : Type 0 where
  pub schema_version : ℕ
  pub run_id : Text
  pub owner : Text
  pub pid : ℕ
  pub pgid : ℕ
  pub started_at : ℕ
  pub cancellation_requested_at : Option ℕ
  pub cancellation_phase : CancellationPhase

pub data ExecutionError : Type 0 where
  unsupported_schema run_mismatch owner_invalid process_invalid start_missing : ExecutionError
  phase_invalid no_execution undecodable write_failed : ExecutionError

unfoldable pub known_phase : CancellationPhase → Bool
known_phase (other_phase t) = false
known_phase _ = true

abbrev pub execution_schema_version : ℕ
execution_schema_version = 1

unfoldable pub validate : Execution → Text → Result ExecutionError (Unit {0})
unfolding known_phase
validate e id =
    if not (e.schema_version == execution_schema_version)
    then err unsupported_schema
    else if not (text_eq e.run_id id) || not (valid_run_id id)
    then err run_mismatch
    else if ltb (length e.owner) 8
    then err owner_invalid
    else if e.pid == 0 || e.pgid == 0
    then err process_invalid
    else if e.started_at == 0
    then err start_missing
    else if not (known_phase e.cancellation_phase)
    then err phase_invalid
    else ok tt

-- The new content of the file. With `healthy` false the file cannot be written.
unfoldable pub write_execution : Bool → Execution → Result ExecutionError (File Execution)
write_execution healthy e = elim (validate e e.run_id) [
  | err x ↦ err x
  | ok _ ↦ if healthy then ok (holds e) else err write_failed
]

unfoldable pub read_execution : File Execution → Text → Result ExecutionError Execution
read_execution absent id = err no_execution
read_execution damaged id = err undecodable
read_execution (holds e) id = validate e id >>= λ _. ok e

-- What `WriteExecution` has written is read back by `ReadExecution` under its own run id.
pub read-write_execution :
    (healthy : Bool) (e : Execution) {f : File Execution}
    → write_execution healthy e ≡ ok f
    → read_execution f e.run_id ≡ ok e
unfolding write_execution read_execution
read-write_execution healthy e h = ground arith
