-- ===== src/Store/Runs.antt =====
-- internal/store/store.go: `Save`, `Load`, `Mutate`, `Transition` and `RequestCancellation`.
use vci.Base.{
  ℕ, ◌≡◌, ap, Bool, true, not, ◌&&◌, ◌||◌, Option, none, some, if◌then◌else◌, Result, ok, err,
  ◌>>=◌, File, absent, damaged, holds, Text, text_eq,
}
use vci.Model.Names.{valid_name, valid_run_id}
use vci.Model.State.{RunState, aborted, failed, is_terminal, state_eq, succeeded, transition}
use vci.Process.Execution.{Execution, read_execution, requested, write_execution}
use vci.Store.Disk.{Disk, RunDir, empty_dir, find_dir, put_dir}
use vci.Store.Record.{
  RunRecord, StoreError, bad_execution, bad_transition, cannot_cancel, invalid_record,
  invalid_run_id, not_exist, same_record, terminal_immutable, undecodable, validate_record,
  write_failed,
}

-- `loadPath`, of the directory that was found.
unfoldable pub load_path : File RunRecord → Text → Result StoreError RunRecord
load_path absent id = err not_exist
load_path damaged id = err undecodable
load_path (holds r) id =
    if not (text_eq r.id id) then err invalid_record else validate_record r >>= λ _. ok r

abbrev load_found : Option RunDir → Text → Result StoreError RunRecord
load_found none id = err not_exist
load_found (some dir) id = load_path dir.run id

unfoldable pub load : Disk → Text → Result StoreError RunRecord
load d id = if not (valid_run_id id) then err invalid_run_id else load_found (find_dir id d.runs) id

abbrev pub or_empty : Option RunDir → RunDir
or_empty none = empty_dir
or_empty (some dir) = dir

-- `saveUnlocked`: the record is replaced as a whole, or not at all.
unfoldable pub save_unlocked : Disk → RunRecord → Disk × Result StoreError (Unit {0})
save_unlocked d r = elim (validate_record r) [
  | err e ↦ (d, err e)
  | ok _ ↦
      if not (valid_name r.id)
      then (d, err invalid_run_id)
      else if not d.healthy
      then (d, err write_failed)
      else elim (find_dir r.id d.runs) [
        | none ↦ (d, err write_failed)
        | some dir ↦ (record d { runs = put_dir r.id (record dir { run = holds r }) d.runs }, ok tt)
      ]
]

-- `os.MkdirAll` of a run's directory.
unfoldable pub make_dir : Disk → Text → Disk
make_dir d id = record d { runs = put_dir id (or_empty (find_dir id d.runs)) d.runs }

unfoldable pub save : Disk → RunRecord → Disk × Result StoreError (Unit {0})
save d r = elim (validate_record r) [
  | err e ↦ (d, err e)
  | ok _ ↦
      if not (valid_name r.id)
      then (d, err invalid_run_id)
      else if not d.healthy
      then (d, err write_failed)
      else save_unlocked (make_dir d r.id) r
]

-- What a mutation does to a record. It can also rewrite the run's execution file, which stays
-- rewritten when it fails.
abbrev pub Change : Type 0
Change = File Execution → RunRecord → File Execution × Result StoreError RunRecord

-- `Mutate` after the callback. The record from before is a value here; Go's copy of it shares the slices,
-- which no callback of the code changes in place.
unfoldable pub commit_change :
    Disk → RunRecord → Result StoreError RunRecord → Disk × Result StoreError RunRecord
commit_change d before (err e) = (d, err e)
commit_change d before (ok r) =
    if is_terminal before.state && not (same_record before r)
    then (d, err terminal_immutable)
    else elim (validate_record r) [
      | err e ↦ (d, err e)
      | ok _ ↦ let (d', saved) = save_unlocked d r in (d', saved >>= λ _. ok r)
    ]

unfoldable pub mutate_dir : Disk → Text → RunDir → Change → Disk × Result StoreError RunRecord
mutate_dir d id dir change = elim (load_path dir.run id) [
  | err e ↦ (d, err e)
  | ok before ↦
      let (execution, r) = change dir.execution before in
      commit_change (record d { runs = put_dir id (record dir { execution = execution }) d.runs })
        before r
]

-- `Acquire` of the lock in a run's directory, which creates the directory.
unfoldable pub lock_dir : Disk → Text → Disk × Result StoreError RunDir
lock_dir d id = elim (find_dir id d.runs) [
  | some dir ↦ (d, ok dir)
  | none ↦
      if d.healthy
      then (record d { runs = put_dir id empty_dir d.runs }, ok empty_dir)
      else (d, err write_failed)
]

-- What is done in the locked directory.
abbrev pub with_lock :
    {A : Type 0}
    → Disk × Result StoreError RunDir
    → (Disk → RunDir → Disk × Result StoreError A)
    → Disk × Result StoreError A
with_lock (d, err e) body = (d, err e)
with_lock (d, ok dir) body = body d dir

unfoldable pub mutate : Disk → Text → Change → Disk × Result StoreError RunRecord
mutate d id change =
    if not (valid_name id)
    then (d, err invalid_run_id)
    else with_lock (lock_dir d id) (λ d' dir. mutate_dir d' id dir change)

-- The callback of `Transition`.
abbrev pub move_to : RunState → ℕ → Change
move_to to now execution r = elim (transition r.state to) [
  | err e ↦ (execution, err (bad_transition e))
  | ok _ ↦ (execution, ok (record r { state = to; updated_at = now }))
]

unfoldable pub transition_run : Disk → Text → RunState → ℕ → Disk × Result StoreError RunRecord
transition_run d id to now = mutate d id (move_to to now)

-- The callback of `RequestCancellation` once the record is marked.
abbrev pub cancel_execution :
    Bool → Text → ℕ → File Execution → RunRecord → File Execution × Result StoreError RunRecord
cancel_execution healthy id now execution r = elim (read_execution execution id) [
  | err e ↦ (execution, ok r)
  | ok e ↦
      elim (write_execution healthy
        (record e { cancellation_requested_at = some now; cancellation_phase = requested })) [
          | err x ↦ (execution, err bad_execution)
          | ok written ↦ (written, ok r)
        ]
]

abbrev pub request : Bool → Text → ℕ → Change
request healthy id now execution r =
    if state_eq r.state succeeded || state_eq r.state failed || state_eq r.state aborted
    then (execution, err cannot_cancel)
    else elim r.cancellation_requested_at [
      | some t ↦ (execution, ok r)
      | none ↦
          cancel_execution healthy id now execution
            (record r { cancellation_requested_at = some now; updated_at = now })
    ]

unfoldable pub request_cancellation : Disk → Text → ℕ → Disk × Result StoreError RunRecord
request_cancellation d id now = mutate d id (request d.healthy id now)

pub with_lock-found :
    {A : Type 0} (d : Disk) (id : Text) {dir : RunDir}
    (body : Disk → RunDir → Disk × Result StoreError A)
    → valid_name id ≡ true
    → find_dir id d.runs ≡ some dir
    → (if not (valid_name id) then (d, err invalid_run_id) else with_lock (lock_dir d id) body)
      ≡ body d dir
unfolding lock_dir
with_lock-found d id {dir = dir} body v f = rw v (ap (λ p. with_lock p body) found)
  where
    found : lock_dir d id ≡ (d, ok dir)
    found = rw (f, lock_dir)
