-- ===== src/System/Cancelling.antt =====
-- internal/store/store.go, `RequestCancellation`: what it stores for a run that has not ended.
use vci.Base.{
  ℕ, ◌≡◌, refl, sym, subst, inl, inr, Bool, true, false, none, some, arith, if◌then◌else◌, Result,
  ok, err, File, absent, damaged, holds, Result-cases, Text, text_eq_sound, text_eq_refl,
}
use vci.Model.State.{is_terminal}
use vci.Process.Execution.{
  Execution, known_phase, read_execution, requested, validate, write_execution,
}
use vci.Store.Disk.{Disk, find_dir-put_dir, put_dir}
use vci.Store.Immutable.{Loaded, Loaded-load, Loaded-put, save_unlocked-Loaded, save_unlocked-found}
use vci.Store.Record.{RunRecord, StoreError, validate_record, write_failed}
use vci.Store.Runs.{
  cancel_execution, commit_change, load, request, request_cancellation, save_unlocked,
}
use vci.Store.Transitions.{mutate-found, mutate-quiet}

abbrev pub marked : RunRecord → ℕ → RunRecord
marked r now = record r { cancellation_requested_at = some now; updated_at = now }

abbrev marked_execution : Execution → ℕ → Execution
marked_execution e now = record e {
  cancellation_requested_at = some now;
  cancellation_phase = requested;
}

marked_execution-valid :
    (e : Execution) (id : Text) (now : ℕ)
    → validate e id ≡ ok tt
    → validate (marked_execution e now) e.run_id ≡ ok tt
unfolding validate known_phase
marked_execution-valid e id now h =
    let own : e.run_id ≡ id = ground (arith, h, text_eq_sound e.run_id id) in
    subst (λ i. validate (marked_execution e now) i ≡ ok tt) (sym own) (ground (arith, h))

-- The execution file is rewritten or left alone, and never stands in the way.
cancel_execution-marks :
    (id : Text) (now : ℕ) (execution : File Execution) (r : RunRecord)
    → (x : File Execution) × (cancel_execution true id now execution r ≡ (x, ok r))
unfolding read_execution write_execution
cancel_execution-marks id now absent r = (absent, refl)
cancel_execution-marks id now damaged r = (damaged, refl)
cancel_execution-marks id now (holds e) r = elim (Result-cases (validate e id)) [
  | inr (x, h) ↦ (holds e, ground (arith, h))
  | inl (_, h) ↦
      (holds (marked_execution e now), ground (arith, h, marked_execution-valid e id now h))
]

-- A record that passes the checks is stored.
saved-Loaded :
    {d : Disk} {id : Text} {r : RunRecord}
    → Loaded d id r
    → (s : RunRecord) → validate_record s ≡ ok tt
    → s.id ≡ id
    → d.healthy ≡ true
    → Loaded (save_unlocked d s).0 id s
saved-Loaded {d} {id} l s v own up =
    let dir = record l.dir { run = holds s } in
    let d' = record d { runs = put_dir id dir d.runs } in
    rw (save_unlocked-found d id s l.dir v l.name_valid own l.found) (
      subst
        (λ (b : Bool).
          let q : Disk × Result StoreError (Unit {0}) =
            if b then (d', ok tt) else (d, err write_failed) in
          Loaded q.0 id s)
        (sym up)
        (record {
          dir = dir;
          name_valid = l.name_valid;
          found = ground (arith, find_dir-put_dir id id dir d.runs, text_eq_refl id);
          stored = refl;
          own_id = own;
          record_valid = v;
        }))

module _ {d : Disk} {id : Text} {r : RunRecord} (l : Loaded d id r) (now : ℕ)
    (goes_on : is_terminal r.state ≡ false) where
  pub request_again :
      (t : ℕ)
      → r.cancellation_requested_at ≡ some t
      → load (request_cancellation d id now).0 id ≡ ok r
  unfolding request_cancellation commit_change is_terminal
  request_again t e =
      rw (mutate-quiet l (request d.healthy id now) (ok r) (ground (arith, e, goes_on)))
        (ground (arith, goes_on, l.record_valid, Loaded-load (save_unlocked-Loaded l)))

  marked_valid : validate_record (marked r now) ≡ ok tt
  unfolding validate_record
  marked_valid = ground (arith, l.record_valid)

  marked_change :
      r.cancellation_requested_at ≡ none
      → d.healthy ≡ true
      → (x : File Execution) × (request d.healthy id now l.dir.execution r ≡ (x, ok (marked r now)))
  unfolding is_terminal
  marked_change e up =
      let (x, h) = cancel_execution-marks id now l.dir.execution (marked r now) in
      (x, ground (arith, e, up, h, goes_on))

  -- The disk with the rewritten execution file, under the old record.
  abbrev rewritten : File Execution → Disk
  rewritten x = record d { runs = put_dir id (record l.dir { execution = x }) d.runs }

  rewritten-Loaded : (x : File Execution) → Loaded (rewritten x) id r
  rewritten-Loaded x = Loaded-put l (record l.dir { execution = x }) l.stored

  pub request_first :
      r.cancellation_requested_at ≡ none
      → d.healthy ≡ true
      → load (request_cancellation d id now).0 id ≡ ok (marked r now)
  unfolding request_cancellation commit_change
  request_first e up =
      let (x, h) = marked_change e up in
      rw (mutate-found l (request d.healthy id now) x (ok (marked r now)) h) (
        rw (goes_on, marked_valid)
          (Loaded-load (saved-Loaded (rewritten-Loaded x) (marked r now) marked_valid l.own_id up)))
