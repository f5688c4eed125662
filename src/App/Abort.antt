-- ===== src/App/Abort.antt =====
-- internal/app/lifecycle.go: `Abort`, `Abandon` and `cancelledByWorker`. `clock` is the `time.Now()` of
-- the scheduler, `now` the one of the function.
use vci.Base.{
  ℕ, Bool, true, false, ◌||◌, none, some, List, [], ◌∷◌, if◌then◌else◌, Result, ok, err, Text,
  is_empty,
}
use vci.Model.State.{aborted, committing, is_terminal, lost, queued, running, staging, state_eq}
use vci.Scheduler.Files.{release_claim}
use vci.Store.Disk.{Disk}
use vci.Store.Record.{RunRecord, StoreError}
use vci.Store.Runs.{load, request_cancellation, transition_run}
use vci.Store.Scans.{load_children}

pub data AbortError : Type 0 where
  store_failed : StoreError → AbortError
  not_abortable : AbortError

abbrev pub of_store : Result StoreError RunRecord → Result AbortError RunRecord
of_store (ok r) = ok r
of_store (err e) = err (store_failed e)

-- `_ = scheduler.Release(...)`
abbrev pub release_quietly : ℕ → Disk → Text → Text → Disk
release_quietly clock d machine run_id = (release_claim clock d machine run_id).0

-- The slot is released if the transition was made.
abbrev pub released_after :
    ℕ → RunRecord → Disk × Result StoreError RunRecord → Disk × Result AbortError RunRecord
released_after clock r (d, err e) = (d, err (store_failed e))
released_after clock r (d, ok s) = (release_quietly clock d s.machine r.id, ok s)

unfoldable pub abort_single : ℕ → ℕ → Disk → RunRecord → Disk × Result AbortError RunRecord
abort_single clock now d r = elim r.state [
  | queued ↦ released_after clock r (transition_run d r.id aborted now)
  | staging ↦ let (d', x) = request_cancellation d r.id now in (d', of_store x)
  | running ↦ let (d', x) = request_cancellation d r.id now in (d', of_store x)
  | committing ↦ let (d', x) = request_cancellation d r.id now in (d', of_store x)
  | lost ↦ (release_quietly clock d r.machine r.id, ok r)
  | _ ↦ (d, err not_abortable)
]

abbrev pub release_if_ok : ℕ → RunRecord → Disk × Result AbortError RunRecord → Disk
release_if_ok clock child (d, ok _) = release_quietly clock d child.machine child.id
release_if_ok clock child (d, err _) = d

-- The loop over the targets, as they were loaded before it.
unfoldable pub abort_children : ℕ → ℕ → Disk → List RunRecord → Disk
abort_children clock now d [] = d
abort_children clock now d (c ∷ cs) =
    if is_terminal c.state
    then abort_children clock now d cs
    else abort_children clock now (release_if_ok clock c (abort_single clock now d c)) cs

abbrev parent_found : RunRecord → Result StoreError RunRecord → RunRecord
parent_found r (ok parent) = parent
parent_found r (err e) = r

-- The build request of a target, if it can be loaded.
abbrev pub request_of : Disk → RunRecord → RunRecord
request_of d r = if is_empty r.parent_run_id then r else parent_found r (load d r.parent_run_id)

abbrev pub children_or_none : Result StoreError (List RunRecord) → List RunRecord
children_or_none (ok cs) = cs
children_or_none (err e) = []

abbrev pub has_children : RunRecord → Bool
has_children r = elim r.children [ [] ↦ false | _ ↦ true ]

-- A build request, after its targets.
abbrev pub abort_request : ℕ → ℕ → Disk → RunRecord → Disk × Result AbortError RunRecord
abort_request clock now d r =
    let d' = abort_children clock now d (children_or_none (load_children d r.id)) in
    let (d'', x) = transition_run d' r.id aborted now in (d'', of_store x)

unfoldable pub abort_record : ℕ → ℕ → Disk → RunRecord → Disk × Result AbortError RunRecord
abort_record clock now d r =
    if has_children r then abort_request clock now d r else abort_single clock now d r

unfoldable pub abort_run : ℕ → ℕ → Disk → Text → Disk × Result AbortError RunRecord
abort_run clock now d id = elim (load d id) [
  | err e ↦ (d, err (store_failed e))
  | ok r ↦ abort_record clock now d (request_of d r)
]

abbrev pub abandoned :
    ℕ → RunRecord → Disk × Result StoreError RunRecord → Disk × Result StoreError (Unit {0})
abandoned clock r (d, err e) = (d, err e)
abandoned clock r (d, ok _) = (release_quietly clock d r.machine r.id, ok tt)

unfoldable pub abandon : ℕ → ℕ → Disk → Text → Disk × Result StoreError (Unit {0})
abandon clock now d id = elim (load d id) [
  | err e ↦ (d, err e)
  | ok r ↦
      if state_eq r.state queued || state_eq r.state staging
      then abandoned clock r (transition_run d id aborted now)
      else (release_quietly clock d r.machine id, ok tt)
]

unfoldable pub cancelled_by_worker : Bool → Result StoreError RunRecord → Bool
cancelled_by_worker context_done latest = context_done || elim latest [
  | err e ↦ false
  | ok r ↦ elim r.cancellation_requested_at [ none ↦ false | some t ↦ true ]
]
