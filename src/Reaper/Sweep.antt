-- ===== src/Reaper/Sweep.antt =====
-- internal/reaper/reaper.go: the sweep of `Run` over the run records. A duration is a number of
-- nanoseconds; `clock` is the `time.Now()` of the scheduler.
use vci.Base.{
  ℕ, ◌+◌, Bool, false, not, ◌&&◌, List, [], ◌∷◌, ltb, leb, if◌then◌else◌, Result, ok, err, Text,
  is_empty,
}
use vci.App.Abort.{has_children}
use vci.Model.State.{aborted, committing, lost, queued, running, staging, state_eq}
use vci.Scheduler.Claims.{Reservation, SchedulerError}
use vci.Scheduler.Files.{release_claim, reservation_for}
use vci.Store.Disk.{Disk, Lease}
use vci.Store.Lease.{read_has_no_lease, read_lease}
use vci.Store.Record.{RunRecord, StoreError, not_exist}
use vci.Store.Runs.{load, transition_run}
use vci.Store.Scans.{run_ids}

abbrev pub renewal_grace : ℕ
renewal_grace = 600000000000

abbrev pub pre_start_grace : ℕ
pre_start_grace = 60000000000

-- What the sweep does to a run.
pub data Action : Type 0 where
  leave : Action
  mark_active : Action
  release_slot : Action
  abort_queued_run : Action
  mark_lost : Action

-- `now.Sub(created) >= preStartGrace`
abbrev is_overdue : ℕ → Result SchedulerError Reservation → Bool
is_overdue now (ok r) = leb (r.created_at + pre_start_grace) now
is_overdue now (err e) = false

abbrev queued_action : ℕ → ℕ → Disk → Text → RunRecord → Action
queued_action clock now d id r =
    if not (is_empty r.parent_run_id)
    then (if is_overdue now (reservation_for clock d r.machine id) then release_slot else leave)
    else if not (has_children r) && read_has_no_lease d id
    then abort_queued_run
    else leave

-- A staging run without a lease waits for its worker while its reservation is young.
abbrev staging_action : ℕ → Result SchedulerError Reservation → Action
staging_action now (err e) = mark_lost
staging_action now (ok r) = if ltb now (r.created_at + pre_start_grace) then leave else mark_lost

abbrev pub started_action : ℕ → ℕ → Disk → Text → RunRecord → Result StoreError Lease → Action
started_action clock now d id r (ok x) =
    if ltb now (x.expires_at + renewal_grace) then mark_active else mark_lost
started_action clock now d id r (err not_exist) =
    if state_eq r.state staging
    then staging_action now (reservation_for clock d r.machine id)
    else mark_lost
started_action clock now d id r (err e) = leave

unfoldable pub action_of : ℕ → ℕ → Disk → Text → RunRecord → Action
action_of clock now d id r = elim r.state [
  | queued ↦ queued_action clock now d id r
  | staging ↦ started_action clock now d id r (read_lease d id)
  | running ↦ started_action clock now d id r (read_lease d id)
  | committing ↦ started_action clock now d id r (read_lease d id)
  | _ ↦ leave
]

-- The fields of `Report` that the sweep counts, and the runs with a live lease.
pub record Swept : Type 0 where
  pub disk : Disk
  pub queued_aborted : ℕ
  pub marked_lost : ℕ
  pub active : List Text

abbrev one_if_ok : Result StoreError RunRecord → ℕ
one_if_ok (ok r) = 1
one_if_ok (err e) = 0

unfoldable pub perform : ℕ → ℕ → Swept → Text → RunRecord → Action → Swept
perform clock now s id r leave = s
perform clock now s id r mark_active = record s { active = id ∷ s.active }
perform clock now s id r release_slot = record s {
  disk = (release_claim clock s.disk r.machine id).0;
}
perform clock now s id r abort_queued_run =
    let (d', x) = transition_run s.disk id aborted now in
    record s { disk = d'; queued_aborted = s.queued_aborted + one_if_ok x }
perform clock now s id r mark_lost =
    let (d', x) = transition_run s.disk id lost now in
    record s { disk = d'; marked_lost = s.marked_lost + one_if_ok x }

unfoldable pub sweep_run : ℕ → ℕ → Swept → Text → Swept
sweep_run clock now s id = elim (load s.disk id) [
  | err e ↦ s
  | ok r ↦ perform clock now s id r (action_of clock now s.disk id r)
]

unfoldable pub sweep_runs : ℕ → ℕ → Swept → List Text → Swept
sweep_runs clock now s [] = s
sweep_runs clock now s (id ∷ ids) = sweep_runs clock now (sweep_run clock now s id) ids

abbrev pub swept_none : Disk → Swept
swept_none d = record { disk = d; queued_aborted = 0; marked_lost = 0; active = [] }

-- The first loop of `Run`, over the directories of runs.
unfoldable pub sweep : ℕ → ℕ → Disk → Swept
sweep clock now d = sweep_runs clock now (swept_none d) (run_ids d.runs)
