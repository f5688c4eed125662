-- ===== src/Reaper/Aggregate.antt =====
-- internal/reaper/reaper.go: `aggregateParents`, without the removal of shared sources.
use vci.Base.{ℕ, not, ◌||◌, List, [], ◌∷◌, if◌then◌else◌, Result, ok, err, Text}
use vci.App.Abort.{has_children}
use vci.Model.State.{RunState, aborted, aggregating, is_terminal, state_eq}
use vci.Store.Aggregate.{aggregate_state}
use vci.Store.Disk.{Disk}
use vci.Store.Record.{RunRecord, StoreError}
use vci.Store.Runs.{Change, load, mutate}
use vci.Store.Scans.{load_children, run_ids}

-- The callback that sets the state of a build request.
abbrev pub settle : RunState → ℕ → Change
settle state now execution r =
    if is_terminal r.state
    then (execution, ok r)
    else (execution, ok (record r { state = state; updated_at = now }))

unfoldable pub settle_request : ℕ → Disk → RunRecord → List RunRecord → Disk
settle_request now d parent cs =
    let state = (aggregate_state cs (state_eq parent.state aborted)).0 in
    if state_eq state aggregating then d else (mutate d parent.id (settle state now)).0

abbrev pub settle_loaded : ℕ → Disk → RunRecord → Result StoreError (List RunRecord) → Disk
settle_loaded now d parent (ok cs) = settle_request now d parent cs
settle_loaded now d parent (err e) = d

unfoldable pub aggregate_parent : ℕ → Disk → Text → Disk
aggregate_parent now d id = elim (load d id) [
  | err e ↦ d
  | ok r ↦
      if not (has_children r) || is_terminal r.state
      then d
      else settle_loaded now d r (load_children d r.id)
]

unfoldable pub aggregate_each : ℕ → Disk → List Text → Disk
aggregate_each now d [] = d
aggregate_each now d (id ∷ ids) = aggregate_each now (aggregate_parent now d id) ids

unfoldable pub aggregate_parents : ℕ → Disk → Disk
aggregate_parents now d = aggregate_each now d (run_ids d.runs)
