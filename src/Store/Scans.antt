-- ===== src/Store/Scans.antt =====
-- internal/store/store.go: the reads over several runs, `LoadChildren`, `LoadQueuedChildren` and
-- `HasLiveBuild`.
use vci.Base.{
  Bool, not, ◌&&◌, ◌||◌, Option, none, some, List, [], ◌∷◌, if◌then◌else◌, keep, Result, ok, err,
  ◌>>=◌, File, absent, damaged, holds, Text, is_empty,
}
use vci.Model.State.{is_terminal, queued, state_eq}
use vci.Store.Disk.{Disk, RunDir}
use vci.Store.Record.{RunRecord, StoreError}
use vci.Store.Runs.{load}

abbrev pub cons_ok : Result StoreError RunRecord → List RunRecord → List RunRecord
cons_ok (err e) rs = rs
cons_ok (ok r) rs = r ∷ rs

-- A record that cannot be loaded is skipped.
unfoldable pub load_each : Disk → List Text → List RunRecord
load_each d [] = []
load_each d (id ∷ ids) = cons_ok (load d id) (load_each d ids)

unfoldable pub load_children : Disk → Text → Result StoreError (List RunRecord)
load_children d parent = do r ← load d parent; ok (load_each d r.children)

abbrev pub run_ids : List (Text × RunDir) → List Text
run_ids [] = []
run_ids ((id, dir) ∷ rest) = id ∷ run_ids rest

abbrev pub is_queued_child : RunRecord → Bool
is_queued_child r = state_eq r.state queued && not (is_empty r.parent_run_id)

unfoldable pub load_queued_children : Disk → List RunRecord
load_queued_children d = keep is_queued_child (load_each d (run_ids d.runs))

-- `HasLiveBuild` reads two fields of run.json without validating it. A file of which these two decode
-- and others do not is not told apart from `damaged`.
abbrev live_parent : File RunRecord → Option Text
live_parent absent = none
live_parent damaged = none
live_parent (holds r) =
    if is_empty r.parent_run_id || is_terminal r.state then none else some r.parent_run_id

abbrev first_live : List (Text × RunDir) → Option Text
first_live [] = none
first_live ((id, dir) ∷ rest) = elim (live_parent dir.run) [
  | some p ↦ some p
  | none ↦ first_live rest
]

unfoldable pub has_live_build : Disk → Option Text
has_live_build d = first_live d.runs
