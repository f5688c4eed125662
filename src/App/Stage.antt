-- ===== src/App/Stage.antt =====
-- internal/app/build.go: `stageFanout` and `rollbackRuns`. The identifiers that `NewRunID` draws are
-- arguments, `none` where it fails; so are the JSON of the snapshots and the digest of a snapshot.
use vci.Base.{
  ℕ, ◌&&◌, Option, none, some, List, [], ◌∷◌, ◌++◌, if◌then◌else◌, Result, ok, err, ◌>>=◌, Text,
  text_eq,
}
use vci.Config.Defaults.{resolve_command}
use vci.Config.Types.{Project}
use vci.Model.Names.{valid_name}
use vci.Store.Disk.{Disk, RunDir}
use vci.Store.Record.{RunRecord, StoreError, new_parent_run, new_run_from_id}
use vci.Store.Runs.{save}

pub data StageError : Type 0 where
  no_run_id : StageError
  stage_failed : StoreError → StageError

unfoldable pub remove_dir : Text → List (Text × RunDir) → List (Text × RunDir)
remove_dir id [] = []
remove_dir id ((k, dir) ∷ rest) =
    let kept = remove_dir id rest in if text_eq k id then kept else (k, dir) ∷ kept

-- `os.RemoveAll` of a run's directory; its failure is ignored.
unfoldable pub remove_run : Disk → Text → Disk
remove_run d id = if valid_name id && d.healthy then record d { runs = remove_dir id d.runs } else d

unfoldable pub rollback_runs : Disk → List Text → Disk
rollback_runs d [] = d
rollback_runs d (id ∷ ids) = rollback_runs (remove_run d id) ids

abbrev rolled_back : {A : Type 0} → Disk → List Text → StageError → Disk × Result StageError A
rolled_back d created e = (rollback_runs d created, err e)

-- What all records of a request share.
pub record Request : Type 0 where
  pub project_name : Text
  pub project : Project
  pub parent_id : Text
  pub source_path : Text
  pub source_digest : Text
  pub now : ℕ
  pub parent_snapshot : Text

module _ (digest : Text → Text) (snapshot : Text → Text) (q : Request) where
  unfoldable pub new_child : Text → Text → Result StoreError RunRecord
  new_child id machine =
      new_run_from_id digest id q.project_name machine (resolve_command q.project machine)
        q.source_digest (snapshot machine) q.now
      >>= λ r. ok (record r { parent_run_id = q.parent_id; source_path = q.source_path })

  unfoldable pub new_parent : List Text → Result StoreError RunRecord
  new_parent children =
      new_parent_run digest q.parent_id q.project_name q.project.command children q.parent_snapshot
        q.now
      >>= λ r. ok (record r { source_path = q.source_path })

  -- The new record, saved.
  unfoldable pub save_new : Disk → Result StoreError RunRecord → Disk × Result StoreError RunRecord
  save_new d (err e) = (d, err e)
  save_new d (ok r) = let (d', saved) = save d r in (d', saved >>= λ _. ok r)

  -- The end of `stageFanout`, with the targets that were created.
  unfoldable pub stage_parent : Disk → List Text → Disk × Result StageError RunRecord
  stage_parent d created =
      let (d', x) = save_new d (new_parent created) in
      elim x [ err e ↦ rolled_back d' created (stage_failed e) | ok r ↦ (d', ok r) ]

  -- The loop over the machines.
  unfoldable pub stage_each :
      Disk → List Text → List Text → List (Option Text) → Disk × Result StageError RunRecord
  stage_each d created [] ids = stage_parent d created
  stage_each d created (m ∷ ms) [] = rolled_back d created no_run_id
  stage_each d created (m ∷ ms) (none ∷ ids) = rolled_back d created no_run_id
  stage_each d created (m ∷ ms) (some id ∷ ids) =
      let (d', x) = save_new d (new_child id m) in
      let rest = stage_each d' (created ++ id ∷ []) ms ids in
      elim x [ err e ↦ rolled_back d' created (stage_failed e) | ok r ↦ rest ]

  unfoldable pub stage_fanout : Disk → List (Option Text) → Disk × Result StageError RunRecord
  stage_fanout d ids = stage_each d [] q.project.machines ids
