-- ===== src/Store/Results.antt =====
-- internal/store/store.go: `PublishResult` and `ReadResult`.
use vci.Base.{not, none, some, if◌then◌else◌, Result, ok, err, Text}
use vci.Model.Names.{valid_name}
use vci.Model.State.{is_terminal}
use vci.Store.Disk.{Disk, RunDir, find_dir, put_dir}
use vci.Store.Record.{
  StoreError, has_result, invalid_run_id, not_exist, run_is_terminal, write_failed,
}
use vci.Store.Runs.{load_path, lock_dir, with_lock}

-- `PublishResult`, in the directory that was found.
unfoldable pub publish_in : Disk → Text → RunDir → Text → Disk × Result StoreError (Unit {0})
publish_in d id dir value = elim (load_path dir.run id) [
  | err e ↦ (d, err e)
  | ok r ↦ if is_terminal r.state then (d, err run_is_terminal) else elim dir.result [
    | some old ↦ (d, err has_result)
    | none ↦
        if d.healthy
        then (record d { runs = put_dir id (record dir { result = some value }) d.runs }, ok tt)
        else (d, err write_failed)
  ]
]

unfoldable pub publish_result : Disk → Text → Text → Disk × Result StoreError (Unit {0})
publish_result d id value =
    if not (valid_name id)
    then (d, err invalid_run_id)
    else with_lock (lock_dir d id) (λ d' dir. publish_in d' id dir value)

unfoldable pub read_result : Disk → Text → Result StoreError Text
read_result d id = if not (valid_name id) then err invalid_run_id else elim (find_dir id d.runs) [
  | none ↦ err not_exist
  | some dir ↦ elim dir.result [ none ↦ err not_exist | some value ↦ ok value ]
]
