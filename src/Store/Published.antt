-- ===== src/Store/Published.antt =====
-- internal/store/store.go: what can be read after `PublishResult`.
use vci.Base.{
  ◌≡◌, Bool, true, none, some, arith, if◌then◌else◌, Result, ok, err, Text, text_eq_refl,
}
use vci.Model.Names.{valid_name, valid_run_id-valid_name}
use vci.Model.State.{is_terminal}
use vci.Store.Disk.{Disk, RunDir, find_dir, find_dir-put_dir, put_dir}
use vci.Store.Immutable.{Loaded, load-Loaded, load_path_lem}
use vci.Store.Record.{RunRecord, StoreError, not_exist}
use vci.Store.Results.{publish_in, publish_result, read_result}
use vci.Store.Runs.{load, with_lock-found}

-- What is read after a publication, of what was read before it.
abbrev pub first_result : Bool → Result StoreError Text → Text → Result StoreError Text
first_result is_done (ok old) value = ok old
first_result is_done (err e) value = if is_done then err e else ok value

read_result-put_dir :
    (d : Disk) (id : Text) (dir : RunDir)
    → valid_name id ≡ true
    → read_result (record d { runs = put_dir id dir d.runs }) id
      ≡ elim dir.result [ none ↦ err not_exist | some value ↦ ok value ]
unfolding read_result
read_result-put_dir d id dir v =
    ground (arith, v, find_dir-put_dir id id dir d.runs, text_eq_refl id)

read_result-found :
    (d : Disk) (id : Text) (dir : RunDir)
    → valid_name id ≡ true
    → find_dir id d.runs ≡ some dir
    → read_result d id ≡ elim dir.result [ none ↦ err not_exist | some value ↦ ok value ]
unfolding read_result
read_result-found d id dir v f = ground (arith, v, f)

publish_result-found :
    {d : Disk} {id : Text} {r : RunRecord} (l : Loaded d id r)
    → (value : Text) → publish_result d id value ≡ publish_in d id l.dir value
unfolding publish_result
publish_result-found {d} {id} l value =
    with_lock-found d id _ (valid_run_id-valid_name id l.name_valid) l.found

-- After `PublishResult` on a run whose record loads, where files can be written, a result that was there
-- before is still read; if there was none, the new one is read unless the run was terminal.
pub publish_result_lem :
    (d : Disk) (id value : Text) (r : RunRecord)
    → load d id ≡ ok r
    → d.healthy ≡ true
    → read_result (publish_result d id value).0 id
      ≡ first_result (is_terminal r.state) (read_result d id) value
unfolding publish_in
publish_result_lem d id value r h up =
    let l = load-Loaded d id r h in
    let v = valid_run_id-valid_name id l.name_valid in
    rw (publish_result-found l value, load_path_lem l, publish_in)
      (ground (
        arith,
        up,
        read_result-found d id l.dir v l.found,
        read_result-put_dir d id (record l.dir { result = some value }) v,
      ))
