-- ===== src/Store/Saves.antt =====
-- internal/store/store.go: what can be loaded after `Save`.
use vci.Base.{◌≡◌, refl, ◌∙◌, true, some, arith, ok, holds, Text, text_eq_refl}
use vci.Model.Names.{valid_name, valid_run_id, valid_run_id-valid_name}
use vci.Store.Disk.{Disk, RunDir, find_dir, find_dir-put_dir}
use vci.Store.Immutable.{save_unlocked-found}
use vci.Store.Record.{RunRecord, validate_record}
use vci.Store.Runs.{load, load_path, make_dir, or_empty, save, save_unlocked}

validate_record-valid_run_id :
    (r : RunRecord) → validate_record r ≡ ok tt → valid_run_id r.id ≡ true
unfolding validate_record
validate_record-valid_run_id r h = ground (arith, h)

-- The directory that `Save` makes is there when the record is written.
made :
    (d : Disk) (id : Text) → find_dir id (make_dir d id).runs ≡ some (or_empty (find_dir id d.runs))
unfolding make_dir
made d id =
    ground (arith, find_dir-put_dir id id (or_empty (find_dir id d.runs)) d.runs, text_eq_refl id)

save_unlocked_lem :
    (d : Disk) (r : RunRecord) (dir : RunDir)
    → validate_record r ≡ ok tt
    → d.healthy ≡ true
    → find_dir r.id d.runs ≡ some dir
    → ((save_unlocked d r).1 ≡ ok tt) × (load (save_unlocked d r).0 r.id ≡ ok r)
unfolding load load_path
save_unlocked_lem d r dir v up f =
    let n = validate_record-valid_run_id r v in
    rw (save_unlocked-found d r.id r dir v n refl f) (
      ground (
        arith,
        up,
        n,
        v,
        text_eq_refl r.id,
        text_eq_refl r.id,
        find_dir-put_dir r.id r.id (record dir { run = holds r }) d.runs,
      ))

made_healthy : (d : Disk) (id : Text) → (make_dir d id).healthy ≡ d.healthy
unfolding make_dir
made_healthy d id = refl

save-passes :
    (d : Disk) (r : RunRecord)
    → validate_record r ≡ ok tt
    → valid_name r.id ≡ true
    → d.healthy ≡ true
    → save d r ≡ save_unlocked (make_dir d r.id) r
unfolding save
save-passes d r v n up = ground (arith, v, n, up)

-- A record that validates can be saved where files can be written, and is then loaded as it was saved.
pub load-save :
    (d : Disk) (r : RunRecord)
    → validate_record r ≡ ok tt
    → d.healthy ≡ true
    → ((save d r).1 ≡ ok tt) × (load (save d r).0 r.id ≡ ok r)
load-save d r v up =
    let n = valid_run_id-valid_name r.id (validate_record-valid_run_id r v) in
    let saved =
      save_unlocked_lem (make_dir d r.id) r _ v (made_healthy d r.id ∙ up) (made d r.id) in
    rw (save-passes d r v n up) saved
