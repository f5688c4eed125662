-- ===== src/App/Saves.antt =====
-- internal/store/store.go, `Save`, and internal/app/build.go, `rollbackRuns`: the records of all runs
-- afterwards.
use vci.Base.{
  ◌≡◌, refl, ◌∙◌, ◌≢◌, inl, inr, true, none, List, [], ◌∷◌, arith, if◌then◌else◌, Option-cases, All,
  ok, err, Result-cases, Text, text_eq, text_eq_refl, text_eq_iff, mem_text,
}
use vci.App.Stage.{remove_dir, remove_run, rollback_runs}
use vci.Model.Names.{valid_name, valid_run_id}
use vci.Store.Disk.{Disk, RunDir, empty_dir, find_dir, find_dir-put_dir}
use vci.Store.Record.{RunRecord, StoreError, not_exist, validate_record}
use vci.Store.Runs.{load, load_path, make_dir, or_empty, save, save_unlocked}
use vci.System.Others.{save_unlocked-load}

find_dir-remove_dir :
    (id j : Text) (ds : List (Text × RunDir))
    → find_dir j (remove_dir id ds) ≡ (if text_eq id j then none else find_dir j ds)
unfolding find_dir remove_dir
find_dir-remove_dir id j [] = ground arith
find_dir-remove_dir id j ((k, dir) ∷ ds) =
    ground (arith, text_eq_iff k id, text_eq_iff k j, text_eq_iff id j, find_dir-remove_dir id j ds)

load-remove_run :
    (d : Disk) (id j : Text)
    → valid_name id ≡ true
    → d.healthy ≡ true
    → valid_run_id j ≡ true
    → load (remove_run d id) j ≡ (if text_eq id j then err not_exist else load d j)
unfolding load remove_run
load-remove_run d id j v up w = ground (arith, v, up, w, find_dir-remove_dir id j d.runs)

remove_run-healthy : (d : Disk) (id : Text) → (remove_run d id).healthy ≡ d.healthy
unfolding remove_run
remove_run-healthy d id = ground arith

-- After a rollback the runs that it names cannot be loaded, and all others can as before.
pub load-rollback_runs :
    (d : Disk) (ids : List Text) (j : Text)
    → All (λ id. valid_name id ≡ true) ids
    → d.healthy ≡ true
    → valid_run_id j ≡ true
    → load (rollback_runs d ids) j ≡ (if mem_text j ids then err not_exist else load d j)
unfolding rollback_runs mem_text
load-rollback_runs d [] j v up w = refl
load-rollback_runs d (id ∷ ids) j v up w = ground (
  arith,
  load-rollback_runs (remove_run d id) ids j v.1 (remove_run-healthy d id ∙ up) w,
  load-remove_run d id j v.0 up w,
)

-- A save touches no other run, and a save that fails changes nothing.
make_dir-load : (d : Disk) (id j : Text) → load (make_dir d id) j ≡ load d j
unfolding make_dir load load_path
make_dir-load d id j = elim (Option-cases (find_dir id d.runs)) [
  | inl e ↦ ground (arith, e, find_dir-put_dir id j empty_dir d.runs, text_eq_iff id j)
  | inr (dir, e) ↦ ground (arith, e, find_dir-put_dir id j dir d.runs, text_eq_iff id j)
]

make_dir-find : (d : Disk) (id : Text) → find_dir id (make_dir d id).runs ≢ none
unfolding make_dir
make_dir-find d id h =
    ground
      (arith, h, find_dir-put_dir id id (or_empty (find_dir id d.runs)) d.runs, text_eq_refl id)

make_dir-healthy : (d : Disk) (id : Text) → (make_dir d id).healthy ≡ d.healthy
unfolding make_dir
make_dir-healthy d id = refl

pub save-load_other :
    (d : Disk) (r : RunRecord) (j : Text) → j ≢ r.id → load (save d r).0 j ≡ load d j
unfolding save
save-load_other d r j n =
    ground (arith, save_unlocked-load (make_dir d r.id) r j n, make_dir-load d r.id j)

save_unlocked-healthy : (d : Disk) (r : RunRecord) → (save_unlocked d r).0.healthy ≡ d.healthy
unfolding save_unlocked
save_unlocked-healthy d r = ground arith

pub save-healthy : (d : Disk) (r : RunRecord) → (save d r).0.healthy ≡ d.healthy
unfolding save
save-healthy d r =
    ground (arith, save_unlocked-healthy (make_dir d r.id) r, make_dir-healthy d r.id)

save_unlocked_fine :
    (d : Disk) (r : RunRecord) (e : StoreError)
    → validate_record r ≡ ok tt
    → valid_name r.id ≡ true
    → d.healthy ≡ true
    → find_dir r.id d.runs ≢ none
    → (save_unlocked d r).1 ≢ err e
unfolding save_unlocked
save_unlocked_fine d r e v n up f h = elim (Option-cases (find_dir r.id d.runs)) [
  | inl q ↦ f q
  | inr (dir, q) ↦ ground (arith, v, n, up, h, q)
]

pub save_refused :
    (d : Disk) (r : RunRecord) (e : StoreError) → (save d r).1 ≡ err e → (save d r).0 ≡ d
unfolding save
save_refused d r e h = elim (Result-cases (validate_record r)) [
  | inr (x, v) ↦ ground (arith, v)
  | inl (x, v) ↦ ground (
    arith,
    v,
    h,
    make_dir-healthy d r.id,
    save_unlocked_fine (make_dir d r.id) r e v,
    make_dir-find d r.id,
  )
]
