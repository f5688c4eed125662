-- ===== src/Store/Immutable.antt =====
-- internal/store/store.go: what a load says of the disk, and terminal records under `Mutate`.
use vci.Base.{
  ◌≡◌, refl, sym, ap, ◌∙◌, subst, inl, inr, true, Option, none, some, arith, if◌then◌else◌,
  Bool-cases, if_either, Result, ok, err, File, absent, damaged, holds, Text, text_eq_refl,
  text_eq_iff,
}
use vci.Model.Names.{valid_run_id, valid_run_id-valid_name}
use vci.Model.State.{is_terminal}
use vci.Store.Disk.{Disk, RunDir, find_dir, find_dir-put_dir, put_dir}
use vci.Store.Record.{
  RunRecord, StoreError, same_record, same_record_sound, validate_record, write_failed,
}
use vci.Store.Runs.{
  Change, commit_change, load, load_path, mutate, mutate_dir, save_unlocked, with_lock-found,
}

-- What a successful load says of the disk.
pub record Loaded (d : Disk) (id : Text) (r : RunRecord) : Type 0 where
  pub dir : RunDir
  pub name_valid : valid_run_id id ≡ true
  pub found : find_dir id d.runs ≡ some dir
  pub stored : dir.run ≡ holds r
  pub own_id : r.id ≡ id
  pub record_valid : validate_record r ≡ ok tt

pub load_path-ok :
    (f : File RunRecord) (id : Text) (r : RunRecord)
    → load_path f id ≡ ok r
    → (f ≡ holds r) × (r.id ≡ id) × (validate_record r ≡ ok tt)
unfolding load_path
load_path-ok absent id r h = cc
load_path-ok damaged id r h = cc
load_path-ok (holds s) id r h = ground (arith, text_eq_iff s.id id)

pub load-Loaded : (d : Disk) (id : Text) (r : RunRecord) → load d id ≡ ok r → Loaded d id r
unfolding load
load-Loaded d id r h = go (find_dir id d.runs) refl
  where
    go : (o : Option RunDir) → find_dir id d.runs ≡ o → Loaded d id r
    go none e = ground arith
    go (some dir) e =
        let (stored, own, v) = load_path-ok dir.run id r (ground arith) in
        record {
          dir = dir;
          name_valid = ground arith;
          found = e;
          stored = stored;
          own_id = own;
          record_valid = v;
        }

pub Loaded-load : {d : Disk} {id : Text} {r : RunRecord} → Loaded d id r → load d id ≡ ok r
unfolding load load_path
Loaded-load {id = id} {r = r} l = ground (arith, text_eq_iff r.id id)

pub load_path_lem :
    {d : Disk} {id : Text} {r : RunRecord} → (l : Loaded d id r) → load_path l.dir.run id ≡ ok r
unfolding load_path
load_path_lem {id = id} {r = r} l = ground (arith, text_eq_iff r.id id)

-- Two loads of one disk agree.
pub Loaded-unique :
    {d : Disk} {id : Text} {r s : RunRecord} → Loaded d id r → load d id ≡ ok s → r ≡ s
Loaded-unique l h = cc (Loaded-load l)

-- The run's directory may get any content that keeps run.json.
pub Loaded-put :
    {d : Disk} {id : Text} {r : RunRecord}
    → Loaded d id r
    → (dir : RunDir) → dir.run ≡ holds r
    → Loaded (record d { runs = put_dir id dir d.runs }) id r
Loaded-put {d} {id} l dir e = record {
  dir = dir;
  name_valid = l.name_valid;
  found = ground (arith, find_dir-put_dir id id dir d.runs, text_eq_refl id);
  stored = e;
  own_id = l.own_id;
  record_valid = l.record_valid;
}

-- What a save does once its checks have passed.
abbrev saved_in : Disk → Text → RunDir → RunRecord → Disk × Result StoreError (Unit {0})
saved_in d id dir s =
    if d.healthy
    then (record d { runs = put_dir id (record dir { run = holds s }) d.runs }, ok tt)
    else (d, err write_failed)

pub save_unlocked-found :
    (d : Disk) (id : Text) (s : RunRecord) (dir : RunDir)
    → validate_record s ≡ ok tt
    → valid_run_id id ≡ true
    → s.id ≡ id
    → find_dir id d.runs ≡ some dir
    → save_unlocked d s ≡ saved_in d id dir s
unfolding save_unlocked
save_unlocked-found d id s dir v n own f = ground (arith, valid_run_id-valid_name id)

pub save_unlocked-Loaded :
    {d : Disk} {id : Text} {r : RunRecord} → Loaded d id r → Loaded (save_unlocked d r).0 id r
save_unlocked-Loaded {d} {id} {r} l =
    rw (save_unlocked-found d id r l.dir l.record_valid l.name_valid l.own_id l.found) (
      if_either (λ (p : Disk × Result StoreError (Unit {0})). Loaded p.0 id r) d.healthy _ _
        (Loaded-put l (record l.dir { run = holds r }) refl) l)

commit_change-Loaded :
    {d : Disk} {id : Text} {r : RunRecord}
    → Loaded d id r
    → is_terminal r.state ≡ true
    → (res : Result StoreError RunRecord) → Loaded (commit_change d r res).0 id r
unfolding commit_change
commit_change-Loaded l t (err e) = l
commit_change-Loaded {d} {id} {r} l t (ok s) = elim (Bool-cases (same_record r s)) [
  | inl same ↦
      let e = same_record_sound r s same in
      rw (t, same, ap validate_record (sym e) ∙ l.record_valid)
        (subst (λ x. Loaded (save_unlocked d x).0 id r) e (save_unlocked-Loaded l))
  | inr differs ↦ rw (t, differs) l
]

mutate_dir-Loaded :
    {d : Disk} {id : Text} {r : RunRecord} (l : Loaded d id r)
    → is_terminal r.state ≡ true
    → (change : Change) → Loaded (mutate_dir d id l.dir change).0 id r
unfolding mutate_dir
mutate_dir-Loaded {d} {id} {r} l t change =
    rw (load_path_lem l, mutate_dir)
      (commit_change-Loaded
        (Loaded-put l (record l.dir { execution = (change l.dir.execution r).0 }) l.stored) t
        (change l.dir.execution r).1)

pub mutate-locked :
    {d : Disk} {id : Text} {r : RunRecord} (l : Loaded d id r)
    → (change : Change) → mutate d id change ≡ mutate_dir d id l.dir change
unfolding mutate
mutate-locked {d} {id} l change =
    with_lock-found d id _ (valid_run_id-valid_name id l.name_valid) l.found

-- A terminal record that loads still loads unchanged after any mutation of any callback.
pub mutate_terminal :
    (d : Disk) (id : Text) (change : Change) (r : RunRecord)
    → load d id ≡ ok r
    → is_terminal r.state ≡ true
    → load (mutate d id change).0 id ≡ ok r
mutate_terminal d id change r h t =
    let l = load-Loaded d id r h in
    rw (mutate-locked l change) (Loaded-load (mutate_dir-Loaded l t change))
