-- ===== src/Store/Disk.antt =====
-- The files under the state directory, decoded: what `encoding/json` and `os` show of them.
-- internal/store/store.go and internal/scheduler/claims.go.
use vci.Base.{
  ℕ, ◌≡◌, refl, Bool, false, Option, none, some, List, [], ◌∷◌, arith, if◌then◌else◌, File, absent,
  Text, text_eq, text_eq_iff,
}
use vci.Process.Execution.{Execution}
use vci.Store.Record.{RunRecord}

pub record Lease : Type 0 where
  pub run_id : Text
  pub owner : Text
  pub expires_at : ℕ

-- state/runs/<id>: run.json, lease.json, result.json, execution.json and the artifacts directory.
pub record RunDir : Type 0 where
  pub run : File RunRecord
  pub lease : File Lease
  pub result : Option Text
  pub execution : File Execution
  pub artifacts : Bool

abbrev pub empty_dir : RunDir
empty_dir = record {
  run = absent;
  lease = absent;
  result = none;
  execution = absent;
  artifacts = false;
}

pub data FileKind : Type 0 where
  regular symlink directory special : FileKind

pub record Claim : Type 0 where
  pub schema_version : ℕ
  pub machine : Text
  pub run_id : Text
  pub created_at : ℕ

-- `garbled` stands for a file that cannot be read or whose JSON does not decode.
pub data ClaimContent : Type 0 where
  empty garbled : ClaimContent
  claim : Claim → ClaimContent

-- state/machine-claims/<machine>/<name>
pub record ClaimFile : Type 0 where
  pub machine : Text
  pub name : Text
  pub kind : FileKind
  pub content : ClaimContent

-- With `healthy` false no file can be written or removed.
pub record Disk : Type 0 where
  pub runs : List (Text × RunDir)
  pub claims : List ClaimFile
  pub healthy : Bool

unfoldable pub find_dir : Text → List (Text × RunDir) → Option RunDir
find_dir id [] = none
find_dir id ((k, dir) ∷ rest) = if text_eq k id then some dir else find_dir id rest

-- A directory that is not there is created.
unfoldable pub put_dir : Text → RunDir → List (Text × RunDir) → List (Text × RunDir)
put_dir id dir [] = (id, dir) ∷ []
put_dir id dir ((k, old) ∷ rest) =
    if text_eq k id then (k, dir) ∷ rest else (k, old) ∷ put_dir id dir rest

pub find_dir-put_dir :
    (id j : Text) (dir : RunDir) (ds : List (Text × RunDir))
    → find_dir j (put_dir id dir ds) ≡ (if text_eq id j then some dir else find_dir j ds)
unfolding find_dir put_dir
find_dir-put_dir id j dir [] = refl
find_dir-put_dir id j dir ((k, old) ∷ ds) =
    ground
      (arith, text_eq_iff k id, text_eq_iff k j, text_eq_iff id j, find_dir-put_dir id j dir ds)

-- To put back what is there changes nothing.
pub put_dir_same :
    (id : Text) (dir : RunDir) (ds : List (Text × RunDir))
    → find_dir id ds ≡ some dir
    → put_dir id dir ds ≡ ds
unfolding find_dir put_dir
put_dir_same id dir [] h = cc
put_dir_same id dir ((k, old) ∷ ds) h = ground (arith, put_dir_same id dir ds)
