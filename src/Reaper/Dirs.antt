-- ===== src/Reaper/Dirs.antt =====
-- internal/reaper/reaper.go: `reapTransferDirs`, `ReapArtifacts` and `reapWorkDirs`. A directory that
-- cannot be listed is left out, and no removal fails below the work directory.
use vci.Base.{
  ℕ, ◌+◌, Bool, true, false, not, ◌&&◌, ◌||◌, Option, none, some, List, [], ◌∷◌, ◌++◌, ltb, leb,
  ◌==◌, if◌then◌else◌, Result, ok, err, Text, codes, has_prefix, has_suffix,
}
use vci.Model.Names.{valid_run_id}
use vci.Model.State.{aborted, is_terminal, lost, state_eq}
use vci.Reaper.Remote.{is_live}
use vci.Store.Disk.{Disk, RunDir, find_dir, put_dir}
use vci.Store.Lease.{read_lease}
use vci.Store.Record.{RunRecord, StoreError}
use vci.Store.Runs.{load}
use vci.Store.Scans.{run_ids}

abbrev pub transfer_stale_age : ℕ
transfer_stale_age = 1800000000000

-- A directory below the temporary directory; without `modified` its age cannot be read.
pub record TempEntry : Type 0 where
  pub name : Text
  pub is_dir : Bool
  pub modified : Option ℕ

unfoldable pub is_transfer_dir : Text → Bool
is_transfer_dir name =
    has_prefix (codes "vci-source-") name
    || has_prefix (codes "vci-source.") name
    || has_prefix (codes "vci-snapshot-") name
    || has_prefix (codes "vci-hosted-") name

-- `!t.After(now.Add(-transferStaleAge))`
abbrev pub is_aged : ℕ → Option ℕ → Bool
is_aged now none = false
is_aged now (some t) = leb (t + transfer_stale_age) now

unfoldable pub is_stale_transfer : ℕ → TempEntry → Bool
is_stale_transfer now e = e.is_dir && is_transfer_dir e.name && is_aged now e.modified

-- What is left, the number of directories removed, and whether the loop ended in an error.
pub record Transfers : Type 0 where
  pub left : List TempEntry
  pub removed : ℕ
  pub failed : Bool

-- `removable` says which directories can be removed.
unfoldable pub reap_transfer_dirs : (Text → Bool) → ℕ → List TempEntry → Transfers
reap_transfer_dirs removable now [] = record { left = []; removed = 0; failed = false }
reap_transfer_dirs removable now (e ∷ es) =
    let rest = reap_transfer_dirs removable now es in
    if not (is_stale_transfer now e)
    then record rest { left = e ∷ rest.left }
    else if removable e.name
    then record rest { removed = rest.removed + 1 }
    else record { left = e ∷ es; removed = 0; failed = true }

-- `record.UpdatedAt`, or the age of the directory where that is the zero time.
abbrev age_of : Option ℕ → RunRecord → Option ℕ
age_of modified r = if r.updated_at == 0 then modified else some r.updated_at

-- `age.Before(threshold)`
abbrev is_past : ℕ → Option ℕ → Bool
is_past now none = false
is_past now (some t) = ltb (t + transfer_stale_age) now

unfoldable pub outlived : ℕ → Option ℕ → RunRecord → Bool
outlived now modified r =
    (state_eq r.state lost || state_eq r.state aborted) && is_past now (age_of modified r)

abbrev pub has_artifacts : Option RunDir → Bool
has_artifacts none = false
has_artifacts (some dir) = dir.artifacts

abbrev is_outlived : ℕ → Option ℕ → Result StoreError RunRecord → Bool
is_outlived now modified (ok r) = outlived now modified r
is_outlived now modified (err e) = false

unfoldable pub artifacts_due : ℕ → (Text → Option ℕ) → Disk → Text → Bool
artifacts_due now modified d id =
    is_outlived now (modified id) (load d id) && has_artifacts (find_dir id d.runs)

abbrev without_artifacts : Disk → Text → Option RunDir → Disk
without_artifacts d id none = d
without_artifacts d id (some dir) = record d {
  runs = put_dir id (record dir { artifacts = false }) d.runs;
}

unfoldable pub remove_artifacts : Disk → Text → Disk
remove_artifacts d id = without_artifacts d id (find_dir id d.runs)

pub record Cleared : Type 0 where
  pub disk : Disk
  pub reaped : ℕ
  pub failed : Bool

-- `modified` is the age of the directory of a run.
unfoldable pub clear_each : ℕ → (Text → Option ℕ) → Disk → ℕ → List Text → Cleared
clear_each now modified d n [] = record { disk = d; reaped = n; failed = false }
clear_each now modified d n (id ∷ ids) =
    let due = artifacts_due now modified d id in
    let rest =
      clear_each now modified (if due then remove_artifacts d id else d) (if due then n + 1 else n)
        ids in
    if due && not d.healthy then record { disk = d; reaped = n; failed = true } else rest

unfoldable pub reap_artifacts : ℕ → (Text → Option ℕ) → Disk → Cleared
reap_artifacts now modified d = clear_each now modified d 0 (run_ids d.runs)

-- A directory below the work directory, with the ages of .tmp and .home where they are there.
pub record WorkEntry : Type 0 where
  pub name : Text
  pub is_dir : Bool
  pub tmp : Option ℕ
  pub home : Option ℕ

unfoldable pub is_run_dir : WorkEntry → Bool
is_run_dir e = e.is_dir && not (has_suffix (codes ".partial") e.name) && valid_run_id e.name

abbrev pub is_ended : Result StoreError RunRecord → Bool
is_ended (ok r) = is_terminal r.state
is_ended (err e) = false

pub record Workspaces : Type 0 where
  pub left : List WorkEntry
  pub tmp_removed : ℕ
  pub workspaces_removed : ℕ
  pub failed : Bool

-- `removable` says which paths below the work directory can be removed.
module _ (removable : Text → Bool) (now : ℕ) where
  unfoldable pub clear_sub : Text → Option ℕ → Option ℕ × ℕ
  clear_sub path age = if is_aged now age && removable path then (none, 1) else (age, 0)

  unfoldable pub without_subs : WorkEntry → WorkEntry × ℕ
  without_subs e =
      let (tmp, a) = clear_sub (e.name ++ codes "/.tmp") e.tmp in
      let (home, b) = clear_sub (e.name ++ codes "/.home") e.home in
      (record e { tmp = tmp; home = home }, a + b)

  unfoldable pub reap_work_dirs : Disk → List WorkEntry → Workspaces
  reap_work_dirs d [] = record {
    left = [];
    tmp_removed = 0;
    workspaces_removed = 0;
    failed = false;
  }
  reap_work_dirs d (e ∷ es) =
      let rest = reap_work_dirs d es in
      let (e', n) = without_subs e in
      if not (is_run_dir e) || is_live now (read_lease d e.name)
      then record rest { left = e ∷ rest.left }
      else if not (is_ended (load d e.name))
      then record rest { left = e' ∷ rest.left; tmp_removed = n + rest.tmp_removed }
      else if removable e.name
      then record rest {
        tmp_removed = n + rest.tmp_removed;
        workspaces_removed = rest.workspaces_removed + 1;
      }
      else record { left = e' ∷ es; tmp_removed = n; workspaces_removed = 0; failed = true }
