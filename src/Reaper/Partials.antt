-- ===== src/Reaper/Partials.antt =====
-- internal/reaper/reaper.go, `Run`: the removal of partial workspaces that nobody writes.
use vci.Base.{
  ℕ, ◌+◌, ◌-◌, Bool, true, false, not, ◌&&◌, ◌||◌, Option, none, some, List, [], ◌∷◌, leb,
  if◌then◌else◌, length, take, Result, ok, err, Text, codes, has_suffix, mem_text,
}
use vci.Model.State.{running, staging, state_eq}
use vci.Store.Disk.{Disk, Lease}
use vci.Store.Lease.{read_lease}
use vci.Store.Record.{RunRecord, StoreError}
use vci.Store.Runs.{load}

-- An entry of the work directory; without `modified` its age cannot be read.
pub record PartialEntry : Type 0 where
  pub name : Text
  pub modified : Option ℕ

pub record Partials : Type 0 where
  pub left : List PartialEntry
  pub removed : ℕ
  pub failed : Bool

abbrev partial_stale_age : ℕ
partial_stale_age = 60000000000

abbrev is_old : ℕ → Option ℕ → Bool
is_old now none = false
is_old now (some t) = leb (t + partial_stale_age) now

abbrev is_worked_at : Result StoreError RunRecord → Result StoreError Lease → Bool
is_worked_at (err e) x = false
is_worked_at (ok r) (err e) = false
is_worked_at (ok r) (ok x) = state_eq r.state staging || state_eq r.state running

abbrev partial_suffix : Text
partial_suffix = codes ".partial"

-- `strings.TrimSuffix` of a name that has the suffix.
abbrev run_of : Text → Text
run_of name = take (length name - length partial_suffix) name

-- `active` are the runs that the sweep found under a live lease.
unfoldable pub is_abandoned : ℕ → List Text → Disk → PartialEntry → Bool
is_abandoned now active d e =
    let id = run_of e.name in
    has_suffix partial_suffix e.name
    && is_old now e.modified
    && not (mem_text id active)
    && not (is_worked_at (load d id) (read_lease d id))

-- `removable` says which paths below the work directory can be removed.
unfoldable pub reap_partials : (Text → Bool) → ℕ → List Text → Disk → List PartialEntry → Partials
reap_partials removable now active d [] = record { left = []; removed = 0; failed = false }
reap_partials removable now active d (e ∷ es) =
    let rest = reap_partials removable now active d es in
    if not (is_abandoned now active d e)
    then record rest { left = e ∷ rest.left }
    else if removable e.name
    then record rest { removed = rest.removed + 1 }
    else record { left = e ∷ es; removed = 0; failed = true }
