-- ===== src/Reaper/Remote.antt =====
-- internal/reaper/reaper.go: `reapRemoteTurds`, `remoteHostFor`, `CleanupRemote`,
-- `ReapRemoteBundleCaches` and `attachedTo`.
use vci.Base.{
  ℕ, ◌+◌, Bool, false, not, ◌||◌, Option, none, some, List, [], ◌∷◌, ◌++◌, ltb, if◌then◌else◌,
  Result, ok, err, ◌>>◌, Text, codes, is_empty, lookup, mem_text,
}
use vci.Config.Defaults.{effective_bundle_cache}
use vci.Config.Types.{BundleCachePolicy, Config, Machine, Project}
use vci.Host.Cache.{Reaped}
use vci.Host.Client.{Command, ssh}
use vci.Host.Paths.{HostError, remote_work_dir, validate_host, validate_remote_path}
use vci.Host.Windows.{is_windows_os, windows_remote_path}
use vci.Model.State.{is_terminal}
use vci.Reaper.Sweep.{renewal_grace}
use vci.Store.Disk.{Disk, Lease}
use vci.Store.Lease.{read_lease}
use vci.Store.Record.{RunRecord, StoreError}
use vci.Store.Runs.{load}
use vci.Store.Scans.{run_ids}

-- The two fields of a configuration snapshot that `remoteHostFor` decodes.
pub record MachineSnapshot : Type 0 where
  pub machine : Text
  pub machines : List (Text × Machine)

abbrev host_of : Option Machine → Option (Text × Text)
host_of none = none
host_of (some m) = if is_empty m.host then none else some (m.host, m.os)

abbrev host_in : Option MachineSnapshot → Option (Text × Text)
host_in none = none
host_in (some snap) =
    if is_empty snap.machine then none else host_of (lookup snap.machine snap.machines)

-- The line that `CleanupRemote` has the worker's shell run.
unfoldable pub cleanup_line : Text → Text → Text
cleanup_line remote_path os =
    if is_windows_os os
    then codes "rmdir /S /Q \"" ++ windows_remote_path remote_path ++ codes "\""
    else codes "rm -rf -- " ++ remote_path

unfoldable pub cleanup_command : Text → Text → Text → Result HostError Command
cleanup_command host remote_path os = do
  validate_host host
  validate_remote_path remote_path
  ok (ssh (host ∷ cleanup_line remote_path os ∷ []) none)

-- `leaseErr == nil && leaseRecord.ExpiresAt.After(now.Add(-renewalGrace))`
abbrev pub is_live : ℕ → Result StoreError Lease → Bool
is_live now (ok x) = ltb now (x.expires_at + renewal_grace)
is_live now (err e) = false

-- The number of trees that were removed, and the commands that were sent, the last one first.
pub record Cleaned : Type 0 where
  pub cleaned : ℕ
  pub sent : List Command

-- `decode` reads the JSON of a snapshot.
unfoldable pub remote_host_for : (Text → Option MachineSnapshot) → RunRecord → Option (Text × Text)
remote_host_for decode r = host_in (decode r.config_snapshot)

-- `run` says whether a command of ssh succeeds.
module _ (decode : Text → Option MachineSnapshot) (run : Command → Bool) where
  unfoldable pub cleanup_remote : Cleaned → Result HostError Command → Cleaned
  cleanup_remote s (err e) = s
  cleanup_remote s (ok c) = record {
    cleaned = s.cleaned + (if run c then 1 else 0);
    sent = c ∷ s.sent;
  }

  unfoldable pub clean_host : Cleaned → Text → Option (Text × Text) → Cleaned
  clean_host s id none = s
  clean_host s id (some (host, os)) = elim (remote_work_dir id) [
    | err e ↦ s
    | ok path ↦ cleanup_remote s (cleanup_command host path os)
  ]

  unfoldable pub clean_loaded : ℕ → Disk → Cleaned → Text → Result StoreError RunRecord → Cleaned
  clean_loaded now d s id (err e) = s
  clean_loaded now d s id (ok r) =
      if not (is_terminal r.state) || is_live now (read_lease d id)
      then s
      else clean_host s id (remote_host_for decode r)

  unfoldable pub clean_each : ℕ → Disk → Cleaned → List Text → Cleaned
  clean_each now d s [] = s
  clean_each now d s (id ∷ ids) = clean_each now d (clean_loaded now d s id (load d id)) ids

  unfoldable pub reap_remote_turds : ℕ → Disk → Cleaned
  reap_remote_turds now d = clean_each now d (record { cleaned = 0; sent = [] }) (run_ids d.runs)

unfoldable pub attached_to : Project → Text → Bool
attached_to p machine = mem_text machine p.machines

abbrev pub worker_cache_root : Text
worker_cache_root = codes "~/.vci/state/bundle-cache"

abbrev pub Counts : Type 0
Counts = ℕ × ℕ

abbrev pub add_reaped : Counts → Result HostError Reaped → Counts
add_reaped (stale, evicted) (ok x) = (stale + x.stale, evicted + x.evicted)
add_reaped counts (err e) = counts

-- `reap host project policy` is what `Client.ReapBundleCache` answers for a project on a host.
module _ (reap : Text → Text → BundleCachePolicy → Result HostError Reaped) where
  unfoldable pub reap_projects :
      Text → Text → BundleCachePolicy → Counts → List (Text × Project) → Counts
  reap_projects machine host policy counts [] = counts
  reap_projects machine host policy counts ((name, p) ∷ ps) =
      reap_projects machine host policy
        (if attached_to p machine then add_reaped counts (reap host name policy) else counts) ps

  unfoldable pub reap_machines : List (Text × Project) → Counts → List (Text × Machine) → Counts
  reap_machines projects counts [] = counts
  reap_machines projects counts ((name, m) ∷ ms) =
      reap_machines projects
        (if is_empty m.host
          then counts
          else reap_projects name m.host (effective_bundle_cache m.bundle_cache) counts projects)
        ms

  -- The two counts of the report.
  unfoldable pub reap_remote_bundle_caches : Config → Counts → Counts
  reap_remote_bundle_caches cfg counts = reap_machines cfg.projects counts cfg.machines
