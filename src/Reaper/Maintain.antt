-- ===== src/Reaper/Maintain.antt =====
-- internal/reaper/reaper.go, `Run`, and internal/app/lifecycle.go, `Maintain`. The parts of `Run` follow
-- each other, and the first that fails ends it with what was reported until then. A removal of a blob
-- does not fail, and the shared source of a request stays.
use vci.Base.{ℕ, Bool, Option, List, [], if◌then◌else◌, Result, ok, err, File, Text}
use vci.App.Configure.{load_config}
use vci.App.Fanout.{dispatch_pending}
use vci.Config.Types.{BundleCachePolicy, Config}
use vci.Host.Cache.{Reaped}
use vci.Host.Client.{Command}
use vci.Host.Paths.{HostError}
use vci.Model.State.{next}
use vci.Reaper.Aggregate.{aggregate_parents}
use vci.Reaper.Dirs.{TempEntry, WorkEntry, reap_artifacts, reap_transfer_dirs, reap_work_dirs}
use vci.Reaper.Partials.{PartialEntry, reap_partials}
use vci.Reaper.Remote.{
  Cleaned, Counts, MachineSnapshot, reap_remote_bundle_caches, reap_remote_turds,
}
use vci.Reaper.Retention.{Blob, Enforced, enforce}
use vci.Reaper.Sweep.{sweep}
use vci.Scheduler.Claims.{SchedulerError}
use vci.Scheduler.Operations.{reap}
use vci.Store.Disk.{Disk}
use vci.Store.Runs.{load}

-- What the pass works on: the run directories and claims, the temporary and the work directory, the
-- partial workspaces in it, and the stored blobs.
pub record Estate : Type 0 where
  pub disk : Disk
  pub temp : List TempEntry
  pub work : List WorkEntry
  pub partials : List PartialEntry
  pub blobs : List Blob

-- What can be removed, the age of a run's directory, the decoder of a run's snapshot, and whether a
-- command of ssh succeeds.
pub record Surroundings : Type 0 where
  pub removable : Text → Bool
  pub modified : Text → Option ℕ
  pub decode : Text → Option MachineSnapshot
  pub run : Command → Bool

-- `remote` stands for `RemoteCleaned` and the commands that were sent.
pub record Report : Type 0 where
  pub queued_aborted : ℕ
  pub marked_lost : ℕ
  pub removed : ℕ
  pub transfer_removed : ℕ
  pub tmp_removed : ℕ
  pub workspaces_removed : ℕ
  pub remote : Cleaned
  pub claims_released : ℕ
  pub artifacts_reaped : ℕ

pub data PassError : Type 0 where
  cleaning_failed no_config : PassError
  scheduler_failed : SchedulerError → PassError

abbrev pub Passed : Type 0
Passed = Estate × Report × Result PassError (Unit {0})

abbrev pub then_part : Passed → (Estate → Report → Passed) → Passed
then_part (m, r, err e) next = (m, r, err e)
then_part (m, r, ok _) next = next m r

-- A part that reports nothing when it fails.
abbrev pub cleaned_part : Bool → Estate → Report → Report → Passed
cleaned_part broke m r r1 = if broke then (m, r, err cleaning_failed) else (m, r1, ok tt)

abbrev pub claims_part : Estate → Report → Disk × ℕ × Result SchedulerError (Unit {0}) → Passed
claims_part m r (d, n, err e) = (record m { disk = d }, r, err (scheduler_failed e))
claims_part m r (d, n, ok _) = (record m { disk = d }, record r { claims_released = n }, ok tt)

module _ (world : Surroundings) (clock now : ℕ) where
  unfoldable pub sweep_part : Estate → Estate × Report × List Text
  sweep_part m =
      let s = sweep clock now m.disk in
      (
        record m { disk = s.disk },
        record {
          queued_aborted = s.queued_aborted;
          marked_lost = s.marked_lost;
          removed = 0;
          transfer_removed = 0;
          tmp_removed = 0;
          workspaces_removed = 0;
          remote = record { cleaned = 0; sent = [] };
          claims_released = 0;
          artifacts_reaped = 0;
        },
        s.active,
      )

  unfoldable pub partials_part : List Text → Estate → Report → Passed
  partials_part active m r =
      let p = reap_partials world.removable now active m.disk m.partials in
      let r' = record r { removed = p.removed } in
      cleaned_part p.failed (record m { partials = p.left }) r' r'

  unfoldable pub transfers_part : Estate → Report → Passed
  transfers_part m r =
      let t = reap_transfer_dirs world.removable now m.temp in
      cleaned_part t.failed (record m { temp = t.left }) r
        (record r { transfer_removed = t.removed })

  unfoldable pub work_part : Estate → Report → Passed
  work_part m r =
      let w = reap_work_dirs world.removable now m.disk m.work in
      cleaned_part w.failed (record m { work = w.left }) r
        (record r { tmp_removed = w.tmp_removed; workspaces_removed = w.workspaces_removed })

  unfoldable pub remote_part : Estate → Report → Passed
  remote_part m r =
      let r' = record r { remote = reap_remote_turds world.decode world.run now m.disk } in
      claims_part m r' (reap load clock m.disk)

  unfoldable pub artifacts_part : Estate → Report → Passed
  artifacts_part m r =
      let c = reap_artifacts now world.modified m.disk in
      cleaned_part c.failed (record m { disk = c.disk }) r
        (record r { artifacts_reaped = c.reaped })

  unfoldable pub reaper_run : Estate → Passed
  reaper_run m0 =
      let (m1, r1, active) = sweep_part m0 in
      then_part (partials_part active m1 r1) (λ m2 r2. then_part (transfers_part m2 r2) (λ m3 r3.
        then_part (work_part m3 r3) (λ m4 r4. then_part (remote_part m4 r4) (λ m5 r5.
          then_part (artifacts_part m5 r5)
            (λ m6 r6. (record m6 { disk = aggregate_parents now m6.disk }, r6, ok tt))))))

pub record MaintenanceReport : Type 0 where
  pub reaped : Report
  pub bundles : Counts
  pub retained : Enforced

-- `reap_cache` answers for the bundle cache of a project on a host, and `later` is the time that
-- `DispatchPending` reads.
module _ (world : Surroundings)
    (reap_cache : Text → Text → BundleCachePolicy → Result HostError Reaped) (launch : Text → Bool)
    (clock now later : ℕ) where
  abbrev pub maintain_rest : Config → Passed → Estate × Result PassError MaintenanceReport
  maintain_rest cfg (m, r, err e) = (m, err e)
  maintain_rest cfg (m, r, ok _) =
      let bundles = reap_remote_bundle_caches reap_cache cfg (0, 0) in
      let d = dispatch_pending launch clock cfg later m.disk in
      let retained = enforce cfg.retention.max_bytes m.blobs in
      (
        record m { disk = d; blobs = retained.left },
        ok (record { reaped = r; bundles = bundles; retained = retained }),
      )

  unfoldable pub maintain : File Config → Estate → Estate × Result PassError MaintenanceReport
  maintain config_file m = elim (load_config config_file) [
    | err e ↦ (m, err no_config)
    | ok cfg ↦ maintain_rest cfg (reaper_run world clock now m)
  ]
