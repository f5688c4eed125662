-- ===== src/System/Steps.antt =====
-- The steps of the system and its histories.
use vci.Base.{ℕ, ◌≡◌, ok, File, Text}
use vci.Config.Types.{Config}
use vci.Process.Execution.{Execution}
use vci.Scheduler.Files.{release_claim}
use vci.Scheduler.Operations.{reap, reserve}
use vci.Store.Disk.{Disk}
use vci.Store.Lease.{claim_lease, release_lease, renew_lease}
use vci.Store.Record.{RunRecord}
use vci.Store.Results.{publish_result}
use vci.Store.Runs.{Change, load, mutate}

-- A callback that leaves the run id alone, as all those of the program do.
abbrev pub KeepsId : Change → Type 0
KeepsId change = (x : File Execution) (r s : RunRecord) → (change x r).1 ≡ ok s → s.id ≡ r.id

-- One operation under a lock, under a fixed inventory.
pub data Step (cfg : Config) : Disk → Disk → Type 0 where
  mutates :
      (d : Disk) (id : Text) (change : Change) → KeepsId change → Step cfg d (mutate d id change).0
  publishes : (d : Disk) (id value : Text) → Step cfg d (publish_result d id value).0
  claims_lease :
      (d : Disk) (id owner : Text) (now ttl : ℕ) → Step cfg d (claim_lease d id owner now ttl).0
  renews_lease :
      (d : Disk) (id owner : Text) (now ttl : ℕ) → Step cfg d (renew_lease d id owner now ttl).0
  releases_lease : (d : Disk) (id owner : Text) → Step cfg d (release_lease d id owner).0
  reserves :
      (clock : ℕ) (d : Disk) (machine run_id : Text) (now : ℕ)
      → Step cfg d (reserve load clock d cfg machine run_id now).0
  releases_claim :
      (clock : ℕ) (d : Disk) (machine run_id : Text)
      → Step cfg d (release_claim clock d machine run_id).0
  reaps : (clock : ℕ) (d : Disk) → Step cfg d (reap load clock d).0

-- A sequence of steps, in the order in which the locks were taken.
pub data History (cfg : Config) : Disk → Disk → Type 0 where
  beginning : {d : Disk} → History cfg d d
  step : {d d' d'' : Disk} → Step cfg d d' → History cfg d' d'' → History cfg d d''

pub History-append :
    {cfg : Config} {d d' d'' : Disk} → History cfg d d' → History cfg d' d'' → History cfg d d''
History-append beginning k = k
History-append (step s h) k = step s (History-append h k)
