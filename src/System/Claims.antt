-- ===== src/System/Claims.antt =====
-- The claims after the steps of the store, and the runs after those of the scheduler.
use vci.Base.{
  ℕ, ◌+◌, ◌≡◌, refl, ◌∙◌, inl, inr, not, List, [], ◌∷◌, arith, if◌then◌else◌, Option-cases,
  if_either, Result, ok, err, Result-cases, Text, lookup,
}
use vci.Config.Types.{Config, Machine}
use vci.Model.Names.{valid_name}
use vci.Scheduler.Claims.{Reservation, claim_schema_version, enumerate_claims}
use vci.Scheduler.Files.{drop_claim, release_claim, write_claim}
use vci.Scheduler.Operations.{reap, reap_and_count, reap_claims, reap_each, reserve, reserve_on}
use vci.Store.Disk.{Claim, ClaimFile, Disk, RunDir}
use vci.Store.Lease.{claim_in, claim_lease, release_in, release_lease, renew_in, renew_lease}
use vci.Store.Record.{RunRecord, StoreError, invalid_run_id}
use vci.Store.Results.{publish_in, publish_result}
use vci.Store.Runs.{
  Change, commit_change, load, load_path, lock_dir, mutate, mutate_dir, save_unlocked, with_lock,
}

save_unlocked-claims : (d : Disk) (r : RunRecord) → (save_unlocked d r).0.claims ≡ d.claims
unfolding save_unlocked
save_unlocked-claims d r = ground arith

commit_change-claims :
    (d : Disk) (before : RunRecord) (res : Result StoreError RunRecord)
    → (commit_change d before res).0.claims ≡ d.claims
unfolding commit_change
commit_change-claims d before (err e) = refl
commit_change-claims d before (ok r) = ground (arith, save_unlocked-claims d r)

lock_dir-claims : (d : Disk) (id : Text) → (lock_dir d id).0.claims ≡ d.claims
unfolding lock_dir
lock_dir-claims d id = ground arith

-- What is done under the lock of a run leaves a part of the disk alone if taking the lock and its body
-- do.
module _ {X : Type 0} (part : Disk → X) {A : Type 0}
    (body : Disk → RunDir → Disk × Result StoreError A)
    (keeps : (d : Disk) (dir : RunDir) → part (body d dir).0 ≡ part d) where
  with_lock-keeps : (p : Disk × Result StoreError RunDir) → part (with_lock p body).0 ≡ part p.0
  with_lock-keeps (d, ok dir) = keeps d dir
  with_lock-keeps (d, err e) = refl

  pub under_lock-keeps :
      (d : Disk) (id : Text)
      → part (lock_dir d id).0 ≡ part d
      → part
          (if not (valid_name id)
            then (d, err invalid_run_id)
            else with_lock (lock_dir d id) body).0
        ≡ part d
  under_lock-keeps d id same =
      if_either (λ (q : Disk × Result StoreError A). part q.0 ≡ part d) (not (valid_name id)) _ _
        refl (with_lock-keeps (lock_dir d id) ∙ same)

abbrev pub claims_of : Disk → List ClaimFile
claims_of d = d.claims

mutate_dir-claims :
    (id : Text) (change : Change) (d : Disk) (dir : RunDir)
    → (mutate_dir d id dir change).0.claims ≡ d.claims
unfolding mutate_dir
mutate_dir-claims id change d dir = elim (Result-cases (load_path dir.run id)) [
  | inr (x, e) ↦ rw (e, mutate_dir) refl
  | inl (r, e) ↦ rw (e, mutate_dir) (commit_change-claims _ r (change dir.execution r).1)
]

pub mutate-claims :
    (d : Disk) (id : Text) (change : Change) → (mutate d id change).0.claims ≡ d.claims
unfolding mutate
mutate-claims d id change =
    under_lock-keeps claims_of _ (mutate_dir-claims id change) d id (lock_dir-claims d id)

pub publish_result-claims :
    (d : Disk) (id value : Text) → (publish_result d id value).0.claims ≡ d.claims
unfolding publish_result publish_in
publish_result-claims d id value =
    under_lock-keeps claims_of _ (λ d' dir. ground arith) d id (lock_dir-claims d id)

pub claim_lease-claims :
    (d : Disk) (id owner : Text) (now ttl : ℕ)
    → (claim_lease d id owner now ttl).0.claims ≡ d.claims
unfolding claim_lease claim_in
claim_lease-claims d id owner now ttl =
    under_lock-keeps claims_of _ (λ d' dir. ground arith) d id (lock_dir-claims d id)

pub renew_lease-claims :
    (d : Disk) (id owner : Text) (now ttl : ℕ)
    → (renew_lease d id owner now ttl).0.claims ≡ d.claims
unfolding renew_lease renew_in
renew_lease-claims d id owner now ttl =
    under_lock-keeps claims_of _ (λ d' dir. ground arith) d id (lock_dir-claims d id)

pub release_lease-claims :
    (d : Disk) (id owner : Text) → (release_lease d id owner).0.claims ≡ d.claims
unfolding release_lease release_in
release_lease-claims d id owner =
    under_lock-keeps claims_of _ (λ d' dir. ground arith) d id (lock_dir-claims d id)

-- The scheduler's operations leave the runs alone.
drop_claim-runs : (d : Disk) (machine run_id : Text) → (drop_claim d machine run_id).0.runs ≡ d.runs
unfolding drop_claim
drop_claim-runs d machine run_id = ground arith

write_claim-runs :
    (d : Disk) (machine : Text) (c : Claim) → (write_claim d machine c).0.runs ≡ d.runs
unfolding write_claim
write_claim-runs d machine c = ground arith

pub release_claim-runs :
    (clock : ℕ) (d : Disk) (machine run_id : Text)
    → (release_claim clock d machine run_id).0.runs ≡ d.runs
unfolding release_claim
release_claim-runs clock d machine run_id = ground (arith, drop_claim-runs d machine run_id)

reap_each-runs :
    (d : Disk) (n : ℕ) (cs : List Reservation) → (reap_each load d n cs).0.runs ≡ d.runs
unfolding reap_each
reap_each-runs d n [] = refl
reap_each-runs d n (c ∷ cs) = ground (
  arith,
  reap_each-runs d n cs,
  drop_claim-runs d c.machine c.run_id,
  reap_each-runs (drop_claim d c.machine c.run_id).0 (n + 1) cs,
)

pub reap-runs : (clock : ℕ) (d : Disk) → (reap load clock d).0.runs ≡ d.runs
unfolding reap reap_claims
reap-runs clock d = elim (Result-cases (enumerate_claims clock d.claims)) [
  | inl (cs, e) ↦ ground (arith, e, reap_each-runs d 0 cs)
  | inr (x, e) ↦ ground (arith, e)
]

reap_and_count-runs : (clock : ℕ) (d : Disk) → (reap_and_count load clock d).0.runs ≡ d.runs
unfolding reap_and_count reap
reap_and_count-runs clock d = reap-runs clock d

reserve_on-runs :
    (clock : ℕ) (d : Disk) (m : Machine) (machine run_id : Text) (now : ℕ)
    → (reserve_on load clock d m machine run_id now).0.runs ≡ d.runs
unfolding reserve_on
reserve_on-runs clock d m machine run_id now = elim (Result-cases (reap_and_count load clock d).1) [
  | inr (x, e) ↦ rw (e, reserve_on) (reap_and_count-runs clock d)
  | inl (cs, e) ↦ ground (
    arith,
    e,
    reap_and_count-runs clock d,
    write_claim-runs (reap_and_count load clock d).0 machine (record {
      schema_version = claim_schema_version;
      machine = machine;
      run_id = run_id;
      created_at = now;
    }),
  )
]

pub reserve-runs :
    (clock : ℕ) (d : Disk) (cfg : Config) (machine run_id : Text) (now : ℕ)
    → (reserve load clock d cfg machine run_id now).0.runs ≡ d.runs
unfolding reserve
reserve-runs clock d cfg machine run_id now = elim (Option-cases (lookup machine cfg.machines)) [
  | inl e ↦ ground (arith, e)
  | inr (x, e) ↦ ground (arith, e, reserve_on-runs clock d x machine run_id now)
]
