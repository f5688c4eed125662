-- ===== src/System/Others.antt =====
-- The records of runs after the steps of the store.
use vci.Base.{
  ℕ, ◌+◌, ◌≡◌, refl, ap, ◌∙◌, ◌≢◌, inl, inr, not, some, arith, if◌then◌else◌, Option-cases,
  if_either, Result, ok, err, absent, holds, Result-cases, Text, text_eq_refl, text_eq_iff,
}
use vci.Model.Names.{valid_name}
use vci.Store.Disk.{Disk, Lease, RunDir, empty_dir, find_dir, find_dir-put_dir, put_dir}
use vci.Store.Immutable.{load_path-ok}
use vci.Store.Lease.{
  claim_in, claim_lease, decode_lease, release_in, release_lease, renew_in, renew_lease,
  write_lease,
}
use vci.Store.Record.{RunRecord, StoreError, invalid_run_id}
use vci.Store.Results.{publish_in, publish_result}
use vci.Store.Runs.{
  Change, commit_change, load, load_path, lock_dir, mutate, mutate_dir, save_unlocked, with_lock,
}
use vci.Store.Transitions.{load-put_other}
use vci.System.Steps.{KeepsId}

lock_dir-found :
    (d d' : Disk) (id : Text) (dir : RunDir)
    → lock_dir d id ≡ (d', ok dir)
    → find_dir id d'.runs ≡ some dir
unfolding lock_dir
lock_dir-found d d' id dir e = elim (Option-cases (find_dir id d.runs)) [
  | inr (x, f) ↦ ground (arith, e, f)
  | inl f ↦ ground (arith, e, f, find_dir-put_dir id id empty_dir d.runs, text_eq_refl id)
]

-- To take a lock changes no record, also where it creates the directory.
lock_dir-load : (d : Disk) (id j : Text) → load (lock_dir d id).0 j ≡ load d j
unfolding lock_dir load load_path
lock_dir-load d id j = ground (arith, find_dir-put_dir id j empty_dir d.runs, text_eq_iff id j)

-- So does a new content of a directory with the same record.
load-put_dir :
    (d : Disk) (id j : Text) (dir new_dir : RunDir)
    → find_dir id d.runs ≡ some dir
    → new_dir.run ≡ dir.run
    → load (record d { runs = put_dir id new_dir d.runs }) j ≡ load d j
unfolding load
load-put_dir d id j dir new_dir f e =
    ground
      (arith, find_dir-put_dir id j new_dir d.runs, text_eq_iff id j, f, ap (λ x. load_path x j) e)

module _ {A : Type 0} (id j : Text) (body : Disk → RunDir → Disk × Result StoreError A)
    (keeps : (d : Disk) (dir : RunDir)
      → find_dir id d.runs ≡ some dir
      → load (body d dir).0 j ≡ load d j) where
  with_lock-load :
      (d : Disk) (p : Disk × Result StoreError RunDir)
      → lock_dir d id ≡ p
      → load (with_lock p body).0 j ≡ load p.0 j
  with_lock-load d (d', ok dir) e = keeps d' dir (lock_dir-found d d' id dir e)
  with_lock-load d (d', err x) e = refl

  under_lock-load :
      (d : Disk)
      → load
          (if not (valid_name id)
            then (d, err invalid_run_id)
            else with_lock (lock_dir d id) body).0
          j
        ≡ load d j
  under_lock-load d =
      if_either (λ (q : Disk × Result StoreError A). load q.0 j ≡ load d j) (not (valid_name id)) _
        _ refl (with_lock-load d (lock_dir d id) refl ∙ lock_dir-load d id j)

pub publish_result-load :
    (d : Disk) (id value j : Text) → load (publish_result d id value).0 j ≡ load d j
unfolding publish_result publish_in
publish_result-load d id value j =
    under_lock-load id j _
      (λ d' dir f.
        ground (arith, load-put_dir d' id j dir (record dir { result = some value }) f refl))
      d

write_lease-load :
    (d : Disk) (id j : Text) (dir : RunDir) (x : Lease)
    → find_dir id d.runs ≡ some dir
    → load (write_lease d id dir x).0 j ≡ load d j
write_lease-load d id j dir x f =
    ground (arith, load-put_dir d id j dir (record dir { lease = holds x }) f refl)

pub claim_lease-load :
    (d : Disk) (id owner j : Text) (now ttl : ℕ)
    → load (claim_lease d id owner now ttl).0 j ≡ load d j
unfolding claim_lease claim_in
claim_lease-load d id owner j now ttl =
    under_lock-load id j _
      (λ d' dir f. ground (
        arith,
        write_lease-load d' id j dir (record { run_id = id; owner = owner; expires_at = now + ttl })
            f,
      ))
      d

renew_in-load :
    (d : Disk) (id owner j : Text) (dir : RunDir) (now ttl : ℕ)
    → find_dir id d.runs ≡ some dir
    → load (renew_in d id dir owner now ttl).0 j ≡ load d j
unfolding renew_in
renew_in-load d id owner j dir now ttl f = elim (Result-cases (decode_lease dir.lease)) [
  | inr (x, e) ↦ ground (arith, e)
  | inl (x, e) ↦
      ground (arith, e, write_lease-load d id j dir (record x { expires_at = now + ttl }) f)
]

pub renew_lease-load :
    (d : Disk) (id owner j : Text) (now ttl : ℕ)
    → load (renew_lease d id owner now ttl).0 j ≡ load d j
unfolding renew_lease
renew_lease-load d id owner j now ttl =
    under_lock-load id j _ (λ d' dir f. renew_in-load d' id owner j dir now ttl f) d

release_in-load :
    (d : Disk) (id owner j : Text) (dir : RunDir)
    → find_dir id d.runs ≡ some dir
    → load (release_in d id dir owner).0 j ≡ load d j
unfolding release_in
release_in-load d id owner j dir f = elim (Result-cases (decode_lease dir.lease)) [
  | inr (x, e) ↦ ground (arith, e)
  | inl (x, e) ↦ ground (arith, e, load-put_dir d id j dir (record dir { lease = absent }) f refl)
]

pub release_lease-load :
    (d : Disk) (id owner j : Text) → load (release_lease d id owner).0 j ≡ load d j
unfolding release_lease
release_lease-load d id owner j =
    under_lock-load id j _ (λ d' dir f. release_in-load d' id owner j dir f) d

-- Records of the same runs.
pub same_runs-load : (d d' : Disk) (j : Text) → d'.runs ≡ d.runs → load d' j ≡ load d j
unfolding load
same_runs-load d d' j e = rw e

pub save_unlocked-load :
    (d : Disk) (r : RunRecord) (j : Text) → j ≢ r.id → load (save_unlocked d r).0 j ≡ load d j
unfolding save_unlocked
save_unlocked-load d r j n = elim (Option-cases (find_dir r.id d.runs)) [
  | inl e ↦ ground (arith, e)
  | inr (dir, e) ↦ ground (arith, e, load-put_other d r.id j (record dir { run = holds r }) n)
]

commit_change-load :
    (d : Disk) (before : RunRecord) (res : Result StoreError RunRecord) (j : Text)
    → ((s : RunRecord) → res ≡ ok s → j ≢ s.id)
    → load (commit_change d before res).0 j ≡ load d j
unfolding commit_change
commit_change-load d before (err e) j n = refl
commit_change-load d before (ok s) j n = ground (arith, save_unlocked-load d s j (n s refl))

mutate_dir-load :
    (d : Disk) (id j : Text) (dir : RunDir) (change : Change)
    → KeepsId change
    → j ≢ id
    → load (mutate_dir d id dir change).0 j ≡ load d j
unfolding mutate_dir
mutate_dir-load d id j dir change k n = elim (Result-cases (load_path dir.run id)) [
  | inr (x, e) ↦ rw (e, mutate_dir) refl
  | inl (r, e) ↦
      let x = dir.execution in
      rw (e, mutate_dir)
        (commit_change-load _ r (change x r).1 j
            (λ s q same. n (same ∙ k x r s q ∙ (load_path-ok dir.run id r e).1))
          ∙ load-put_other d id j (record dir { execution = (change x r).0 }) n)
]

-- A mutation changes no other run than its own.
pub mutate-load_other :
    (d : Disk) (id j : Text) (change : Change)
    → KeepsId change
    → j ≢ id
    → load (mutate d id change).0 j ≡ load d j
unfolding mutate
mutate-load_other d id j change k n =
    under_lock-load id j _ (λ d' dir f. mutate_dir-load d' id j dir change k n) d
