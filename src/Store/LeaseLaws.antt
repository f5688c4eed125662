-- ===== src/Store/LeaseLaws.antt =====
-- internal/store/store.go: what `Claim`, `Renew` and `Release` do to the lease file of a run.
use vci.Base.{
  ℕ, ◌+◌, ◌≡◌, refl, sym, subst, true, ◌&&◌, Option, none, some, arith, ltb, if◌then◌else◌, Result,
  ok, err, File, absent, damaged, holds, Text, text_eq, text_eq_refl,
}
use vci.Model.Names.{valid_name}
use vci.Store.Disk.{Disk, Lease, RunDir, empty_dir, find_dir, find_dir-put_dir, put_dir}
use vci.Store.Lease.{
  blocks, claim_in, claim_lease, decode_lease, holder, put_lease, release_in, release_lease,
  renew_in, renew_lease, under_lock,
}
use vci.Store.Record.{StoreError, leased_by, not_exist, not_owned_by, undecodable}
use vci.Store.Runs.{lock_dir, with_lock}

-- The lease file of a run.
abbrev pub lease_of : Disk → Text → File Lease
lease_of d id = elim (find_dir id d.runs) [ none ↦ absent | some dir ↦ dir.lease ]

abbrev pub lease : Text → Text → ℕ → Lease
lease id owner expires_at = record { run_id = id; owner = owner; expires_at = expires_at }

lease_of-put_lease :
    (d : Disk) (id : Text) (dir : RunDir) (f : File Lease) → lease_of (put_lease d id dir f) id ≡ f
lease_of-put_lease d id dir f =
    ground (arith, find_dir-put_dir id id (record dir { lease = f }) d.runs, text_eq_refl id)

-- The lock is taken on a directory with the run's lease.
record Locks (d : Disk) (id : Text) (d' : Disk) (dir : RunDir) : Type 0 where
  locked : lock_dir d id ≡ (d', ok dir)
  found : find_dir id d'.runs ≡ some dir
  same_lease : dir.lease ≡ lease_of d id
  up : d'.healthy ≡ true

lock_dir-Locks :
    (d : Disk) (id : Text) → d.healthy ≡ true → (d' : Disk) × (dir : RunDir) × Locks d id d' dir
unfolding lock_dir
lock_dir-Locks d id up = go (find_dir id d.runs) refl
  where
    go :
        (o : Option RunDir)
        → find_dir id d.runs ≡ o
        → (d' : Disk) × (dir : RunDir) × Locks d id d' dir
    go none e = (
      record d { runs = put_dir id empty_dir d.runs },
      empty_dir,
      record {
        locked = ground arith;
        found = ground (arith, find_dir-put_dir id id empty_dir d.runs, text_eq_refl id);
        same_lease = rw (e, lease_of);
        up = up;
      },
    )
    go (some dir) e = (
      d,
      dir,
      record { locked = rw (e, lock_dir); found = e; same_lease = rw (e, lease_of); up = up },
    )

-- What an operation on a run's lease answers, and the lease file that it leaves.
abbrev pub Does :
    Text → Disk × Result StoreError (Unit {0}) → File Lease × Result StoreError (Unit {0}) → Type 0
Does id p want = (lease_of p.0 id ≡ want.0) × (p.1 ≡ want.1) × (p.0.healthy ≡ true)

-- An operation under the lock does what its body does in the locked directory.
under_lock_lem :
    (d : Disk) (id : Text) (body : Disk → RunDir → Disk × Result StoreError (Unit {0}))
    (want : File Lease → File Lease × Result StoreError (Unit {0}))
    → valid_name id ≡ true
    → d.healthy ≡ true
    → ((d' : Disk) (dir : RunDir)
        → d'.healthy ≡ true
        → find_dir id d'.runs ≡ some dir
        → Does id (body d' dir) (want dir.lease))
    → Does id (under_lock d id body) (want (lease_of d id))
under_lock_lem d id body want v up k =
    let (d', dir, l) = lock_dir-Locks d id up in
    rw (v, ← l.same_lease)
      (subst (λ p. Does id (with_lock p body) (want dir.lease)) (sym l.locked)
        (k d' dir l.up l.found))

-- What a claim of the lease file `f` leaves and answers.
abbrev pub claim_cell : Text → Text → ℕ → ℕ → File Lease → File Lease × Result StoreError (Unit {0})
claim_cell id owner now ttl f =
    if blocks f now
    then (f, err (leased_by (holder f)))
    else (holds (lease id owner (now + ttl)), ok tt)

-- So for a renewal and a release.
abbrev pub renew_cell : Text → ℕ → ℕ → File Lease → File Lease × Result StoreError (Unit {0})
renew_cell owner now ttl absent = (absent, err not_exist)
renew_cell owner now ttl damaged = (damaged, err undecodable)
renew_cell owner now ttl (holds x) =
    if text_eq x.owner owner && ltb now x.expires_at
    then (holds (record x { expires_at = now + ttl }), ok tt)
    else (holds x, err (not_owned_by owner))

abbrev pub release_cell : Text → File Lease → File Lease × Result StoreError (Unit {0})
release_cell owner absent = (absent, err not_exist)
release_cell owner damaged = (damaged, err undecodable)
release_cell owner (holds x) =
    if text_eq x.owner owner then (absent, ok tt) else (holds x, err (not_owned_by owner))

-- Where files can be written, `Claim` acts on the run's lease file as `claim_cell` says.
pub claim_lease-Does :
    (d : Disk) (id owner : Text) (now ttl : ℕ)
    → valid_name id ≡ true
    → d.healthy ≡ true
    → Does id (claim_lease d id owner now ttl) (claim_cell id owner now ttl (lease_of d id))
unfolding claim_lease claim_in
claim_lease-Does d id owner now ttl v up =
    under_lock_lem d id _ (claim_cell id owner now ttl) v up λ d' dir up' found.
      ground (arith, lease_of-put_lease d' id dir (holds (lease id owner (now + ttl))))

-- So does `Renew` as `renew_cell` says.
pub renew_lease-Does :
    (d : Disk) (id owner : Text) (now ttl : ℕ)
    → valid_name id ≡ true
    → d.healthy ≡ true
    → Does id (renew_lease d id owner now ttl) (renew_cell owner now ttl (lease_of d id))
unfolding renew_lease renew_in decode_lease
renew_lease-Does d id owner now ttl v up =
    under_lock_lem d id _ (renew_cell owner now ttl) v up
      λ d' dir up' found. renewed d' dir dir.lease refl up' found
  where
    renewed :
        (d' : Disk) (dir : RunDir) (f : File Lease)
        → dir.lease ≡ f
        → d'.healthy ≡ true
        → find_dir id d'.runs ≡ some dir
        → Does id (renew_in d' id dir owner now ttl) (renew_cell owner now ttl dir.lease)
    renewed d' dir (holds x) e up' found =
        ground (arith, lease_of-put_lease d' id dir (holds (record x { expires_at = now + ttl })))
    renewed d' dir absent e up' found = ground arith
    renewed d' dir damaged e up' found = ground arith

-- So does `Release` as `release_cell` says.
pub release_lease-Does :
    (d : Disk) (id owner : Text)
    → valid_name id ≡ true
    → d.healthy ≡ true
    → Does id (release_lease d id owner) (release_cell owner (lease_of d id))
unfolding release_lease release_in decode_lease
release_lease-Does d id owner v up =
    under_lock_lem d id _ (release_cell owner) v up
      λ d' dir up' found. ground (arith, lease_of-put_lease d' id dir absent)
