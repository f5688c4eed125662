-- ===== src/Store/Lease.antt =====
-- internal/store/store.go: the worker leases, `Claim`, `Renew`, `Release`, `Read`, `ReadHasNoLease`.
-- A `ttl` is the number of nanoseconds that a lease lasts.
use vci.Base.{
  ℕ, ◌+◌, Bool, true, false, not, ◌||◌, Option, none, some, [], ltb, if◌then◌else◌, Result, ok, err,
  File, absent, damaged, holds, Text, text_eq,
}
use vci.Model.Names.{valid_name}
use vci.Store.Disk.{Disk, Lease, RunDir, find_dir, put_dir}
use vci.Store.Record.{
  StoreError, invalid_run_id, leased_by, not_exist, not_owned_by, undecodable, write_failed,
}
use vci.Store.Runs.{lock_dir, with_lock}

unfoldable pub decode_lease : File Lease → Result StoreError Lease
decode_lease absent = err not_exist
decode_lease damaged = err undecodable
decode_lease (holds x) = ok x

-- Whether a lease stands in the way of a claim at `now`.
abbrev pub blocks : File Lease → ℕ → Bool
blocks (holds x) now = ltb now x.expires_at
blocks _ now = false

abbrev pub holder : File Lease → Text
holder (holds x) = x.owner
holder _ = []

abbrev pub put_lease : Disk → Text → RunDir → File Lease → Disk
put_lease d id dir f = record d { runs = put_dir id (record dir { lease = f }) d.runs }

abbrev pub write_lease : Disk → Text → RunDir → Lease → Disk × Result StoreError (Unit {0})
write_lease d id dir x =
    if d.healthy then (put_lease d id dir (holds x), ok tt) else (d, err write_failed)

-- `Claim`, in the locked directory.
unfoldable pub claim_in : Disk → Text → RunDir → Text → ℕ → ℕ → Disk × Result StoreError (Unit {0})
claim_in d id dir owner now ttl =
    if blocks dir.lease now
    then (d, err (leased_by (holder dir.lease)))
    else write_lease d id dir (record { run_id = id; owner = owner; expires_at = now + ttl })

-- `Renew`, in the locked directory.
unfoldable pub renew_in : Disk → Text → RunDir → Text → ℕ → ℕ → Disk × Result StoreError (Unit {0})
renew_in d id dir owner now ttl = elim (decode_lease dir.lease) [
  | err e ↦ (d, err e)
  | ok x ↦
      if not (text_eq x.owner owner) || not (ltb now x.expires_at)
      then (d, err (not_owned_by owner))
      else write_lease d id dir (record x { expires_at = now + ttl })
]

-- `Release`, in the locked directory.
unfoldable pub release_in : Disk → Text → RunDir → Text → Disk × Result StoreError (Unit {0})
release_in d id dir owner = elim (decode_lease dir.lease) [
  | err e ↦ (d, err e)
  | ok x ↦
      if not (text_eq x.owner owner)
      then (d, err (not_owned_by owner))
      else if d.healthy
      then (put_lease d id dir absent, ok tt)
      else (d, err write_failed)
]

abbrev pub under_lock :
    Disk
    → Text
    → (Disk → RunDir → Disk × Result StoreError (Unit {0}))
    → Disk × Result StoreError (Unit {0})
under_lock d id body =
    if not (valid_name id) then (d, err invalid_run_id) else with_lock (lock_dir d id) body

unfoldable pub claim_lease : Disk → Text → Text → ℕ → ℕ → Disk × Result StoreError (Unit {0})
claim_lease d id owner now ttl = under_lock d id (λ d' dir. claim_in d' id dir owner now ttl)

unfoldable pub renew_lease : Disk → Text → Text → ℕ → ℕ → Disk × Result StoreError (Unit {0})
renew_lease d id owner now ttl = under_lock d id (λ d' dir. renew_in d' id dir owner now ttl)

unfoldable pub release_lease : Disk → Text → Text → Disk × Result StoreError (Unit {0})
release_lease d id owner = under_lock d id (λ d' dir. release_in d' id dir owner)

abbrev pub lease_found : Option RunDir → Result StoreError Lease
lease_found none = err not_exist
lease_found (some dir) = decode_lease dir.lease

unfoldable pub read_lease : Disk → Text → Result StoreError Lease
read_lease d id =
    if not (valid_name id) then err invalid_run_id else lease_found (find_dir id d.runs)

abbrev pub no_lease_in : Option RunDir → Bool
no_lease_in none = true
no_lease_in (some dir) = elim dir.lease [ absent ↦ true | _ ↦ false ]

-- A lease file that cannot be decoded counts as a lease.
unfoldable pub read_has_no_lease : Disk → Text → Bool
read_has_no_lease d id = if not (valid_name id) then false else no_lease_in (find_dir id d.runs)
