-- ===== src/Store/Exclusion.antt =====
-- internal/store/store.go: a lease that is held, and the leases that others ask for.
use vci.Base.{
  ℕ, ◌+◌, ◌≤◌, ◌<◌, ◌≡◌, ◌≢◌, true, arith, ok, err, holds, Text, text_eq_refl, text_eq_iff,
}
use vci.Model.Names.{valid_name}
use vci.Store.Disk.{Disk}
use vci.Store.Lease.{claim_lease, release_lease, renew_lease}
use vci.Store.LeaseLaws.{claim_lease-Does, lease, lease_of, release_lease-Does, renew_lease-Does}
use vci.Store.Record.{leased_by, not_owned_by}

-- The state that a successful claim leaves.
abbrev pub HeldBy : Disk → Text → Text → ℕ → Type 0
HeldBy d id owner until = (lease_of d id ≡ holds (lease id owner until)) × (d.healthy ≡ true)

pub claim_lease-HeldBy :
    (d : Disk) (id owner : Text) (now ttl : ℕ)
    → valid_name id ≡ true
    → d.healthy ≡ true
    → (claim_lease d id owner now ttl).1 ≡ ok tt
    → HeldBy (claim_lease d id owner now ttl).0 id owner (now + ttl)
claim_lease-HeldBy d id owner now ttl v up h =
    ground (arith, claim_lease-Does d id owner now ttl v up)

module _ (d : Disk) (id owner : Text) (until : ℕ) (v : valid_name id ≡ true)
    (held : HeldBy d id owner until) (other : Text) (now ttl : ℕ) where
  -- A worker holds the lease of a run with a valid name, and files can be written. Until the lease runs
  -- out every claim of another worker is refused and names the holder, and another worker can neither
  -- renew nor release the lease; the lease stays as it is.
  pub lease_excludes :
      now < until
      → other ≢ owner
      → ((claim_lease d id other now ttl).1 ≡ err (leased_by owner))
        × ((renew_lease d id other now ttl).1 ≡ err (not_owned_by other))
        × ((release_lease d id other).1 ≡ err (not_owned_by other))
        × (lease_of (claim_lease d id other now ttl).0 id ≡ holds (lease id owner until))
        × (lease_of (renew_lease d id other now ttl).0 id ≡ holds (lease id owner until))
        × (lease_of (release_lease d id other).0 id ≡ holds (lease id owner until))
  lease_excludes early differs = ground (
    arith,
    claim_lease-Does d id other now ttl v held.1,
    renew_lease-Does d id other now ttl v held.1,
    release_lease-Does d id other v held.1,
    text_eq_iff owner other,
  )

  -- A worker that holds the lease of a run with a valid name can renew it until it runs out, where files
  -- can be written.
  pub lease_renews : now < until → HeldBy (renew_lease d id owner now ttl).0 id owner (now + ttl)
  lease_renews early =
      ground (arith, renew_lease-Does d id owner now ttl v held.1, text_eq_refl owner)

  -- Once the lease of a run with a valid name has run out its holder cannot renew it, and any worker can
  -- claim it, where files can be written.
  pub lease_expires :
      until ≤ now
      → ((renew_lease d id owner now ttl).1 ≡ err (not_owned_by owner))
        × HeldBy (claim_lease d id other now ttl).0 id other (now + ttl)
  lease_expires late = ground (
    arith,
    renew_lease-Does d id owner now ttl v held.1,
    claim_lease-Does d id other now ttl v held.1,
  )

  -- A lease that its holder releases can be claimed at once, for a valid name and where files can be
  -- written.
  pub lease_handover :
      HeldBy (claim_lease (release_lease d id owner).0 id other now ttl).0 id other (now + ttl)
  lease_handover =
      let r = release_lease-Does d id owner v held.1 in
      ground (
        arith,
        r,
        text_eq_refl owner,
        claim_lease-Does (release_lease d id owner).0 id other now ttl v r.2,
      )
