-- ===== src/System/Histories.antt =====
-- What is the same all along a history of the system.
use vci.Base.{
  ◌≡◌, ◌∙◌, subst, inl, inr, true, arith, Bool-cases, ok, Text, text_eq, text_eq_sound, text_eq_iff,
}
use vci.Config.Types.{Config}
use vci.Model.State.{is_terminal}
use vci.Scheduler.Capacity.{WithinCapacity, reap-WithinCapacity}
use vci.Scheduler.Reserving.{
  release_claim-WithinCapacity, reserve-WithinCapacity, same_claims-WithinCapacity,
}
use vci.Store.Disk.{Disk}
use vci.Store.Immutable.{mutate_terminal}
use vci.Store.Record.{RunRecord}
use vci.Store.Runs.{load, mutate}
use vci.System.Claims.{
  claim_lease-claims, mutate-claims, publish_result-claims, reap-runs, release_claim-runs,
  release_lease-claims, renew_lease-claims, reserve-runs,
}
use vci.System.Others.{
  claim_lease-load, mutate-load_other, publish_result-load, release_lease-load, renew_lease-load,
  same_runs-load,
}
use vci.System.Steps.{
  History, Step, beginning, claims_lease, mutates, publishes, reaps, releases_claim, releases_lease,
  renews_lease, reserves, step,
}

Step-WithinCapacity :
    (cfg : Config) (d d' : Disk) → Step cfg d d' → WithinCapacity cfg d → WithinCapacity cfg d'
Step-WithinCapacity cfg d d' (mutates _ id change k) w =
    same_claims-WithinCapacity cfg d d' (mutate-claims d id change) w
Step-WithinCapacity cfg d d' (publishes _ id value) w =
    same_claims-WithinCapacity cfg d d' (publish_result-claims d id value) w
Step-WithinCapacity cfg d d' (claims_lease _ id owner now ttl) w =
    same_claims-WithinCapacity cfg d d' (claim_lease-claims d id owner now ttl) w
Step-WithinCapacity cfg d d' (renews_lease _ id owner now ttl) w =
    same_claims-WithinCapacity cfg d d' (renew_lease-claims d id owner now ttl) w
Step-WithinCapacity cfg d d' (releases_lease _ id owner) w =
    same_claims-WithinCapacity cfg d d' (release_lease-claims d id owner) w
Step-WithinCapacity cfg d d' (reserves clock _ machine run_id now) w =
    reserve-WithinCapacity load clock d cfg machine run_id now w
Step-WithinCapacity cfg d d' (releases_claim clock _ machine run_id) w =
    release_claim-WithinCapacity clock cfg d machine run_id w
Step-WithinCapacity cfg d d' (reaps clock _) w = reap-WithinCapacity load clock cfg d w

-- Along any sequence of mutations of records, publications of results, operations on leases,
-- reservations, releases and reaps of claims, under one inventory, no machine of the inventory ever has
-- more claims than slots, if none had at the start.
pub History-WithinCapacity :
    (cfg : Config) (d d' : Disk) → History cfg d d' → WithinCapacity cfg d → WithinCapacity cfg d'
History-WithinCapacity cfg d d' beginning w = w
History-WithinCapacity cfg d d' (step {d' = e} s h) w =
    History-WithinCapacity cfg e d' h (Step-WithinCapacity cfg d e s w)

Step-frozen :
    (cfg : Config) (d d' : Disk) (id : Text) (r : RunRecord)
    → Step cfg d d'
    → load d id ≡ ok r
    → is_terminal r.state ≡ true
    → load d' id ≡ ok r
Step-frozen cfg d d' id r (mutates _ j change k) l t = elim (Bool-cases (text_eq id j)) [
  | inl same ↦
      subst (λ x. load (mutate d x change).0 id ≡ ok r) (text_eq_sound id j same)
        (mutate_terminal d id change r l t)
  | inr differs ↦
      mutate-load_other d j id change k (λ e. ground (arith, differs, text_eq_iff id j, e)) ∙ l
]
Step-frozen cfg d d' id r (publishes _ j value) l t = publish_result-load d j value id ∙ l
Step-frozen cfg d d' id r (claims_lease _ j owner now ttl) l t =
    claim_lease-load d j owner id now ttl ∙ l
Step-frozen cfg d d' id r (renews_lease _ j owner now ttl) l t =
    renew_lease-load d j owner id now ttl ∙ l
Step-frozen cfg d d' id r (releases_lease _ j owner) l t = release_lease-load d j owner id ∙ l
Step-frozen cfg d d' id r (reserves clock _ machine run_id now) l t =
    same_runs-load d d' id (reserve-runs clock d cfg machine run_id now) ∙ l
Step-frozen cfg d d' id r (releases_claim clock _ machine run_id) l t =
    same_runs-load d d' id (release_claim-runs clock d machine run_id) ∙ l
Step-frozen cfg d d' id r (reaps clock _) l t = same_runs-load d d' id (reap-runs clock d) ∙ l

-- A run that has reached a terminal state keeps its record, unchanged in every field, along any sequence
-- of mutations whose callbacks leave the run id alone, publications of results, operations on leases,
-- reservations, releases and reaps of claims.
pub History-frozen :
    (cfg : Config) (d d' : Disk) (id : Text) (r : RunRecord)
    → History cfg d d'
    → load d id ≡ ok r
    → is_terminal r.state ≡ true
    → load d' id ≡ ok r
History-frozen cfg d d' id r beginning l t = l
History-frozen cfg d d' id r (step {d' = e} s h) l t =
    History-frozen cfg e d' id r h (Step-frozen cfg d e id r s l t) t
