-- ===== src/Scheduler/Capacity.antt =====
-- internal/scheduler: the claims of a machine and its slots. The reap and the writes of claims.
use vci.Base.{
  ℕ, ◌+◌, ◌≤◌, ◌<◌, ◌≡◌, inl, inr, some, List, [], ◌∷◌, arith, Result, ok, Result-cases, Text,
  text_eq_iff, lookup,
}
use vci.Config.Defaults.{effective_capacity}
use vci.Config.Types.{Config, Machine}
use vci.Scheduler.Claims.{Reservation, count_active, enumerate_claims}
use vci.Scheduler.Files.{drop_claim, write_claim}
use vci.Scheduler.Operations.{reap, reap_and_count, reap_claims, reap_each, status}
use vci.Scheduler.Slots.{count_active-slots, slots, slots-drop_claim-le, slots-write_claim-le}
use vci.Store.Disk.{Claim, Disk}
use vci.Store.Record.{RunRecord, StoreError}

-- Every machine of the inventory has at most as many claims as slots.
pub record WithinCapacity (cfg : Config) (d : Disk) : Type 0 where
  pub bounded :
      (m : Text) (x : Machine)
      → lookup m cfg.machines ≡ some x
      → slots m d.claims ≤ effective_capacity x

-- No machine has more claims than before.
abbrev pub Shrinks : Disk → Disk → Type 0
Shrinks d d' = (m : Text) → slots m d'.claims ≤ slots m d.claims

pub Shrinks-WithinCapacity :
    (cfg : Config) (d d' : Disk) → Shrinks d d' → WithinCapacity cfg d → WithinCapacity cfg d'
Shrinks-WithinCapacity cfg d d' s w = record {
  bounded = λ m x l. omega (arith, s m, w.bounded m x l);
}

module _ (loader : Disk → Text → Result StoreError RunRecord) where
  reap_each-Shrinks :
      (d : Disk) (n : ℕ) (cs : List Reservation) → Shrinks d (reap_each loader d n cs).0
  unfolding reap_each
  reap_each-Shrinks d n [] m = omega arith
  reap_each-Shrinks d n (c ∷ cs) m =
      let d' = (drop_claim d c.machine c.run_id).0 in
      ground (
        arith,
        reap_each-Shrinks d n cs m,
        reap_each-Shrinks d' (n + 1) cs m,
        slots-drop_claim-le d c.machine c.run_id m,
      )

  reap_claims-Shrinks : (clock : ℕ) (d : Disk) → Shrinks d (reap_claims loader clock d).0
  unfolding reap_claims
  reap_claims-Shrinks clock d m = elim (Result-cases (enumerate_claims clock d.claims)) [
    | inl (cs, e) ↦ ground (arith, reap_each-Shrinks d 0 cs m)
    | inr (x, e) ↦ ground arith
  ]

  pub reap_and_count-Shrinks : (clock : ℕ) (d : Disk) → Shrinks d (reap_and_count loader clock d).0
  unfolding reap_and_count
  reap_and_count-Shrinks clock d m = reap_claims-Shrinks clock d m

  -- The counts are those of the claims that the reap has left.
  pub reap_and_count-slots :
      (clock : ℕ) (d : Disk) (cs : List Reservation)
      → (reap_and_count loader clock d).1 ≡ ok cs
      → (m : Text) → count_active m cs ≡ slots m (reap_and_count loader clock d).0.claims
  unfolding reap_and_count
  reap_and_count-slots clock d cs e m =
      count_active-slots clock m (reap_claims loader clock d).0.claims cs (ground arith)

  -- `Reap` and `Status` only take claims away.
  pub reap-WithinCapacity :
      (clock : ℕ) (cfg : Config) (d : Disk)
      → WithinCapacity cfg d
      → WithinCapacity cfg (reap loader clock d).0
  unfolding reap
  reap-WithinCapacity clock cfg d = Shrinks-WithinCapacity cfg d _ (reap_claims-Shrinks clock d)

  pub status-WithinCapacity :
      (clock : ℕ) (cfg cfg' : Config) (d : Disk)
      → WithinCapacity cfg d
      → WithinCapacity cfg (status loader clock d cfg').0
  unfolding status
  status-WithinCapacity clock cfg cfg' d =
      Shrinks-WithinCapacity cfg d _ (reap_and_count-Shrinks clock d)

-- Room for one more claim on a machine, and no machine over its capacity.
pub record HasRoom (cfg : Config) (d : Disk) (machine : Text) : Type 0 where
  pub within : WithinCapacity cfg d
  pub room :
      (x : Machine)
      → lookup machine cfg.machines ≡ some x
      → slots machine d.claims < effective_capacity x

-- A claim that is written where there is room stays within the capacity.
pub write_claim-WithinCapacity :
    (cfg : Config) (d : Disk) (machine : Text) (c : Claim)
    → HasRoom cfg d machine
    → WithinCapacity cfg (write_claim d machine c).0
write_claim-WithinCapacity cfg d machine c h = record {
  bounded = λ m x l. ground (
    arith,
    slots-write_claim-le d machine m c,
    text_eq_iff machine m,
    h.within.bounded m x l,
    h.room x,
  );
}

-- A callback that leaves the claims alone.
abbrev pub KeepsClaims : (Text → Disk → Disk × Result StoreError (Unit {0})) → Type 0
KeepsClaims publish = (machine : Text) (d : Disk) → (publish machine d).0.claims ≡ d.claims
