-- ===== src/Scheduler/Reserving.antt =====
-- internal/scheduler/scheduler.go: the claims and the slots after `ReserveAndPublish`, `Reserve` and
-- `Release`.
use vci.Base.{
  ℕ, ◌+◌, ◌<◌, ◌≡◌, sym, ap, ◌∙◌, inl, inr, some, List, arith, ltb, leb, Bool-cases, Option-cases,
  Result, ok, Result-cases, Text, lookup, IsMap,
}
use vci.Config.Defaults.{effective_capacity}
use vci.Config.Types.{Config, Machine}
use vci.Scheduler.Capacity.{
  HasRoom, KeepsClaims, Shrinks-WithinCapacity, WithinCapacity, reap_and_count-Shrinks,
  reap_and_count-slots, write_claim-WithinCapacity,
}
use vci.Scheduler.Choose.{Snapshot, choose_slot, validate_run_and_candidates}
use vci.Scheduler.Chosen.{choose_slot-some}
use vci.Scheduler.Claims.{Reservation, claim_schema_version, count_active, minute}
use vci.Scheduler.Files.{drop_claim, release_claim, write_claim}
use vci.Scheduler.Operations.{
  claim_and_publish, reap_and_count, reserve, reserve_and_publish, reserve_on, roll_back,
}
use vci.Scheduler.Slots.{slots, slots-drop_claim-le}
use vci.Store.Disk.{Claim, Disk}
use vci.Store.Record.{RunRecord, StoreError}

drop_claim-WithinCapacity :
    (cfg : Config) (d : Disk) (machine run_id : Text)
    → WithinCapacity cfg d
    → WithinCapacity cfg (drop_claim d machine run_id).0
drop_claim-WithinCapacity cfg d machine run_id w = record {
  bounded = λ m x l. omega (arith, slots-drop_claim-le d machine run_id m, w.bounded m x l);
}

pub same_claims-WithinCapacity :
    (cfg : Config) (d d' : Disk)
    → d'.claims ≡ d.claims
    → WithinCapacity cfg d
    → WithinCapacity cfg d'
same_claims-WithinCapacity cfg d d' e w = record {
  bounded = λ m x l. ground (arith, w.bounded m x l, ap (λ cs. slots m cs) e);
}

roll_back-WithinCapacity :
    (cfg : Config) (d : Disk) (machine run_id : Text) (e : StoreError)
    → WithinCapacity cfg d
    → WithinCapacity cfg (roll_back d machine run_id e).0
unfolding roll_back
roll_back-WithinCapacity cfg d machine run_id e w = drop_claim-WithinCapacity cfg d machine run_id w

-- The slot that is chosen with the counts after the reap has room.
chosen-HasRoom :
    (loader : Disk → Text → Result StoreError RunRecord) (clock : ℕ) (cfg : Config) (d : Disk)
    (cs : List Reservation) (candidates : List Text) (s : Snapshot)
    → IsMap cfg.machines
    → WithinCapacity cfg (reap_and_count loader clock d).0
    → (reap_and_count loader clock d).1 ≡ ok cs
    → choose_slot (λ m. count_active m cs) cfg candidates ≡ some s
    → HasRoom cfg (reap_and_count loader clock d).0 s.name
chosen-HasRoom loader clock cfg d cs candidates s keys w good chosen =
    let ((y, known, cap, act), member, free) =
      choose_slot-some (λ m. count_active m cs) cfg candidates s keys chosen in
    record {
      within = w;
      room = λ x l. ground (
        arith,
        reap_and_count-slots loader clock d cs good s.name,
        free,
        sym known ∙ l,
        cap,
        act,
      );
    }

module _ (publish : Text → Disk → Disk × Result StoreError (Unit {0}))
    (keeps : KeepsClaims publish) where
  claim_and_publish-WithinCapacity :
      (cfg : Config) (d : Disk) (machine run_id : Text) (now : ℕ)
      → HasRoom cfg d machine
      → WithinCapacity cfg (claim_and_publish d machine run_id now publish).0
  unfolding claim_and_publish
  claim_and_publish-WithinCapacity cfg d machine run_id now h =
      let c : Claim = record {
        schema_version = claim_schema_version;
        machine = machine;
        run_id = run_id;
        created_at = now;
      } in
      let d' = (write_claim d machine c).0 in
      let w = write_claim-WithinCapacity cfg d machine c h in
      let w' = same_claims-WithinCapacity cfg d' (publish machine d').0 (keeps machine d') w in
      elim (Result-cases (write_claim d machine c).1) [
        | inr (x, e) ↦ rw (e, claim_and_publish) w
        | inl (x, e) ↦ elim (Result-cases (publish machine d').1) [
          | inl (y, e') ↦ rw (e, e', claim_and_publish) w'
          | inr (y, e') ↦
              rw (e, e', claim_and_publish)
                (roll_back-WithinCapacity cfg (publish machine d').0 machine run_id y w')
        ]
      ]

  -- `ReserveAndPublish` keeps every machine within its capacity on each of its paths, if the
  -- inventory names no machine twice, the publication leaves the claims alone and every machine was
  -- within its capacity before.
  pub reserve_and_publish-WithinCapacity :
      (loader : Disk → Text → Result StoreError RunRecord) (clock : ℕ) (d : Disk) (cfg : Config)
      (run_id : Text) (candidates : List Text) (now : ℕ)
      → IsMap cfg.machines
      → WithinCapacity cfg d
      → WithinCapacity cfg (reserve_and_publish loader clock d cfg run_id candidates now publish).0
  unfolding reserve_and_publish
  reserve_and_publish-WithinCapacity loader clock d cfg run_id candidates now keys w =
      let d' = (reap_and_count loader clock d).0 in
      let w' = Shrinks-WithinCapacity cfg d d' (reap_and_count-Shrinks loader clock d) w in
      elim (Result-cases (validate_run_and_candidates cfg run_id candidates)) [
        | inr (x, e) ↦ rw (e, reserve_and_publish) w
        | inl (x, e) ↦ elim (Bool-cases (ltb (clock + minute) now)) [
          | inl late ↦ rw (e, late, reserve_and_publish) w
          | inr fine ↦ elim (Result-cases (reap_and_count loader clock d).1) [
            | inr (y, bad) ↦ rw (e, fine, bad, reserve_and_publish) w'
            | inl (cs, good) ↦
                elim (Option-cases (choose_slot (λ m. count_active m cs) cfg candidates)) [
                  | inl full ↦ rw (e, fine, good, full, reserve_and_publish) w'
                  | inr (s, chosen) ↦
                      rw (e, fine, good, chosen, reserve_and_publish)
                        (claim_and_publish-WithinCapacity cfg d' s.name run_id now
                          (chosen-HasRoom loader clock cfg d cs candidates s keys w' good chosen))
                ]
          ]
        ]
      ]

write_if-WithinCapacity :
    (cfg : Config) (d : Disk) (x : Machine) (machine : Text) (c : Claim)
    → lookup machine cfg.machines ≡ some x
    → WithinCapacity cfg d
    → slots machine d.claims < effective_capacity x
    → WithinCapacity cfg (write_claim d machine c).0
write_if-WithinCapacity cfg d x machine c known w free =
    write_claim-WithinCapacity cfg d machine c
      (record { within = w; room = λ y l. ground (arith, free, sym known ∙ l) })

reserve_on-WithinCapacity :
    (loader : Disk → Text → Result StoreError RunRecord) (clock : ℕ) (d : Disk) (cfg : Config)
    (x : Machine) (machine run_id : Text) (now : ℕ)
    → lookup machine cfg.machines ≡ some x
    → WithinCapacity cfg d
    → WithinCapacity cfg (reserve_on loader clock d x machine run_id now).0
unfolding reserve_on
reserve_on-WithinCapacity loader clock d cfg x machine run_id now known w =
    let d' = (reap_and_count loader clock d).0 in
    let w' = Shrinks-WithinCapacity cfg d d' (reap_and_count-Shrinks loader clock d) w in
    elim (Result-cases (reap_and_count loader clock d).1) [
      | inr (y, bad) ↦ rw (bad, reserve_on) w'
      | inl (cs, good) ↦ elim (Bool-cases (leb (effective_capacity x) (count_active machine cs))) [
        | inl full ↦ rw (good, full, reserve_on) w'
        | inr free ↦
            rw (good, free, reserve_on)
              (write_if-WithinCapacity cfg d' x machine _ known w'
                (ground (arith, free, reap_and_count-slots loader clock d cs good machine)))
      ]
    ]

-- `Reserve` keeps every machine within its capacity on each of its paths, if all were before.
pub reserve-WithinCapacity :
    (loader : Disk → Text → Result StoreError RunRecord) (clock : ℕ) (d : Disk) (cfg : Config)
    (machine run_id : Text) (now : ℕ)
    → WithinCapacity cfg d
    → WithinCapacity cfg (reserve loader clock d cfg machine run_id now).0
unfolding reserve
reserve-WithinCapacity loader clock d cfg machine run_id now w =
    elim (Option-cases (lookup machine cfg.machines)) [
      | inl e ↦ ground (arith, e, w)
      | inr (x, e) ↦
          ground
            (arith, e, w, reserve_on-WithinCapacity loader clock d cfg x machine run_id now e w)
    ]

-- `Release` keeps every machine within its capacity, if all were before.
pub release_claim-WithinCapacity :
    (clock : ℕ) (cfg : Config) (d : Disk) (machine run_id : Text)
    → WithinCapacity cfg d
    → WithinCapacity cfg (release_claim clock d machine run_id).0
unfolding release_claim
release_claim-WithinCapacity clock cfg d machine run_id w =
    let w' = drop_claim-WithinCapacity cfg d machine run_id w in ground (arith, w, w')
