-- ===== src/Scheduler/Full.antt =====
-- internal/scheduler/scheduler.go, `ReserveAndPublish`: the answer `ErrNoCapacity`.
use vci.Base.{
  ℕ, ◌+◌, ◌≤◌, ◌<◌, ◌≡◌, ◌≢◌, inl, inr, Bool, true, false, not, some, List, [], ◌∷◌, arith, ltb,
  leb, ◌==◌, if◌then◌else◌, Bool-cases, Option-cases, Result, ok, err, Result-cases, Text, lookup,
  mem_text,
}
use vci.Config.Defaults.{effective_capacity}
use vci.Config.Types.{Config, Machine}
use vci.Model.Names.{valid_name, valid_run_id}
use vci.Scheduler.Capacity.{reap_and_count-slots}
use vci.Scheduler.Choose.{choose_slot, validate_run_and_candidates}
use vci.Scheduler.Chosen.{choose_slot-none}
use vci.Scheduler.Claims.{Reservation, count_active, enumerate_claims, minute, no_capacity}
use vci.Scheduler.Files.{drop_claim, write_claim}
use vci.Scheduler.Operations.{
  claim_and_publish, reap_and_count, reap_claims, reap_each, reserve, reserve_and_publish,
  reserve_on, roll_back,
}
use vci.Scheduler.Reserved.{Reserves, claim_for, claimed, claimed-Holds, holds_slot, no_slot_left}
use vci.Scheduler.Slots.{slots}
use vci.Store.Disk.{ClaimFile, Disk}
use vci.Store.Record.{RunRecord, StoreError}

never_no_capacity :
    (publish : Text → Disk → Disk × Result StoreError (Unit {0})) (d : Disk) (machine run_id : Text)
    (now : ℕ)
    → (claim_and_publish d machine run_id now publish).1 ≢ err no_capacity
unfolding claim_and_publish roll_back write_claim
never_no_capacity publish d machine run_id now h = ground arith

enumerate_claims_never_full :
    (clock : ℕ) (fs : List ClaimFile) → enumerate_claims clock fs ≢ err no_capacity
unfolding enumerate_claims
enumerate_claims_never_full clock [] h = ground arith
enumerate_claims_never_full clock (f ∷ fs) h =
    ground (arith, h, enumerate_claims_never_full clock fs)

module _ (loader : Disk → Text → Result StoreError RunRecord) where
  reap_each_never_full :
      (d : Disk) (n : ℕ) (cs : List Reservation) → (reap_each loader d n cs).2 ≢ err no_capacity
  unfolding reap_each drop_claim
  reap_each_never_full d n [] h = ground arith
  reap_each_never_full d n (c ∷ cs) h = ground (
    arith,
    h,
    reap_each_never_full d n cs,
    reap_each_never_full (drop_claim d c.machine c.run_id).0 (n + 1) cs,
  )

  reap_claims_never_full : (clock : ℕ) (d : Disk) → (reap_claims loader clock d).2 ≢ err no_capacity
  unfolding reap_claims
  reap_claims_never_full clock d h = elim (Result-cases (enumerate_claims clock d.claims)) [
    | inl (cs, e) ↦ ground (arith, h, e, reap_each_never_full d 0 cs)
    | inr (x, e) ↦ ground (arith, h, e, enumerate_claims_never_full clock d.claims)
  ]

  reap_and_count_never_full :
      (clock : ℕ) (d : Disk) → (reap_and_count loader clock d).1 ≢ err no_capacity
  unfolding reap_and_count
  reap_and_count_never_full clock d h = ground (
    arith,
    h,
    reap_claims_never_full clock d,
    enumerate_claims_never_full clock (reap_claims loader clock d).0.claims,
  )

-- If `ReserveAndPublish` answers `ErrNoCapacity`, every candidate of the inventory holds as many
-- claims as it has slots, after the claims of finished runs were reaped.
pub no_capacity_lem :
    (publish : Text → Disk → Disk × Result StoreError (Unit {0}))
    (loader : Disk → Text → Result StoreError RunRecord) (clock : ℕ) (d : Disk) (cfg : Config)
    (run_id : Text) (candidates : List Text) (now : ℕ) (c : Text) (x : Machine)
    → (reserve_and_publish loader clock d cfg run_id candidates now publish).1 ≡ err no_capacity
    → mem_text c candidates ≡ true
    → lookup c cfg.machines ≡ some x
    → effective_capacity x
      ≤ slots c (reserve_and_publish loader clock d cfg run_id candidates now publish).0.claims
unfolding reserve_and_publish validate_run_and_candidates
no_capacity_lem publish loader clock d cfg run_id candidates now c x h k l =
    let d' = (reap_and_count loader clock d).0 in
    elim (Result-cases (validate_run_and_candidates cfg run_id candidates)) [
      | inr (y, a) ↦ absurd (ground (arith, h, a))
      | inl (y, a) ↦ elim (Bool-cases (ltb (clock + minute) now)) [
        | inl late ↦ absurd (ground (arith, h, a, late))
        | inr fine ↦ elim (Result-cases (reap_and_count loader clock d).1) [
          | inr (e, bad) ↦ absurd (
              reap_and_count_never_full loader clock d
                (ground (arith, bad, rw (a, fine, bad, reserve_and_publish) at h)))
          | inl (cs, good) ↦
              elim (Option-cases (choose_slot (λ m. count_active m cs) cfg candidates)) [
                | inl full ↦
                    rw (a, fine, good, full, reserve_and_publish)
                      (omega (
                        arith,
                        choose_slot-none (λ m. count_active m cs) cfg candidates full c x k l,
                        reap_and_count-slots loader clock d cs good c,
                      ))
                | inr (s, chosen) ↦ absurd (
                    never_no_capacity publish d' s.name run_id now
                      (rw (a, fine, good, chosen, reserve_and_publish) at h))
              ]
        ]
      ]
    ]

unless_not : {A : Type 0} (b : Bool) (x y : A) → b ≡ true → (if not b then x else y) ≡ y
unless_not b x y h = ground (arith, h)

write_claim-claimed :
    (d : Disk) (machine run_id : Text) (now : ℕ)
    → d.healthy ≡ true
    → write_claim d machine (claim_for machine run_id now) ≡ (claimed d machine run_id now, ok tt)
unfolding write_claim
write_claim-claimed d machine run_id now up = unless_not d.healthy _ _ up

reserve_on-Reserves :
    (loader : Disk → Text → Result StoreError RunRecord) (clock : ℕ) (d : Disk)
    (machine run_id : Text) (now : ℕ) (x : Machine) (cs : List Reservation)
    → valid_name machine ≡ true
    → valid_run_id run_id ≡ true
    → (now == 0) ≡ false
    → ltb (clock + minute) now ≡ false
    → (reap_and_count loader clock d).1 ≡ ok cs
    → (reap_and_count loader clock d).0.healthy ≡ true
    → Reserves clock
        (effective_capacity x)
        machine
        run_id
        now
        (reap_and_count loader clock d).0
        (reserve_on loader clock d x machine run_id now)
unfolding reserve_on
reserve_on-Reserves loader clock d machine run_id now x cs v w n early good up =
    let d' = (reap_and_count loader clock d).0 in
    let same = reap_and_count-slots loader clock d cs good machine in
    elim (Bool-cases (leb (effective_capacity x) (count_active machine cs))) [
      | inl no_slot ↦ rw (good, no_slot, reserve_on) (no_slot_left (ground (arith, no_slot, same)))
      | inr a_slot ↦
          let free : slots machine d'.claims < effective_capacity x =
            ground (arith, a_slot, same) in
          rw (good, a_slot, reserve_on, write_claim-claimed d' machine run_id now up)
            (holds_slot (claimed d' machine run_id now) free
              (claimed-Holds clock (effective_capacity x) machine run_id now v w n early d' free))
    ]

-- For valid names and a time that is neither zero nor in the future, where the claims can be read and
-- files can be written, `Reserve` has one of two outcomes. After the reap the machine has as many claims
-- as slots: then the answer is `ErrNoCapacity` and nothing more changes. Or it has fewer: then `Reserve`
-- succeeds, the reservation of the run is read back with its time, the machine is within its slots and
-- has one claim more, unless the run had one there before, and neither the number of another machine's
-- claims nor any run changes.
pub reserve_lem :
    (loader : Disk → Text → Result StoreError RunRecord) (clock : ℕ) (d : Disk) (cfg : Config)
    (machine run_id : Text) (now : ℕ) (x : Machine) (cs : List Reservation)
    → valid_name machine ≡ true
    → valid_run_id run_id ≡ true
    → lookup machine cfg.machines ≡ some x
    → (now == 0) ≡ false
    → ltb (clock + minute) now ≡ false
    → (reap_and_count loader clock d).1 ≡ ok cs
    → (reap_and_count loader clock d).0.healthy ≡ true
    → Reserves clock
        (effective_capacity x)
        machine
        run_id
        now
        (reap_and_count loader clock d).0
        (reserve loader clock d cfg machine run_id now)
unfolding reserve
reserve_lem loader clock d cfg machine run_id now x cs v w known n early good up =
    rw (v, w, known, early, reserve)
      (reserve_on-Reserves loader clock d machine run_id now x cs v w n early good up)
