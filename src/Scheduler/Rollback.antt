-- ===== src/Scheduler/Rollback.antt =====
-- internal/scheduler/scheduler.go, `ReserveAndPublish`: the claims after an attempt that fails.
use vci.Base.{
  ℕ, ◌+◌, ◌≤◌, ◌≡◌, refl, ◌∙◌, ◌≢◌, inl, inr, true, none, List, [], ◌∷◌, ◌++◌, arith, ltb,
  Bool-cases, Option-cases, Result, ok, err, Result-cases, Text, text_eq_refl,
}
use vci.Config.Types.{Config}
use vci.Scheduler.Capacity.{KeepsClaims, Shrinks, reap_and_count-Shrinks}
use vci.Scheduler.Choose.{choose_slot, validate_run_and_candidates}
use vci.Scheduler.Claims.{
  SchedulerError, claim_schema_version, count_active, dot_json, find_claim, is_claim_of, minute,
  remove_claim, rollback_failed,
}
use vci.Scheduler.Files.{claim_file, drop_claim, write_claim}
use vci.Scheduler.Operations.{claim_and_publish, reap_and_count, reserve_and_publish, roll_back}
use vci.Scheduler.Slots.{slots, slots-remove_claim-le}
use vci.Store.Disk.{Claim, ClaimFile, Disk}
use vci.Store.Record.{RunRecord, StoreError}

found-append :
    (machine id : Text) (fs : List ClaimFile) (f : ClaimFile)
    → is_claim_of machine id f ≡ true
    → find_claim machine id (fs ++ f ∷ []) ≢ none
unfolding find_claim
found-append machine id [] f h = ground arith
found-append machine id (x ∷ fs) f h = ground (arith, found-append machine id fs f h)

slots-remove_claim-append :
    (m machine id : Text) (fs : List ClaimFile) (f : ClaimFile)
    → is_claim_of machine id f ≡ true
    → slots m (remove_claim machine id (fs ++ f ∷ [])) ≤ slots m fs
unfolding slots remove_claim
slots-remove_claim-append m machine id [] f h = ground arith
slots-remove_claim-append m machine id (x ∷ fs) f h =
    ground (arith, slots-remove_claim-append m machine id fs f h)

claim_file-is_claim_of :
    (machine : Text) (c : Claim) → is_claim_of machine c.run_id (claim_file machine c) ≡ true
claim_file-is_claim_of machine c =
    ground (arith, text_eq_refl machine, text_eq_refl (c.run_id ++ dot_json))

-- A write that fails leaves the disk as it was.
write_claim_refused :
    (d : Disk) (machine : Text) (c : Claim) (e : SchedulerError)
    → (write_claim d machine c).1 ≡ err e
    → (write_claim d machine c).0 ≡ d
unfolding write_claim
write_claim_refused d machine c e h = ground (arith, h)

-- The claims after a write that succeeds.
write_claim_done :
    (d : Disk) (machine : Text) (c : Claim) (u : Unit {0})
    → (write_claim d machine c).1 ≡ ok u
    → (write_claim d machine c).0.claims
      ≡ remove_claim machine c.run_id d.claims ++ claim_file machine c ∷ []
unfolding write_claim
write_claim_done d machine c u h = ground (arith, h)

-- A removal that succeeds undoes the write of the claim.
drop_claim_undoes :
    (d : Disk) (machine : Text) (c : Claim) (fs : List ClaimFile) (u : Unit {0}) (m : Text)
    → d.claims ≡ fs ++ claim_file machine c ∷ []
    → (drop_claim d machine c.run_id).1 ≡ ok u
    → slots m (drop_claim d machine c.run_id).0.claims ≤ slots m fs
unfolding drop_claim
drop_claim_undoes d machine c fs u m e h = ground (
  arith,
  e,
  h,
  claim_file-is_claim_of machine c,
  found-append machine c.run_id fs (claim_file machine c),
  slots-remove_claim-append m machine c.run_id fs (claim_file machine c),
)

-- A rollback that answers anything but `rollback_failed` has undone the write.
roll_back_undoes :
    (d : Disk) (machine : Text) (c : Claim) (fs : List ClaimFile) (x : StoreError)
    → d.claims ≡ fs ++ claim_file machine c ∷ []
    → (roll_back d machine c.run_id x).1 ≢ err (rollback_failed x)
    → (m : Text) → slots m (roll_back d machine c.run_id x).0.claims ≤ slots m fs
unfolding roll_back
roll_back_undoes d machine c fs x e h m = elim (Result-cases (drop_claim d machine c.run_id).1) [
  | inl (u, good) ↦ drop_claim_undoes d machine c fs u m e good
  | inr (y, bad) ↦ absurd (h (rw (bad, roll_back) refl))
]

module _ (publish : Text → Disk → Disk × Result StoreError (Unit {0}))
    (keeps : KeepsClaims publish) where
  failed_claim-Shrinks :
      (d : Disk) (machine run_id : Text) (now : ℕ) (e : SchedulerError)
      → (claim_and_publish d machine run_id now publish).1 ≡ err e
      → ((x : StoreError) → e ≢ rollback_failed x)
      → Shrinks d (claim_and_publish d machine run_id now publish).0
  unfolding claim_and_publish
  failed_claim-Shrinks d machine run_id now e h clean m =
      let c : Claim = record {
        schema_version = claim_schema_version;
        machine = machine;
        run_id = run_id;
        created_at = now;
      } in
      let d' = (write_claim d machine c).0 in
      let d'' = (publish machine d').0 in
      elim (Result-cases (write_claim d machine c).1) [
        | inr (x, refused) ↦
            rw (refused, claim_and_publish)
              (rw (write_claim_refused d machine c x refused) (omega arith))
        | inl (x, done) ↦ elim (Result-cases (publish machine d').1) [
          | inl (y, fine) ↦ absurd (ground (arith, h, done, fine))
          | inr (y, bad) ↦
              rw (done, bad, claim_and_publish)
                (omega (
                  arith,
                  roll_back_undoes d'' machine c (remove_claim machine run_id d.claims) y
                      (keeps machine d' ∙ write_claim_done d machine c x done)
                      (λ q. clean y (ground (arith, h, done, bad, q))) m,
                  slots-remove_claim-le m machine run_id d.claims,
                ))
        ]
      ]

  -- If `ReserveAndPublish` fails, no machine has more claims than before: a publication that failed
  -- has its claim taken back. Excepted is the error that says that the rollback itself failed. The
  -- publication leaves the claims alone.
  pub failed_reservation-Shrinks :
      (loader : Disk → Text → Result StoreError RunRecord) (clock : ℕ) (d : Disk) (cfg : Config)
      (run_id : Text) (candidates : List Text) (now : ℕ) (e : SchedulerError)
      → (reserve_and_publish loader clock d cfg run_id candidates now publish).1 ≡ err e
      → ((x : StoreError) → e ≢ rollback_failed x)
      → Shrinks d (reserve_and_publish loader clock d cfg run_id candidates now publish).0
  unfolding reserve_and_publish
  failed_reservation-Shrinks loader clock d cfg run_id candidates now e h clean m =
      let d' = (reap_and_count loader clock d).0 in
      let less = reap_and_count-Shrinks loader clock d m in
      elim (Result-cases (validate_run_and_candidates cfg run_id candidates)) [
        | inr (x, a) ↦ rw (a, reserve_and_publish) (omega arith)
        | inl (x, a) ↦ elim (Bool-cases (ltb (clock + minute) now)) [
          | inl late ↦ rw (a, late, reserve_and_publish) (omega arith)
          | inr fine ↦ elim (Result-cases (reap_and_count loader clock d).1) [
            | inr (y, bad) ↦ rw (a, fine, bad, reserve_and_publish) less
            | inl (cs, good) ↦
                elim (Option-cases (choose_slot (λ k. count_active k cs) cfg candidates)) [
                  | inl full ↦ rw (a, fine, good, full, reserve_and_publish) less
                  | inr (s, chosen) ↦
                      rw (a, fine, good, chosen, reserve_and_publish)
                        (omega (
                          arith,
                          less,
                          failed_claim-Shrinks d' s.name run_id now e
                              (rw (a, fine, good, chosen, reserve_and_publish) at h) clean m,
                        ))
                ]
          ]
        ]
      ]
