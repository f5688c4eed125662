-- ===== src/Scheduler/Reserved.antt =====
-- internal/scheduler/scheduler.go, `Reserve`: the claim that it writes.
use vci.Base.{
  ℕ, suc, ◌+◌, ◌≤◌, ◌<◌, ◌≡◌, refl, ap, ◌∙◌, ◌≢◌, inl, inr, true, false, none, some, List, [], ◌∷◌,
  ◌++◌, arith, ltb, ◌==◌, if◌then◌else◌, Bool-cases, length, length-append, Result, ok, err, Text,
  codes, text_eq, text_eq_sound, text_eq_refl, text_eq_iff,
}
use vci.Model.Names.{valid_name, valid_run_id}
use vci.Scheduler.Claims.{
  SchedulerError, check_claim, claim_schema_version, claimed_run, dot_json, find_claim, is_claim_of,
  minute, no_capacity, remove_claim, strip_json, validate_claim_file,
}
use vci.Scheduler.Files.{claim_file, reservation_for}
use vci.Scheduler.Slots.{slots, slots-remove_claim-le}
use vci.Store.Disk.{Claim, ClaimFile, Disk}

longer_than_json : (id : Text) → text_eq (id ++ dot_json) (codes "json") ≡ false
longer_than_json id = elim (Bool-cases (text_eq (id ++ dot_json) (codes "json"))) [
  | inl same ↦ absurd (omega (arith, ap length (text_eq_sound _ _ same), length-append id dot_json))
  | inr differs ↦ differs
]

strip_json-append : (id : Text) → strip_json (id ++ dot_json) ≡ some id
unfolding strip_json text_eq
strip_json-append [] = refl
strip_json-append (c ∷ id) = ground (arith, longer_than_json id, strip_json-append id)

find_claim-snoc :
    (machine id : Text) (fs : List ClaimFile) (f : ClaimFile)
    → is_claim_of machine id f ≡ true
    → find_claim machine id (remove_claim machine id fs ++ f ∷ []) ≡ some f
unfolding find_claim remove_claim
find_claim-snoc machine id [] f h = ground (arith, h)
find_claim-snoc machine id (g ∷ fs) f h = ground (arith, h, find_claim-snoc machine id fs f h)

remove_claim-none :
    (machine id : Text) (fs : List ClaimFile)
    → find_claim machine id fs ≡ none
    → remove_claim machine id fs ≡ fs
unfolding find_claim remove_claim
remove_claim-none machine id [] h = refl
remove_claim-none machine id (g ∷ fs) h = ground (arith, h, remove_claim-none machine id fs)

slots-snoc :
    (m : Text) (fs : List ClaimFile) (f : ClaimFile)
    → slots m (fs ++ f ∷ []) ≡ slots m fs + slots m (f ∷ [])
unfolding slots
slots-snoc m [] f = ground arith
slots-snoc m (x ∷ fs) f = ground (arith, slots-snoc m fs f)

slots-remove_claim_other :
    (m machine id : Text) (fs : List ClaimFile)
    → text_eq machine m ≡ false
    → slots m (remove_claim machine id fs) ≡ slots m fs
unfolding slots remove_claim
slots-remove_claim_other m machine id [] h = refl
slots-remove_claim_other m machine id (f ∷ fs) h = ground (
  arith,
  h,
  text_eq_iff f.machine machine,
  text_eq_iff f.machine m,
  text_eq_iff machine m,
  slots-remove_claim_other m machine id fs h,
)

-- The claim that a reservation writes.
abbrev pub claim_for : Text → Text → ℕ → Claim
claim_for machine run_id now = record {
  schema_version = claim_schema_version;
  machine = machine;
  run_id = run_id;
  created_at = now;
}

is_claim_of-claim_file :
    (machine run_id : Text) (now : ℕ)
    → is_claim_of machine run_id (claim_file machine (claim_for machine run_id now)) ≡ true
is_claim_of-claim_file machine run_id now =
    rw (text_eq_refl machine, text_eq_refl (run_id ++ dot_json)) refl

slots-claim_file :
    (machine run_id m : Text) (now : ℕ)
    → valid_name machine ≡ true
    → valid_run_id run_id ≡ true
    → slots m (claim_file machine (claim_for machine run_id now) ∷ [])
      ≡ (if text_eq machine m then 1 else 0)
unfolding slots claimed_run
slots-claim_file machine run_id m now v w = ground (arith, v, w, strip_json-append run_id)

validate-claim_file :
    (clock : ℕ) (machine run_id : Text) (now : ℕ)
    → valid_name machine ≡ true
    → valid_run_id run_id ≡ true
    → (now == 0) ≡ false
    → ltb (clock + minute) now ≡ false
    → validate_claim_file clock (claim_file machine (claim_for machine run_id now)) machine run_id
      ≡ ok (record { machine = machine; run_id = run_id; created_at = now })
unfolding validate_claim_file check_claim
validate-claim_file clock machine run_id now v w n early =
    rw (v, w, n, early, text_eq_refl machine, text_eq_refl run_id) refl

-- What a successful reservation of a slot leaves: the claim can be read back, its machine is within its
-- slots and has one claim more, if the run had none there, no other machine's number changes, and no run
-- changes.
pub record Holds (clock cap : ℕ) (machine run_id : Text) (now : ℕ) (d d' : Disk) : Type 0 where
  pub readable :
      reservation_for clock d' machine run_id
      ≡ ok (record { machine = machine; run_id = run_id; created_at = now })
  pub within : slots machine d'.claims ≤ cap
  pub one_more :
      find_claim machine run_id d.claims ≡ none
      → slots machine d'.claims ≡ suc (slots machine d.claims)
  pub others : (m : Text) → m ≢ machine → slots m d'.claims ≡ slots m d.claims
  pub runs : d'.runs ≡ d.runs

-- The outcome of `Reserve`, of the disk after the reap: no slot is free and nothing changes, or the claim
-- is there.
pub data Reserves (clock cap : ℕ) (machine run_id : Text) (now : ℕ) (d : Disk)
    : Disk × Result SchedulerError (Unit {0}) → Type 0 where
  no_slot_left :
      cap ≤ slots machine d.claims → Reserves clock cap machine run_id now d (d, err no_capacity)
  holds_slot :
      (d' : Disk)
      → slots machine d.claims < cap
      → Holds clock cap machine run_id now d d'
      → Reserves clock cap machine run_id now d (d', ok tt)

abbrev pub claimed : Disk → Text → Text → ℕ → Disk
claimed d machine run_id now = record d {
  claims =
      remove_claim machine run_id d.claims
      ++ claim_file machine (claim_for machine run_id now) ∷ [];
}

module _ (clock cap : ℕ) (machine run_id : Text) (now : ℕ) (v : valid_name machine ≡ true)
    (w : valid_run_id run_id ≡ true) (n : (now == 0) ≡ false)
    (early : ltb (clock + minute) now ≡ false) (d : Disk) where
  claimed-readable :
      reservation_for clock (claimed d machine run_id now) machine run_id
      ≡ ok (record { machine = machine; run_id = run_id; created_at = now })
  unfolding reservation_for
  claimed-readable =
      let f = claim_file machine (claim_for machine run_id now) in
      let there : find_claim machine run_id (claimed d machine run_id now).claims ≡ some f =
        find_claim-snoc machine run_id d.claims f (is_claim_of-claim_file machine run_id now) in
      rw (v, w, there, validate-claim_file clock machine run_id now v w n early) refl

  claimed-slots :
      (m : Text)
      → slots m (claimed d machine run_id now).claims
        ≡ slots m (remove_claim machine run_id d.claims) + (if text_eq machine m then 1 else 0)
  claimed-slots m =
      slots-snoc m (remove_claim machine run_id d.claims) _
      ∙ ap (λ k. slots m (remove_claim machine run_id d.claims) + k)
          (slots-claim_file machine run_id m now v w)

  pub claimed-Holds :
      slots machine d.claims < cap
      → Holds clock cap machine run_id now d (claimed d machine run_id now)
  claimed-Holds free = record {
    readable = claimed-readable;
    within = ground (
      arith,
      claimed-slots machine,
      text_eq_refl machine,
      slots-remove_claim-le machine machine run_id d.claims,
      free,
    );
    one_more = λ h. ground (
      arith,
      claimed-slots machine,
      text_eq_refl machine,
      ap (slots machine) (remove_claim-none machine run_id d.claims h),
    );
    others = λ m ne. ground (
      arith,
      claimed-slots m,
      text_eq_iff machine m,
      slots-remove_claim_other m machine run_id d.claims,
      ne,
    );
    runs = refl;
  }
