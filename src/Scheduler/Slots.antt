-- ===== src/Scheduler/Slots.antt =====
-- internal/scheduler/claims.go: the slots that the claim files take, as the operations count them.
use vci.Base.{
  ℕ, suc, ◌+◌, ◌≤◌, ◌≡◌, refl, inl, inr, Bool, true, false, ◌&&◌, Option, none, some, List, [], ◌∷◌,
  ◌++◌, arith, if◌then◌else◌, Option-cases, ok, Result-cases, Text, text_eq, text_eq_iff,
}
use vci.Scheduler.Claims.{
  Reservation, check_claim, claimed_run, count_active, enumerate_claims, remove_claim,
  validate_claim_file,
}
use vci.Scheduler.Files.{claim_file, drop_claim, write_claim}
use vci.Store.Disk.{
  Claim, ClaimContent, ClaimFile, Disk, FileKind, claim, directory, empty, garbled, regular,
  special, symlink,
}

-- Whether `enumerateClaims` counts the file.
abbrev is_counted : Option Text → Bool
is_counted none = false
is_counted (some run_id) = true

unfoldable pub slots : Text → List ClaimFile → ℕ
slots m [] = 0
slots m (f ∷ fs) =
    let rest = slots m fs in
    if text_eq f.machine m && is_counted (claimed_run f) then suc rest else rest

check_claim_names :
    (clock : ℕ) (c : Claim) (m id : Text) (r : Reservation)
    → check_claim clock c m id ≡ ok r
    → (r.machine ≡ m) × (r.run_id ≡ id)
unfolding check_claim
check_claim_names clock c m id r h =
    ground (arith, text_eq_iff c.machine m, text_eq_iff c.run_id id)

-- A claim file that validates reserves for its own machine and run.
pub validate_claim_file_names :
    (clock : ℕ) (f : ClaimFile) (m id : Text) (r : Reservation)
    → validate_claim_file clock f m id ≡ ok r
    → (r.machine ≡ m) × (r.run_id ≡ id)
unfolding validate_claim_file
validate_claim_file_names clock f m id r h = go f.kind f.content refl refl
  where
    go :
        (k : FileKind) (c : ClaimContent)
        → f.kind ≡ k
        → f.content ≡ c
        → (r.machine ≡ m) × (r.run_id ≡ id)
    go regular (claim c) e e' = check_claim_names clock c m id r (ground arith)
    go regular empty e e' = ground arith
    go regular garbled e e' = ground arith
    go symlink c e e' = ground arith
    go directory c e e' = ground arith
    go special c e e' = ground arith

-- The enumeration counts the slots.
pub count_active-slots :
    (clock : ℕ) (m : Text) (fs : List ClaimFile) (cs : List Reservation)
    → enumerate_claims clock fs ≡ ok cs
    → count_active m cs ≡ slots m fs
unfolding enumerate_claims count_active slots
count_active-slots clock m [] cs h = ground arith
count_active-slots clock m (f ∷ fs) cs h = elim (Option-cases (claimed_run f)) [
  | inl e ↦ ground (arith, count_active-slots clock m fs cs)
  | inr (id, e) ↦ elim (Result-cases (validate_claim_file clock f f.machine id)) [
    | inr (x, bad) ↦ ground arith
    | inl (r, good) ↦ elim (Result-cases (enumerate_claims clock fs)) [
      | inr (x, bad) ↦ ground arith
      | inl (rs, rest) ↦ ground (
        arith,
        validate_claim_file_names clock f f.machine id r good,
        count_active-slots clock m fs rs rest,
      )
    ]
  ]
]

pub slots-remove_claim-le :
    (m machine id : Text) (fs : List ClaimFile) → slots m (remove_claim machine id fs) ≤ slots m fs
unfolding slots remove_claim
slots-remove_claim-le m machine id [] = omega arith
slots-remove_claim-le m machine id (f ∷ fs) = ground (arith, slots-remove_claim-le m machine id fs)

abbrev one_if : Bool → ℕ
one_if true = 1
one_if false = 0

pub slots-append_le :
    (m : Text) (fs : List ClaimFile) (f : ClaimFile)
    → slots m (fs ++ f ∷ []) ≤ slots m fs + one_if (text_eq f.machine m)
unfolding slots
slots-append_le m [] f = ground arith
slots-append_le m (x ∷ fs) f = ground (arith, slots-append_le m fs f)

-- A write takes at most one slot more, on its own machine.
pub slots-write_claim-le :
    (d : Disk) (machine m : Text) (c : Claim)
    → slots m (write_claim d machine c).0.claims ≤ slots m d.claims + one_if (text_eq machine m)
unfolding write_claim
slots-write_claim-le d machine m c = ground (
  arith,
  slots-append_le m (remove_claim machine c.run_id d.claims) (claim_file machine c),
  slots-remove_claim-le m machine c.run_id d.claims,
)

pub slots-drop_claim-le :
    (d : Disk) (machine id m : Text) → slots m (drop_claim d machine id).0.claims ≤ slots m d.claims
unfolding drop_claim
slots-drop_claim-le d machine id m = ground (arith, slots-remove_claim-le m machine id d.claims)
