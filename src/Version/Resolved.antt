-- ===== src/Version/Resolved.antt =====
-- internal/version/version.go: the version that a binary reports is always a valid one.
use vci.Base.{
  ℕ, ◌≡◌, refl, sym, inl, inr, Bool, true, false, not, ◌&&◌, Option, none, some, List, [], ◌∷◌,
  ◌++◌, arith, ◌==◌, if◌then◌else◌, &&_parts, Bool-cases, any, all, Text, codes, is_empty,
}
use vci.Config.Strings.{cons_segment, is_digit, trim_space}
use vci.Model.Names.{is_alnum}
use vci.Version.Semver.{
  candidate_or, cut, is_core, is_identifier, is_identifier_char, normalize_version,
  optional_identifiers, resolved_version, split_dots, valid_version,
}

abbrev dev : Text
dev = codes "-dev"

-- `-dev` holds neither of the marks that end a part.
abbrev Free : ℕ → Text → Type 0
Free x s = any (λ c. c == x) s ≡ false

cut-Free : (x : ℕ) (s : Text) → Free x s → cut x s ≡ (s, none)
unfolding cut
cut-Free x [] h = refl
cut-Free x (c ∷ s) h = ground (arith, cut-Free x s)

abbrev append_to : Text → Text × Option Text → Text × Option Text
append_to t (before, none) = (before ++ t, none)
append_to t (before, some rest) = (before, some (rest ++ t))

append_to-cons :
    (c : ℕ) (t : Text) (p : Text × Option Text)
    → append_to t (c ∷ p.0, p.1) ≡ (c ∷ (append_to t p).0, (append_to t p).1)
append_to-cons c t (b, none) = refl
append_to-cons c t (b, some r) = refl

cut-append : (x : ℕ) (s t : Text) → Free x t → cut x (s ++ t) ≡ append_to t (cut x s)
unfolding cut
cut-append x [] t h = cut-Free x t h
cut-append x (c ∷ s) t h = elim (Bool-cases (c == x)) [
  | inl e ↦ rw e refl
  | inr e ↦ rw (e, cut-append x s t h) (sym (append_to-cons c t (cut x s)))
]

-- What a first mark in the appended text changes.
abbrev append_mark : ℕ → Text → Text × Option Text → Text × Option Text
append_mark x t (before, none) = (before, some t)
append_mark x t (before, some rest) = (before, some (rest ++ x ∷ t))

append_mark-cons :
    (c x : ℕ) (t : Text) (p : Text × Option Text)
    → append_mark x t (c ∷ p.0, p.1) ≡ (c ∷ (append_mark x t p).0, (append_mark x t p).1)
append_mark-cons c x t (b, none) = refl
append_mark-cons c x t (b, some r) = refl

cut-mark : (x : ℕ) (s t : Text) → cut x (s ++ x ∷ t) ≡ append_mark x t (cut x s)
unfolding cut
cut-mark x [] t = ground arith
cut-mark x (c ∷ s) t = elim (Bool-cases (c == x)) [
  | inl e ↦ rw e refl
  | inr e ↦ rw (e, cut-mark x s t) (sym (append_mark-cons c x t (cut x s)))
]

abbrev on_last : Text → List Text → List Text
on_last t [] = t ∷ []
on_last t (a ∷ []) = (a ++ t) ∷ []
on_last t (a ∷ b ∷ rest) = a ∷ on_last t (b ∷ rest)

split_dots-Free : (t : Text) → Free b'.' t → split_dots t ≡ t ∷ []
unfolding split_dots
split_dots-Free [] h = refl
split_dots-Free (c ∷ t) h = ground (arith, split_dots-Free t)

on_last-cons_segment :
    (c : ℕ) (t : Text) (ss : List Text)
    → cons_segment c (on_last t ss) ≡ on_last t (cons_segment c ss)
on_last-cons_segment c t [] = refl
on_last-cons_segment c t (a ∷ []) = refl
on_last-cons_segment c t (a ∷ b ∷ ss) = refl

on_last-split : (t s : Text) → on_last t ([] ∷ split_dots s) ≡ [] ∷ on_last t (split_dots s)
unfolding split_dots
on_last-split t [] = refl
on_last-split t (c ∷ s) = elim (Bool-cases (c == b'.')) [
  | inl e ↦ rw e refl
  | inr e ↦ rw e (by_cases (split_dots s))
]
  where
    by_cases :
        (ss : List Text) → on_last t ([] ∷ cons_segment c ss) ≡ [] ∷ on_last t (cons_segment c ss)
    by_cases [] = refl
    by_cases (a ∷ ss) = refl

split_dots-append : (s t : Text) → Free b'.' t → split_dots (s ++ t) ≡ on_last t (split_dots s)
unfolding split_dots
split_dots-append [] t h = split_dots-Free t h
split_dots-append (c ∷ s) t h = elim (Bool-cases (c == b'.')) [
  | inl e ↦ rw (e, split_dots-append s t h) (sym (on_last-split t s))
  | inr e ↦ rw (e, split_dots-append s t h) (on_last-cons_segment c t (split_dots s))
]

all-append : (p : ℕ → Bool) (s t : Text) → all p s ≡ true → all p t ≡ true → all p (s ++ t) ≡ true
all-append p [] t h k = k
all-append p (c ∷ s) t h k = ground (arith, all-append p s t)

is_empty-append : (s t : Text) → is_empty t ≡ false → is_empty (s ++ t) ≡ false
is_empty-append [] t h = h
is_empty-append (c ∷ s) t h = refl

none_valid : optional_identifiers none ≡ true
unfolding optional_identifiers
none_valid = refl

dev_identifiers :
    (all is_identifier_char dev ≡ true)
    × (is_identifier dev ≡ true)
    × (optional_identifiers (some (codes "dev")) ≡ true)
unfolding is_identifier_char is_alnum optional_identifiers
dev_identifiers = (refl, refl, refl)

is_identifier-dev : (s : Text) → is_identifier s ≡ true → is_identifier (s ++ dev) ≡ true
unfolding is_identifier
is_identifier-dev s h =
    let (a, b) = &&_parts (not (is_empty s)) (all is_identifier_char s) h in
    rw (is_empty-append s dev refl, all-append is_identifier_char s dev b dev_identifiers.0) refl

all-on_last :
    (ss : List Text) → all is_identifier ss ≡ true → all is_identifier (on_last dev ss) ≡ true
all-on_last [] h = rw (dev_identifiers.1) refl
all-on_last (a ∷ []) h = ground (arith, is_identifier-dev a)
all-on_last (a ∷ b ∷ ss) h = ground (arith, all-on_last (b ∷ ss))

optional_identifiers-dev :
    (s : Text)
    → optional_identifiers (some s) ≡ true
    → optional_identifiers (some (s ++ dev)) ≡ true
unfolding optional_identifiers
optional_identifiers-dev s h = rw (split_dots-append s dev refl) (all-on_last (split_dots s) h)

-- The three parts of a version.
abbrev is_release : Text × Option Text → Bool
is_release (core, pre) = is_core (split_dots core) && optional_identifiers pre

abbrev is_version : Text × Option Text → Bool
is_version (release, build) = is_release (cut b'-' release) && optional_identifiers build

is_release-mark :
    (p : Text × Option Text)
    → is_release p ≡ true
    → is_release (append_mark b'-' (codes "dev") p) ≡ true
is_release-mark (core, none) h =
    let (a, b) = &&_parts (is_core (split_dots core)) (optional_identifiers none) h in
    rw (a, dev_identifiers.2) refl
is_release-mark (core, some pre) h =
    let (a, b) = &&_parts (is_core (split_dots core)) (optional_identifiers (some pre)) h in
    rw (a, optional_identifiers-dev pre b) refl

is_version-dev :
    (p : Text × Option Text) → is_version p ≡ true → is_version (append_to dev p) ≡ true
is_version-dev (release, none) h =
    let (a, b) = &&_parts (is_release (cut b'-' release)) (optional_identifiers none) h in
    rw (cut-mark b'-' release (codes "dev"), is_release-mark (cut b'-' release) a) none_valid
is_version-dev (release, some build) h =
    let (a, b) = &&_parts (is_release (cut b'-' release)) (optional_identifiers (some build)) h in
    rw (a, optional_identifiers-dev build b) refl

valid_version-dev : (v : Text) → valid_version v ≡ true → valid_version (v ++ dev) ≡ true
unfolding valid_version
valid_version-dev v h = rw (cut-append b'+' v dev refl) (is_version-dev (cut b'+' v) h)

default_valid : valid_version (codes "0.0.0") ≡ true
unfolding valid_version cut is_core split_dots is_digit optional_identifiers
default_valid = refl

abbrev base_of_embedded : Text → Text
base_of_embedded v = if not (valid_version v) then codes "0.0.0" else v

base_valid : (v : Text) → valid_version (base_of_embedded v) ≡ true
base_valid v = elim (Bool-cases (valid_version v)) [ inl h ↦ rw h h | inr h ↦ rw h default_valid ]

candidate_or-valid :
    (main : Option Text) (fallback : Text)
    → valid_version fallback ≡ true
    → valid_version (candidate_or main fallback) ≡ true
unfolding candidate_or
candidate_or-valid none fallback h = h
candidate_or-valid (some v) fallback h = elim (Bool-cases (valid_version (normalize_version v))) [
  | inl e ↦ rw e e
  | inr e ↦ rw e h
]

-- Whatever the embedded version, the linker's and the module's version are, the version that the binary
-- reports is a valid one.
pub resolved_version-valid :
    (embedded release : Text) (main : Option Text)
    → valid_version (resolved_version embedded release main) ≡ true
unfolding resolved_version
resolved_version-valid embedded release main =
    let base = base_of_embedded (trim_space embedded) in
    candidate_or-valid (some release) (candidate_or main (base ++ dev)) (
      candidate_or-valid main (base ++ dev)
        (valid_version-dev base (base_valid (trim_space embedded))))
