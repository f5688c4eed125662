-- ===== src/Version/Semver.antt =====
-- internal/version/version.go: `semverPattern`, `Valid`, `normalize`, `resolvedVersion`, `resolvedSetting`.
use vci.Base.{
  ℕ, Bool, true, false, not, ◌&&◌, ◌||◌, Option, none, some, List, [], ◌∷◌, ◌++◌, ◌==◌,
  if◌then◌else◌, drop, all, Text, codes, text_eq, has_prefix, is_empty,
}
use vci.Config.Defaults.{override}
use vci.Config.Hosted.{after}
use vci.Config.Strings.{cons_segment, is_digit, trim_space}
use vci.Host.Windows.{settings}
use vci.Model.Names.{is_alnum}

-- The text before the first `x`, and the text after it where there is one.
unfoldable pub cut : ℕ → Text → Text × Option Text
cut x [] = ([], none)
cut x (c ∷ cs) =
    let (before, after) = cut x cs in if c == x then ([], some cs) else (c ∷ before, after)

-- The parts between the dots.
unfoldable pub split_dots : Text → List Text
split_dots [] = [] ∷ []
split_dots (c ∷ cs) =
    let rest = split_dots cs in if c == b'.' then [] ∷ rest else cons_segment c rest

-- `0|[1-9][0-9]*`
unfoldable pub is_number : Text → Bool
is_number [] = false
is_number (c ∷ cs) = if c == b'0' then is_empty cs else is_digit c && all is_digit cs

-- `[0-9A-Za-z-]`
unfoldable pub is_identifier_char : ℕ → Bool
is_identifier_char c = is_alnum c || c == b'-'

unfoldable pub is_identifier : Text → Bool
is_identifier s = not (is_empty s) && all is_identifier_char s

-- Three numbers with dots between them.
unfoldable pub is_core : List Text → Bool
unfolding is_number
is_core (a ∷ b ∷ c ∷ []) = is_number a && is_number b && is_number c
is_core _ = false

-- An optional list of identifiers.
unfoldable pub optional_identifiers : Option Text → Bool
unfolding is_identifier split_dots
optional_identifiers none = true
optional_identifiers (some s) = all is_identifier (split_dots s)

-- The pattern: the first `+` begins the build metadata, and before it the first `-` the pre-release.
unfoldable pub valid_version : Text → Bool
valid_version v =
    let (release, build) = cut b'+' v in
    let (core, pre) = cut b'-' release in
    (is_core (split_dots core) && optional_identifiers pre) && optional_identifiers build

unfoldable pub trim_v : Text → Text
trim_v s = if has_prefix (codes "v") s then drop 1 s else s

unfoldable pub normalize_version : Text → Text
unfolding trim_v
normalize_version value = trim_v (trim_space value)

-- The version of the main module of the build information, where there is one.
unfoldable pub candidate_or : Option Text → Text → Text
candidate_or none fallback = fallback
candidate_or (some v) fallback =
    if valid_version (normalize_version v) then normalize_version v else fallback

unfoldable pub resolved_version : Text → Text → Option Text → Text
unfolding candidate_or
resolved_version embedded release main =
    let base =
      if not (valid_version (trim_space embedded)) then codes "0.0.0" else trim_space embedded in
    candidate_or (some release) (candidate_or main (base ++ codes "-dev"))

-- The first setting with the key that is not blank and not `unknown`.
unfoldable pub find_setting : Text → List (Text × Text) → Text
find_setting key [] = codes "unknown"
find_setting key ((k, v) ∷ rest) =
    let later = find_setting key rest in
    if text_eq k key && not (is_empty (trim_space v)) && not (text_eq v (codes "unknown"))
    then trim_space v
    else later

unfoldable pub resolved_setting : Option (List (Text × Text)) → Text → Text → Text
unfolding find_setting
resolved_setting info key override =
    if not (is_empty (trim_space override))
    then trim_space override
    else elim info [ none ↦ codes "unknown" | some settings ↦ find_setting key settings ]
