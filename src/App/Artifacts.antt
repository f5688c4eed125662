-- ===== src/App/Artifacts.antt =====
-- internal/app/data.go: `CollectArtifacts` with its matching of patterns by segment, and
-- `validateArtifactRel`. `matches` stands for `path.Match`, with `none` for a bad pattern; the files of the
-- workspace come in the order of `filepath.WalkDir`, and copies succeed.
use vci.Base.{
  ℕ, ◌+◌, Bool, true, false, not, ◌||◌, Option, none, some, List, [], ◌∷◌, ◌++◌, ltb, ◌==◌,
  if◌then◌else◌, length, any, Result, ok, err, ◌>>◌, Text, codes, text_eq, has_prefix, is_empty,
}
use vci.Config.Strings.{dot_dot, split_path}
use vci.Model.Names.{valid_name}
use vci.Worker.Clean.{dot}

pub record WorkspaceFile : Type 0 where
  pub rel : Text
  pub size : ℕ
  pub is_regular : Bool

abbrev pub artifact_cap_bytes : ℕ
artifact_cap_bytes = 67108864

unfoldable pub is_excluded_artifact : Text → Bool
is_excluded_artifact rel =
    any (λ s. text_eq s (codes ".git") || text_eq s (codes ".vci")) (split_path rel)

-- The last pattern, on every segment that is left.
unfoldable pub match_rest : (Text → Text → Option Bool) → Text → List Text → Option Bool
match_rest matches g [] = some true
match_rest matches g (r ∷ rs) =
    let later = match_rest matches g rs in
    elim (matches g r) [ none ↦ none | some b ↦ if not b then some false else later ]

unfoldable pub match_front : (Text → Text → Option Bool) → List Text → List Text → Option Bool
unfolding match_rest
match_front matches [] rs = some true
match_front matches (g ∷ []) rs = match_rest matches g rs
match_front matches (g ∷ h ∷ gs) [] = some false
match_front matches (g ∷ h ∷ gs) (r ∷ rs) =
    let later = match_front matches (h ∷ gs) rs in
    elim (matches g r) [ none ↦ none | some b ↦ if not b then some false else later ]

unfoldable pub match_glob_segments : (Text → Text → Option Bool) → List Text → Text → Option Bool
unfolding match_front
match_glob_segments matches gs rel =
    if ltb (length (split_path rel)) (length gs)
    then some false
    else match_front matches gs (split_path rel)

abbrev found_too : Bool → WorkspaceFile → List WorkspaceFile → List WorkspaceFile
found_too true f fs = f ∷ fs
found_too false f fs = fs

unfoldable pub match_workspace_glob :
    (Text → Text → Option Bool) → Text → List WorkspaceFile → Option (List WorkspaceFile)
unfolding match_glob_segments
match_workspace_glob matches glob [] = some []
match_workspace_glob matches glob (f ∷ fs) =
    let later = match_workspace_glob matches glob fs in
    if is_excluded_artifact f.rel
    then later
    else elim (match_glob_segments matches (split_path glob) f.rel) [
      | none ↦ none
      | some b ↦ elim later [ none ↦ none | some ms ↦ some (found_too b f ms) ]
    ]

-- What was collected so far, in order; `complete` is false after a bad pattern.
pub record Collection : Type 0 where
  pub files : List WorkspaceFile
  pub used : ℕ
  pub truncated : Bool
  pub complete : Bool

unfoldable pub collect_file : Collection → WorkspaceFile → Collection
collect_file c f =
    if not f.is_regular
    then c
    else if ltb artifact_cap_bytes (c.used + f.size)
    then record c { truncated = true }
    else record c { files = c.files ++ f ∷ []; used = c.used + f.size }

unfoldable pub collect_files : Collection → List WorkspaceFile → Collection
unfolding collect_file
collect_files c [] = c
collect_files c (f ∷ fs) = collect_files (collect_file c f) fs

unfoldable pub collect_globs :
    (Text → Text → Option Bool) → List WorkspaceFile → Collection → List Text → Collection
collect_globs matches workspace c [] = c
collect_globs matches workspace c (g ∷ gs) = elim (match_workspace_glob matches g workspace) [
  | none ↦ record c { complete = false }
  | some ms ↦ collect_globs matches workspace (collect_files c ms) gs
]

abbrev pub empty_collection : Collection
empty_collection = record { files = []; used = 0; truncated = false; complete = true }

unfoldable pub collect_artifacts :
    (Text → Text → Option Bool) → List WorkspaceFile → List Text → Collection
collect_artifacts matches workspace globs = collect_globs matches workspace empty_collection globs

pub data ArtifactError : Type 0 where
  artifact_path_empty artifact_path_absolute artifact_path_flag artifact_dot_segment : ArtifactError
  artifact_space artifact_bad_name artifact_excluded : ArtifactError

abbrev is_space_in_name : ℕ → Bool
is_space_in_name c = c == 0 || c == 9 || c == 10 || c == 13 || c == 32

unfoldable pub check_artifact_segments : List Text → Result ArtifactError (Unit {0})
check_artifact_segments [] = ok tt
check_artifact_segments (s ∷ ss) =
    let later = check_artifact_segments ss in
    if is_empty s || text_eq s dot || text_eq s dot_dot
    then err artifact_dot_segment
    else if any is_space_in_name s
    then err artifact_space
    else if not (valid_name s)
    then err artifact_bad_name
    else later

unfoldable pub validate_artifact_rel : Text → Result ArtifactError (Unit {0})
unfolding check_artifact_segments is_excluded_artifact
validate_artifact_rel rel =
    if is_empty rel
    then err artifact_path_empty
    else if has_prefix (codes "/") rel || has_prefix (codes "\\") rel
    then err artifact_path_absolute
    else if has_prefix (codes "-") rel
    then err artifact_path_flag
    else check_artifact_segments (split_path rel)
      >> (if is_excluded_artifact rel then err artifact_excluded else ok tt)
