-- ===== src/Examples/OfSource.antt =====
-- Versions and build inputs at concrete values, and tests of their checks.
use vci.Base.{
  ◌≤◌, ◌≡◌, refl, inl, inr, Bool, true, false, ◌||◌, Option, none, some, List, [], ◌∷◌, In, Ordered,
  ok, err, Text, codes, text_eq, text_lt, has_prefix, mem_text,
}
use vci.App.Artifacts.{
  WorkspaceFile, artifact_bad_name, artifact_cap_bytes, collect_artifacts, collect_files,
  collect_globs, is_excluded_artifact, match_workspace_glob, validate_artifact_rel,
}
use vci.App.Collected.{collect_artifacts-capped, collect_artifacts_lem, total}
use vci.Config.Strings.{
  contains, has_char, is_digit, is_space, split_path, trim_left, trim_right, trim_space,
}
use vci.Model.Names.{is_alnum, is_name_char, valid_name}
use vci.Source.Accepted.{validate_input_lem}
use vci.Source.Input.{
  SourceInput, check_collisions, clean_entries, clean_repositories, validate_input,
}
use vci.Source.Order.{Before}
use vci.Source.Select.{
  canonical_entry, check_clean, check_raw, is_strict_ancestor, match_project, relative_segment,
}
use vci.Version.Resolved.{resolved_version-valid}
use vci.Version.Semver.{
  cut, is_core, is_identifier_char, normalize_version, optional_identifiers, resolved_version,
  split_dots, valid_version,
}
use vci.Worker.Clean.{clean, clean_push, is_abs, join_path, join_segments}

resolved_version-valid_example :
    valid_version (resolved_version (codes "1.2.0+b7\n") (codes "v1.02") (some (codes "(devel)")))
    ≡ true
resolved_version-valid_example =
    resolved_version-valid (codes "1.2.0+b7\n") (codes "v1.02") (some (codes "(devel)"))

-- A leading zero and an empty identifier are refused; the fallback carries the metadata.
versions :
    (valid_version (codes "1.02.0") ≡ false)
    × (valid_version (codes "1.2.0-a..b") ≡ false)
    × (valid_version (codes "1.2.0-rc.1+x-y") ≡ true)
    × (resolved_version (codes "1.2.0+b7\n") (codes "v1.02") none ≡ codes "1.2.0+b7-dev")
unfolding valid_version cut is_core split_dots is_digit optional_identifiers is_identifier_char
    is_alnum resolved_version normalize_version trim_space trim_left trim_right is_space has_prefix
versions = (refl, refl, refl, refl)

abbrev two_files : SourceInput
two_files = record {
  root = codes "/w";
  project_name = codes "go";
  files = codes "b" ∷ codes "./a" ∷ codes "b" ∷ [];
  repositories = [];
  lfs_files = [];
}

abbrev no_file : Text → Option Bool
no_file p = none

abbrev sorted_files : SourceInput
sorted_files = record two_files { files = codes "a" ∷ codes "b" ∷ [] }

validate_input_lem_example :
    Ordered Before sorted_files.files
    × ((c : Text) × (canonical_entry (codes "/w") (codes "./a") ≡ ok c) × In c sorted_files.files)
unfolding validate_input clean_entries check_collisions clean_repositories canonical_entry check_raw
    check_clean has_char is_abs has_prefix split_path clean clean_push join_segments text_eq
    contains join_path is_strict_ancestor text_lt mem_text
validate_input_lem_example =
    validate_input_lem no_file (codes "/w") two_files sorted_files (codes "./a") refl
      (inr (inl refl))

-- A traversal is refused before it is cleaned away.
traversal_refused : canonical_entry (codes "/w") (codes "a/../b") ≡ err relative_segment
unfolding canonical_entry check_raw has_char is_abs has_prefix split_path text_eq
traversal_refused = refl

-- The exact name wins over one that differs in case and stands before it.
exact_name_first : match_project (codes "vci") (codes "VCI" ∷ codes "vci" ∷ []) ≡ ok (codes "vci")
unfolding match_project text_eq
exact_name_first = refl

-- A pattern is a literal or `*` here.
abbrev star_or_same : Text → Text → Option Bool
star_or_same g s = some (text_eq g (codes "*") || text_eq g s)

abbrev log_file : WorkspaceFile
log_file = record { rel = codes "out/a.log"; size = 3; is_regular = true }

abbrev git_file : WorkspaceFile
git_file = record { rel = codes ".git/config"; size = 3; is_regular = true }

abbrev out_patterns : List Text
out_patterns = codes "out/*" ∷ codes "*" ∷ []

collect_artifacts-capped_example :
    total (collect_artifacts star_or_same (git_file ∷ log_file ∷ []) out_patterns).files
    ≤ artifact_cap_bytes
collect_artifacts-capped_example =
    collect_artifacts-capped star_or_same (git_file ∷ log_file ∷ []) out_patterns

collect_artifacts_lem_example :
    In log_file (collect_artifacts star_or_same (git_file ∷ log_file ∷ []) out_patterns).files
unfolding collect_artifacts collect_globs collect_files match_workspace_glob is_excluded_artifact
    split_path text_eq
collect_artifacts_lem_example =
    collect_artifacts_lem star_or_same (git_file ∷ log_file ∷ []) out_patterns (codes "out/*")
      (log_file ∷ []) log_file (refl, refl) (inl refl) refl (inl refl) refl

-- A file that two patterns find is collected twice and counts twice against the cap.
collected_twice :
    collect_artifacts star_or_same (log_file ∷ []) out_patterns
    ≡ record { files = log_file ∷ log_file ∷ []; used = 6; truncated = false; complete = true }
unfolding collect_artifacts collect_globs collect_files match_workspace_glob is_excluded_artifact
    split_path text_eq
collected_twice = refl

-- A name that is no valid name is collected, and cannot be asked for.
unreachable_artifact : validate_artifact_rel (codes "out/_a.log") ≡ err artifact_bad_name
unfolding validate_artifact_rel has_prefix split_path text_eq valid_name is_alnum is_name_char
unreachable_artifact = refl
