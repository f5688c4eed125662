-- ===== src/Examples/OfConfig.antt =====
-- The theorems on the configuration at a concrete one, and tests of its checks.
use vci.Base.{
  ◌≡◌, refl, true, false, [], ◌∷◌, ok, err, codes, text_eq, has_prefix, lookup, mem_text,
}
use vci.Config.Hosted.{
  after, before_last_at, decimal, parse_url, password, span, validate_hosted_url,
}
use vci.Config.Runtime.{
  allowed_runtime_image, is_digest, skip_registry, skip_segments, skip_tag,
  validate_machine_runtime,
}
use vci.Config.Strings.{
  contains, glob_end, glob_step, has_char, has_parent_segment, is_blank, is_control, is_digit,
  is_space, lower, split_path, to_lower, trim_left, trim_right, trim_space, valid_glob,
}
use vci.Config.Types.{Config, Project}
use vci.Config.Validate.{
  check_machine, check_override, check_project, check_targets, validate_coordinator,
}
use vci.Config.Validated.{validated_targets_admitted}
use vci.Config.Validation.{
  valid_env_key, validate_artifact_glob, validate_excluded_path, validate_excluded_paths,
  validate_machine_host, validate_machine_os, validate_project_artifacts,
  validate_project_environment,
}
use vci.Examples.Fixtures.{mac, one_machine, one_slot, run_1}
use vci.Model.Names.{is_alnum, is_name_char, name_chars, valid_name, valid_run_id}
use vci.Scheduler.Choose.{validate_run_and_candidates}

abbrev go_project : Project
go_project = record {
  machines = mac ∷ [];
  command = codes "make" ∷ [];
  commands = (mac, codes "make" ∷ codes "test" ∷ []) ∷ [];
  environment = (codes "GOFLAGS", []) ∷ [];
  artifacts = codes "out/*.log" ∷ [];
  excluded_paths = codes "build[0-9]" ∷ [];
  hosted_fallback = record { url = []; commit = [] };
}

abbrev go_config : Config
go_config = record one_machine {
  machines = (mac, record one_slot { runtime = [] }) ∷ [];
  projects = (codes "go", go_project) ∷ [];
}

go_config_valid : validate_coordinator go_config ≡ ok tt
unfolding validate_coordinator check_machine check_project check_targets check_override valid_name
    is_alnum is_name_char validate_machine_host validate_machine_os validate_machine_runtime lookup
    mem_text text_eq trim_space trim_left trim_right lower is_space valid_env_key is_digit
    validate_project_environment validate_project_artifacts validate_artifact_glob is_blank
    has_prefix contains has_parent_segment split_path valid_glob glob_end glob_step
    validate_excluded_paths validate_excluded_path is_control
go_config_valid = refl

validated_targets_admitted_example : validate_run_and_candidates go_config run_1 (mac ∷ []) ≡ ok tt
unfolding lookup text_eq valid_run_id name_chars is_name_char
validated_targets_admitted_example =
    validated_targets_admitted go_config (codes "go") go_project run_1 go_config_valid refl refl

-- Bad patterns of `path.Match`: an open class, an empty class, a trailing escape.
bad_globs :
    (valid_glob (codes "a[b") ≡ false)
    × (valid_glob (codes "[]a]") ≡ false)
    × (valid_glob (codes "[a-]") ≡ false)
    × (valid_glob (codes "[^]") ≡ false)
    × (valid_glob (codes "[\\]a-z]*?") ≡ true)
unfolding valid_glob glob_end glob_step
bad_globs = (refl, refl, refl, refl, refl)

-- The scheme and the host of a URL are normalised, and the user is kept.
hosted_url_test :
    validate_hosted_url (codes "ssh://Git@Example.ORG:22/a/B.git")
    ≡ ok (codes "ssh://Git@example.org:22/a/B.git")
unfolding validate_hosted_url is_blank has_prefix contains has_char after before_last_at parse_url
    span is_name_char is_digit lower to_lower decimal text_eq
hosted_url_test = refl

-- An `@` in the path of a URL with a port is taken for the end of a userinfo with a password.
at_in_path_test : validate_hosted_url (codes "ssh://example.org:22/a@b") ≡ err password
unfolding validate_hosted_url is_blank has_prefix contains has_char after before_last_at
at_in_path_test = refl

images_test :
    (allowed_runtime_image (codes "localhost:5000/team/go:1.22") ≡ true)
    × (allowed_runtime_image (codes "go:1.22/x") ≡ false)
    × (allowed_runtime_image (codes "team//go") ≡ false)
unfolding allowed_runtime_image skip_registry span skip_segments skip_tag is_digest is_name_char
    is_alnum is_digit has_prefix
images_test = (refl, refl, refl)
