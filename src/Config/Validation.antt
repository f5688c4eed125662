-- ===== src/Config/Validation.antt =====
-- internal/config/config.go: `Validate` and the checks that it makes. Go visits a map in any order; the
-- model visits it in the order of its list, so of several errors it may answer another one.
use vci.Base.{
  ℕ, Bool, false, not, ◌&&◌, ◌||◌, List, [], ◌∷◌, ltb, ◌==◌, if◌then◌else◌, any, all, Result, ok,
  err, ◌>>◌, Text, codes, text_eq, has_prefix, is_empty,
}
use vci.Config.Hosted.{HostedError}
use vci.Config.Runtime.{RuntimeError}
use vci.Config.Strings.{
  contains, dot_dot, has_parent_segment, is_blank, is_control, is_digit, is_space, lower,
  trim_space, valid_glob,
}
use vci.Model.Names.{is_alnum}

pub data ConfigError : Type 0 where
  bad_schema_version orchestrator_empty orchestrator_flag orchestrator_space : ConfigError
  bad_log_limits bad_retention bad_machine_name negative_concurrency : ConfigError
  host_flag host_space host_scheme host_parent bad_os : ConfigError
  bad_source_key unknown_project source_empty source_control negative_cache : ConfigError
  bad_project_name no_machines no_command bad_env_key : ConfigError
  artifact_empty artifact_blank artifact_flag artifact_scheme artifact_absolute : ConfigError
  artifact_parent artifact_pattern : ConfigError
  excluded_empty excluded_reserved excluded_absolute excluded_parent : ConfigError
  excluded_control excluded_pattern : ConfigError
  bad_target repeated_target missing_target : ConfigError
  detached_command empty_command : ConfigError
  client_machines client_projects client_retention client_log_limits : ConfigError
  bad_runtime : RuntimeError → ConfigError
  bad_hosted : HostedError → ConfigError

abbrev pub Check : Type 0
Check = Result ConfigError (Unit {0})

-- A loop that stops at the first error.
abbrev pub each : {A : Type 0} → (A → Check) → List A → Check
each check [] = ok tt
each check (x ∷ xs) = check x >> each check xs

abbrev pub reject : Bool → ConfigError → Check
reject b e = if b then err e else ok tt

abbrev is_space_or_control : ℕ → Bool
is_space_or_control c = is_space c || ltb c 32 || c == 127

unfoldable pub validate_machine_host : Text → Check
validate_machine_host host =
    if is_empty host
    then ok tt
    else if has_prefix (codes "-") host
    then err host_flag
    else if any is_space_or_control host
    then err host_space
    else if contains host (codes "://")
    then err host_scheme
    else reject (has_parent_segment host) host_parent

unfoldable pub validate_machine_os : Text → Check
validate_machine_os os =
    let s = lower (trim_space os) in
    reject
      (not (
        is_empty s
        || text_eq s (codes "windows")
        || text_eq s (codes "linux")
        || text_eq s (codes "darwin")))
      bad_os

unfoldable pub validate_orchestrator : Text → Check
validate_orchestrator value =
    if is_empty value
    then err orchestrator_empty
    else if has_prefix (codes "-") value
    then err orchestrator_flag
    else reject (any is_space_or_control value) orchestrator_space

unfoldable pub validate_source_path : Text → Check
validate_source_path value =
    if is_empty value then err source_empty else reject (any is_control value) source_control

unfoldable pub validate_excluded_path : Text → Check
validate_excluded_path g =
    if is_empty g
    then err excluded_empty
    else if text_eq g (codes ".git") || text_eq g (codes ".vci")
    then err excluded_reserved
    else if has_prefix (codes "/") g
    then err excluded_absolute
    else if contains g dot_dot
    then err excluded_parent
    else if any is_control g
    then err excluded_control
    else reject (not (valid_glob g)) excluded_pattern

unfoldable pub validate_excluded_paths : List Text → Check
validate_excluded_paths globs = each validate_excluded_path globs

-- `^[A-Za-z_][A-Za-z0-9_]*$`
unfoldable pub valid_env_key : Text → Bool
valid_env_key [] = false
valid_env_key (c ∷ cs) =
    (is_alnum c && not (is_digit c) || c == b'_') && all (λ d. is_alnum d || d == b'_') cs

unfoldable pub validate_project_environment : List (Text × Text) → Check
validate_project_environment env =
    each (λ (key, value). reject (not (valid_env_key key)) bad_env_key) env

unfoldable pub validate_artifact_glob : Text → Check
validate_artifact_glob glob =
    if is_empty glob
    then err artifact_empty
    else if any is_blank glob
    then err artifact_blank
    else if has_prefix (codes "-") glob
    then err artifact_flag
    else if contains glob (codes "://")
    then err artifact_scheme
    else if has_prefix (codes "/") glob
    then err artifact_absolute
    else if has_parent_segment glob
    then err artifact_parent
    else reject (not (valid_glob glob)) artifact_pattern

unfoldable pub validate_project_artifacts : List Text → Check
validate_project_artifacts globs = each validate_artifact_glob globs
