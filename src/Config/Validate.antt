-- ===== src/Config/Validate.antt =====
-- internal/config/config.go: `validateCoordinator`, `validateClient` and `Validate`.
use vci.Base.{
  Bool, true, false, not, ◌&&◌, ◌||◌, Option, none, some, List, [], ◌∷◌, ◌==◌, if◌then◌else◌, ℤ,
  pos, negsuc, is_positive, is_negative, Result, ok, err, ◌>>◌, Text, codes, text_eq, is_empty,
  lookup, mem_text,
}
use vci.Config.Defaults.{default_log_limits, default_retention}
use vci.Config.Hosted.{HostedError, validate_hosted}
use vci.Config.Runtime.{RuntimeError, validate_machine_runtime}
use vci.Config.Strings.{trim_space}
use vci.Config.Types.{Config, HostedFallback, Machine, Project}
use vci.Config.Validation.{
  Check, bad_hosted, bad_log_limits, bad_machine_name, bad_project_name, bad_retention, bad_runtime,
  bad_schema_version, bad_source_key, bad_target, client_log_limits, client_machines,
  client_projects, client_retention, detached_command, each, empty_command, missing_target,
  negative_cache, negative_concurrency, no_command, no_machines, reject, repeated_target,
  unknown_project, validate_excluded_paths, validate_machine_host, validate_machine_os,
  validate_orchestrator, validate_project_artifacts, validate_project_environment,
  validate_source_path,
}
use vci.Model.Names.{valid_name}

abbrev pub is_some : {A : Type 0} → Option A → Bool
is_some none = false
is_some (some a) = true

unfoldable pub check_source : Config → Text × Text → Check
check_source cfg (project, src) =
    if not (valid_name project)
    then err bad_source_key
    else if not (is_some (lookup project cfg.projects))
    then err unknown_project
    else validate_source_path src

abbrev of_runtime : Result RuntimeError (Unit {0}) → Check
of_runtime (ok _) = ok tt
of_runtime (err e) = err (bad_runtime e)

abbrev of_hosted : Result HostedError HostedFallback → Check
of_hosted (ok _) = ok tt
of_hosted (err e) = err (bad_hosted e)

-- The body of the loop over the machines.
unfoldable pub check_machine : Config → Text × Machine → Check
check_machine cfg (name, m) =
    reject (not (valid_name name)) bad_machine_name
    >> reject (is_negative m.max_concurrent) negative_concurrency
    >> validate_machine_host m.host
    >> validate_machine_os m.os
    >> of_runtime (validate_machine_runtime m)
    >> each (check_source cfg) m.source_paths
    >> reject
        (is_negative m.bundle_cache.max_entries
          || is_negative m.bundle_cache.max_bytes
          || is_negative m.bundle_cache.admission_bytes)
        negative_cache

abbrev pub no_command_in : List Text → Bool
no_command_in [] = true
no_command_in (c ∷ cs) = is_empty (trim_space c)

abbrev pub is_nil : {A : Type 0} → List A → Bool
is_nil [] = true
is_nil (x ∷ xs) = false

-- The loop over the targets; `seen` holds those that came before.
unfoldable pub check_targets : Config → List Text → List Text → Check
check_targets cfg seen [] = ok tt
check_targets cfg seen (m ∷ ms) =
    if not (valid_name m)
    then err bad_target
    else if mem_text m seen
    then err repeated_target
    else if not (is_some (lookup m cfg.machines))
    then err missing_target
    else check_targets cfg (m ∷ seen) ms

unfoldable pub check_override : List Text → Text × List Text → Check
check_override targets (machine, command) =
    if not (mem_text machine targets)
    then err detached_command
    else reject (no_command_in command) empty_command

-- The body of the loop over the projects.
unfoldable pub check_project : Config → Text × Project → Check
check_project cfg (name, p) =
    reject (not (valid_name name)) bad_project_name
    >> reject (is_nil p.machines) no_machines
    >> reject (no_command_in p.command) no_command
    >> validate_project_environment p.environment
    >> (if is_empty p.hosted_fallback.url && is_empty p.hosted_fallback.commit
        then ok tt
        else of_hosted (validate_hosted p.hosted_fallback))
    >> validate_project_artifacts p.artifacts
    >> validate_excluded_paths p.excluded_paths
    >> check_targets cfg [] p.machines
    >> each (check_override p.machines) p.commands

unfoldable pub validate_coordinator : Config → Check
validate_coordinator cfg =
    reject
      (not (is_positive cfg.log_limits.stdout_bytes)
        || not (is_positive cfg.log_limits.stderr_bytes))
      bad_log_limits
    >> reject (not (is_positive cfg.retention.max_bytes)) bad_retention
    >> each (check_machine cfg) cfg.machines
    >> each (check_project cfg) cfg.projects

abbrev int_eq : ℤ → ℤ → Bool
int_eq (pos a) (pos b) = a == b
int_eq (negsuc a) (negsuc b) = a == b
int_eq _ _ = false

unfoldable pub validate_client : Config → Check
validate_client cfg =
    reject (not (is_nil cfg.machines)) client_machines
    >> reject (not (is_nil cfg.projects)) client_projects
    >> reject (not (int_eq cfg.retention.max_bytes default_retention.max_bytes)) client_retention
    >> reject
        (not (
          int_eq cfg.log_limits.stdout_bytes default_log_limits.stdout_bytes
          && int_eq cfg.log_limits.stderr_bytes default_log_limits.stderr_bytes))
        client_log_limits

unfoldable pub supported_schema_version : ℤ → Bool
supported_schema_version (pos n) = n == 1 || n == 2
supported_schema_version (negsuc n) = false

unfoldable pub validate_config : Config → Check
validate_config cfg =
    if not (supported_schema_version cfg.schema_version)
    then err bad_schema_version
    else validate_orchestrator cfg.orchestrator
      >> (if text_eq cfg.orchestrator (codes "self")
          then validate_coordinator cfg
          else validate_client cfg)
