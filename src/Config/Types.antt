-- ===== src/Config/Types.antt =====
-- internal/config/config.go and validation.go: `Config` and the types of its fields. A Go map is a
-- list of pairs, of which the first with a key counts.
use vci.Base.{List, ℤ, Text}

pub record LogLimits : Type 0 where
  pub stdout_bytes : ℤ
  pub stderr_bytes : ℤ

pub record Retention : Type 0 where
  pub max_bytes : ℤ

pub record BundleCachePolicy : Type 0 where
  pub max_entries : ℤ
  pub max_bytes : ℤ
  pub admission_bytes : ℤ

pub record Machine : Type 0 where
  pub max_concurrent : ℤ
  pub host : Text
  pub runtime : Text
  pub image : Text
  pub snapshot : Text
  pub os : Text
  pub source_paths : List (Text × Text)
  pub bundle_cache : BundleCachePolicy

pub record HostedFallback : Type 0 where
  pub url : Text
  pub commit : Text

pub record Project : Type 0 where
  pub machines : List Text
  pub command : List Text
  pub commands : List (Text × List Text)
  pub environment : List (Text × Text)
  pub artifacts : List Text
  pub excluded_paths : List Text
  pub hosted_fallback : HostedFallback

pub record Config : Type 0 where
  pub schema_version : ℤ
  pub orchestrator : Text
  pub log_limits : LogLimits
  pub retention : Retention
  pub machines : List (Text × Machine)
  pub projects : List (Text × Project)
