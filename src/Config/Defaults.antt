-- ===== src/Config/Defaults.antt =====
-- internal/config/config.go: `EffectiveCapacity`, `DefaultBundleCache`, `EffectiveBundleCache`,
-- `ResolveCommand`, `Defaults`.
use vci.Base.{
  ℕ, ◌*◌, ◌^◌, ◌<◌, Option, none, some, List, [], ◌∷◌, arith, if◌then◌else◌, ℤ, pos, is_positive,
  magnitude, Text, codes, lookup,
}
use vci.Config.Types.{BundleCachePolicy, Config, LogLimits, Machine, Project, Retention}

unfoldable pub effective_capacity : Machine → ℕ
effective_capacity m = if is_positive m.max_concurrent then magnitude m.max_concurrent else 1

-- Every machine has at least one slot.
pub effective_capacity_pos : (m : Machine) → 0 < effective_capacity m
unfolding effective_capacity
effective_capacity_pos m = ground arith

-- 5 entries, 5 GiB, 50 MiB.
unfoldable pub default_bundle_cache : BundleCachePolicy
default_bundle_cache = record {
  max_entries = pos 5;
  max_bytes = pos (5 * 2 ^ 30);
  admission_bytes = pos (50 * 2 ^ 20);
}

abbrev or_default : ℤ → ℤ → ℤ
or_default z d = if is_positive z then z else d

unfoldable pub effective_bundle_cache : BundleCachePolicy → BundleCachePolicy
unfolding default_bundle_cache
effective_bundle_cache p = record {
  max_entries = or_default p.max_entries default_bundle_cache.max_entries;
  max_bytes = or_default p.max_bytes default_bundle_cache.max_bytes;
  admission_bytes = or_default p.admission_bytes default_bundle_cache.admission_bytes;
}

-- An override that is empty does not count.
abbrev pub override : Option (List Text) → List Text → List Text
override none command = command
override (some []) command = command
override (some (c ∷ cs)) command = c ∷ cs

unfoldable pub resolve_command : Project → Text → List Text
resolve_command p machine = override (lookup machine p.commands) p.command

unfoldable pub default_log_limits : LogLimits
default_log_limits = record { stdout_bytes = pos (4 * 2 ^ 20); stderr_bytes = pos (4 * 2 ^ 20) }

unfoldable pub default_retention : Retention
default_retention = record { max_bytes = pos (512 * 2 ^ 20) }

unfoldable pub defaults : Config
unfolding default_log_limits default_retention
defaults = record {
  schema_version = pos 2;
  orchestrator = codes "self";
  log_limits = default_log_limits;
  retention = default_retention;
  machines = [];
  projects = [];
}
