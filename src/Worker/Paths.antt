-- ===== src/Worker/Paths.antt =====
-- internal/cli/internal.go: the resolution of the paths that a coordinator sends. `home` is the answer of
-- `os.UserHomeDir`.
use vci.Base.{
  Bool, false, not, ◌&&◌, Option, none, some, List, ◌∷◌, if◌then◌else◌, drop, any, Result, ok, err,
  ◌>>=◌, ◌>>◌, Text, codes, text_eq, has_prefix, is_empty,
}
use vci.Config.Strings.{is_control, split_path}
use vci.Host.Paths.{valid_cache_segment}
use vci.Model.Names.{valid_run_id}
use vci.System.Composites.{one}
use vci.Worker.Clean.{clean, is_abs, join_path}
use mathlib.Core.List.{reverse}

pub data WorkerError : Type 0 where
  path_empty path_flag path_control no_home not_absolute not_under_work not_under_cache :
      WorkerError
  bad_claim_id not_complete refs_underived refs_removed : WorkerError
  bad_usage unknown_command bad_cutoff bad_limit : WorkerError
  no_archive bad_member member_escapes archive_unreadable : WorkerError
  flag_value_missing bad_bundle_bytes bad_time no_seed_path flag_needs_cache : WorkerError

unfoldable pub safe_path_prefix : Text → Result WorkerError (Unit {0})
safe_path_prefix p =
    if is_empty p
    then err path_empty
    else if has_prefix (codes "-") p
    then err path_flag
    else if any is_control p
    then err path_control
    else ok tt

abbrev with_home : Option Text → (Text → Text) → Result WorkerError Text
with_home none f = err no_home
with_home (some home) f = ok (f home)

unfoldable pub expand_worker_path : Option Text → Text → Result WorkerError Text
expand_worker_path home p =
    if text_eq p (codes "~")
    then with_home home (λ h. h)
    else if has_prefix (codes "~/") p
    then with_home home (λ h. join_path h (drop 2 p))
    else ok p

-- What the three resolutions share, up to the check of the last segments.
unfoldable pub resolve_with :
    (List Text → Bool) → WorkerError → Option Text → Text → Result WorkerError Text
resolve_with check e home p = do
  safe_path_prefix p
  expanded ← expand_worker_path home p
  (if not (is_abs expanded)
      then err not_absolute
      else if check (reverse (split_path (clean expanded)))
      then ok (clean expanded)
      else err e)

-- The last segments, the last one first.
unfoldable pub ends_in_work : List Text → Bool
ends_in_work (run ∷ w ∷ s ∷ v ∷ top ∷ rest) =
    text_eq w (codes "work")
    && text_eq s (codes "state")
    && text_eq v (codes ".vci")
    && valid_run_id run
ends_in_work _ = false

unfoldable pub ends_in_entry : List Text → Bool
ends_in_entry (base ∷ project ∷ one ∷ c ∷ s ∷ v ∷ rest) =
    text_eq v (codes ".vci")
    && text_eq s (codes "state")
    && text_eq c (codes "bundle-cache")
    && text_eq one (codes "v1")
    && valid_cache_segment project
    && valid_cache_segment base
ends_in_entry _ = false

unfoldable pub ends_in_project : List Text → Bool
ends_in_project (project ∷ one ∷ c ∷ s ∷ v ∷ rest) =
    text_eq v (codes ".vci")
    && text_eq s (codes "state")
    && text_eq c (codes "bundle-cache")
    && text_eq one (codes "v1")
    && valid_cache_segment project
ends_in_project _ = false

unfoldable pub resolve_worker_work_dir : Option Text → Text → Result WorkerError Text
unfolding resolve_with ends_in_work
resolve_worker_work_dir = resolve_with ends_in_work not_under_work

unfoldable pub resolve_worker_cache_entry : Option Text → Text → Result WorkerError Text
unfolding resolve_with ends_in_entry
resolve_worker_cache_entry = resolve_with ends_in_entry not_under_cache

unfoldable pub resolve_worker_cache_project_dir : Option Text → Text → Result WorkerError Text
unfolding resolve_with ends_in_project
resolve_worker_cache_project_dir = resolve_with ends_in_project not_under_cache

unfoldable pub resolve_worker_seed : Option Text → Text → Result WorkerError Text
unfolding safe_path_prefix expand_worker_path
resolve_worker_seed home p = do safe_path_prefix p; expand_worker_path home p
