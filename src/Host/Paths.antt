-- ===== src/Host/Paths.antt =====
-- internal/host/ssh.go: the checks of hosts, remote paths, seeds and cache segments, and the paths that
-- are composed of them.
use vci.Base.{
  ℕ, Bool, false, not, ◌&&◌, ◌||◌, List, [], ◌∷◌, ◌++◌, leb, ◌==◌, if◌then◌else◌, any, all, ℤ,
  Result, ok, err, ◌>>=◌, ◌>>◌, Text, codes, text_eq, has_prefix, is_empty,
}
use vci.Bundle.Cache.{project_dir}
use vci.Config.Strings.{is_control, split_path}
use vci.Config.Validation.{ConfigError, validate_machine_host}
use vci.Model.Names.{valid_name, valid_run_id}

pub data HostError : Type 0 where
  host_empty : HostError
  bad_host : ConfigError → HostError
  path_empty path_flag path_control path_outside bad_run_segment bad_run_id : HostError
  seed_empty seed_flag seed_control : HostError
  cache_root_empty bad_cache_project bad_cache_base bad_claim_id no_cache_entry : HostError
  argv_empty no_payload no_runner : HostError
  cancelled transport_failed : HostError
  remote_exit : ℤ → HostError
  no_counts stale_out_of_range evicted_out_of_range : HostError

abbrev pub Checked : Type 0
Checked = Result HostError (Unit {0})

abbrev pub refuse : Bool → HostError → Checked
refuse b e = if b then err e else ok tt

unfoldable pub validate_host : Text → Checked
validate_host host =
    if is_empty host
    then err host_empty
    else elim (validate_machine_host host) [ ok _ ↦ ok tt | err e ↦ err (bad_host e) ]

-- The segments of `~/.vci/state/work/<run>`.
unfoldable pub check_segments : List Text → Checked
check_segments (a ∷ b ∷ c ∷ d ∷ run ∷ []) =
    if text_eq a (codes "~")
      && text_eq b (codes ".vci")
      && text_eq c (codes "state")
      && text_eq d (codes "work")
    then refuse (not (valid_name run)) bad_run_segment
    else err path_outside
check_segments _ = err path_outside

unfoldable pub validate_remote_path : Text → Checked
unfolding check_segments
validate_remote_path p =
    if is_empty p
    then err path_empty
    else if has_prefix (codes "-") p
    then err path_flag
    else if any is_control p
    then err path_control
    else check_segments (split_path p)

abbrev pub work_prefix : Text
work_prefix = codes "~/.vci/state/work/"

unfoldable pub remote_work_dir : Text → Result HostError Text
remote_work_dir id = if not (valid_run_id id) then err bad_run_id else ok (work_prefix ++ id)

unfoldable pub validate_seed : Text → Checked
validate_seed seed =
    if is_empty seed
    then err seed_empty
    else if has_prefix (codes "-") seed
    then err seed_flag
    else refuse (any is_control seed) seed_control

-- The loop of `validCacheSegment` over the characters.
unfoldable pub is_segment_char : ℕ → Bool
is_segment_char c =
    leb b'a' c && leb c b'z'
    || leb b'A' c && leb c b'Z'
    || leb b'0' c && leb c b'9'
    || c == b'.'
    || c == b'-'
    || c == b'_'

unfoldable pub valid_cache_segment : Text → Bool
unfolding is_segment_char
valid_cache_segment s =
    if is_empty s
      || text_eq s (codes ".")
      || text_eq s (codes "..")
      || any (λ c. c == b'\\' || c == b'/') s
    then false
    else all is_segment_char s

unfoldable pub validate_cache_segment : HostError → Text → Checked
validate_cache_segment e s = refuse (not (valid_cache_segment s)) e

unfoldable pub cache_project_dir : Text → Text → Result HostError Text
unfolding validate_cache_segment
cache_project_dir root project =
    if is_empty root
    then err cache_root_empty
    else do validate_cache_segment bad_cache_project project; ok (root ++ codes "/v1/" ++ project)

unfoldable pub cache_entry_path : Text → Text → Text → Result HostError Text
unfolding cache_project_dir validate_cache_segment
cache_entry_path root project base = do
  project_dir ← cache_project_dir root project
  validate_cache_segment bad_cache_base base
  ok (project_dir ++ codes "/" ++ base)
