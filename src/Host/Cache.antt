-- ===== src/Host/Cache.antt =====
-- internal/host/ssh.go: the commands of `Client` on the bundle cache of a worker.
use vci.Base.{
  ℕ, ◌+◌, ◌-◌, ◌*◌, Bool, true, false, ◌&&◌, ◌||◌, Option, none, some, List, [], ◌∷◌, ◌++◌, leb,
  ◌==◌, if◌then◌else◌, Result, ok, err, ◌>>=◌, ◌>>◌, Text, codes, is_empty,
}
use vci.Bundle.Cache.{project_dir}
use vci.Config.Hosted.{after}
use vci.Host.Client.{Runner, must_succeed, need_payload, need_runner, probe, ssh}
use vci.Host.Paths.{
  Checked, HostError, bad_claim_id, cache_entry_path, cache_project_dir, evicted_out_of_range,
  no_cache_entry, no_counts, refuse, stale_out_of_range, validate_cache_segment, validate_host,
  validate_remote_path,
}

unfoldable pub probe_bundle_cache :
    Option Runner → Text → Text → Text → Text → Result HostError Bool
unfolding need_runner ssh probe
probe_bundle_cache runner host root project base = do
  validate_host host
  run ← need_runner runner
  entry ← cache_entry_path root project base
  probe (run (ssh (host ∷ codes "vci" ∷ codes "internal-probe-cache" ∷ entry ∷ []) none)) false true

-- The two commands on claim markers differ in their name.
unfoldable pub claim_command : Text → Option Runner → Text → Text → Text → Text → Text → Checked
unfolding need_runner ssh must_succeed validate_cache_segment
claim_command subcommand runner host root project base claim_id = do
  validate_host host
  run ← need_runner runner
  validate_cache_segment bad_claim_id claim_id
  entry ← cache_entry_path root project base
  must_succeed (run (ssh (host ∷ codes "vci" ∷ subcommand ∷ entry ∷ claim_id ∷ []) none))

unfoldable pub acquire_bundle_claim : Option Runner → Text → Text → Text → Text → Text → Checked
unfolding claim_command
acquire_bundle_claim = claim_command (codes "internal-acquire-claim")

unfoldable pub release_bundle_claim : Option Runner → Text → Text → Text → Text → Text → Checked
unfolding claim_command
release_bundle_claim = claim_command (codes "internal-release-claim")

unfoldable pub is_decimal : ℕ → Bool
is_decimal c = leb b'0' c && leb c b'9'

-- `\d+`: the digits at the front, with what follows them.
unfoldable pub take_digits : Text → Text × Text
unfolding is_decimal
take_digits [] = ([], [])
take_digits (c ∷ cs) =
    let (digits, rest) = take_digits cs in if is_decimal c then (c ∷ digits, rest) else ([], c ∷ cs)

unfoldable pub skip_literal : Text → Text → Option Text
skip_literal [] s = some s
skip_literal (p ∷ ps) [] = none
skip_literal (p ∷ ps) (c ∷ cs) = let rest = skip_literal ps cs in if p == c then rest else none

unfoldable pub second_count : Text → Text → Option (Text × Text)
unfolding take_digits skip_literal
second_count stale rest = elim (skip_literal (codes " evicted=") rest) [
  | none ↦ none
  | some after ↦
      let (evicted, _) = take_digits after in
      if is_empty stale || is_empty evicted then none else some (stale, evicted)
]

-- `stale=(\d+) evicted=(\d+)` at the front of a text.
unfoldable pub match_counts : Text → Option (Text × Text)
unfolding second_count skip_literal take_digits
match_counts s = elim (skip_literal (codes "stale=") s) [
  | none ↦ none
  | some after ↦ let (stale, rest) = take_digits after in second_count stale rest
]

-- The first match.
unfoldable pub find_counts : Text → Option (Text × Text)
unfolding match_counts
find_counts [] = none
find_counts (c ∷ cs) =
    let later = find_counts cs in elim (match_counts (c ∷ cs)) [ none ↦ later | some m ↦ some m ]

unfoldable pub decimal_value : ℕ → Text → ℕ
decimal_value n [] = n
decimal_value n (c ∷ cs) = decimal_value (n * 10 + (c - b'0')) cs

abbrev pub max_int : ℕ
max_int = 9223372036854775807

-- `strconv.Atoi` on digits.
unfoldable pub atoi : HostError → Text → Result HostError ℕ
unfolding decimal_value
atoi e digits = let n = decimal_value 0 digits in if leb n max_int then ok n else err e

pub record Reaped : Type 0 where
  pub stale : ℕ
  pub evicted : ℕ

unfoldable pub parse_reap_output : Text → Result HostError Reaped
unfolding find_counts atoi
parse_reap_output out = elim (find_counts out) [
  | none ↦ err no_counts
  | some (s, e) ↦ do
    stale ← atoi stale_out_of_range s
    evicted ← atoi evicted_out_of_range e
    ok (record { stale = stale; evicted = evicted })
]

-- The two cutoffs and the two limits come as the texts that `Format` and `strconv` write.
unfoldable pub reap_bundle_cache :
    Option Runner → Text → Text → Text → Text → Text → Text → Text → Result HostError Reaped
unfolding need_runner ssh must_succeed
reap_bundle_cache runner host root project partial_cutoff claim_cutoff max_entries max_bytes = do
  validate_host host
  run ← need_runner runner
  project_dir ← cache_project_dir root project
  let ref_dir = project_dir ++ codes "/.vci-reap"
  let r = run (
      ssh
        (host
          ∷ codes "vci"
          ∷ codes "internal-reap-cache"
          ∷ project_dir
          ∷ ref_dir
          ∷ (ref_dir ++ codes "/partial")
          ∷ (ref_dir ++ codes "/claim")
          ∷ partial_cutoff
          ∷ claim_cutoff
          ∷ max_entries
          ∷ max_bytes
          ∷ [])
        none)
  must_succeed r
  parse_reap_output r.stdout

pub record NoSeedCache : Type 0 where
  pub root : Text
  pub project : Text
  pub base : Text
  pub use_cached : Bool
  pub admit : Bool
  pub evict : Bool
  pub max_entries : Text
  pub max_bytes : Text
  pub bundle_bytes : Text
  pub now : Text

unfoldable pub cache_arguments : NoSeedCache → Text → List Text
cache_arguments c entry =
    (if c.use_cached then codes "--cache" ∷ entry ∷ codes "--use-cached" ∷ [] else [])
    ++ (if c.admit
        then codes "--cache"
          ∷ entry
          ∷ codes "--admit"
          ∷ c.bundle_bytes
          ∷ c.now
          ∷ (if c.evict then codes "--evict" ∷ c.max_entries ∷ c.max_bytes ∷ [] else [])
        else [])

unfoldable pub stream_no_seed_reconstruct :
    Option Runner → Text → Text → NoSeedCache → Option Text → Checked
unfolding need_runner need_payload ssh must_succeed cache_arguments
stream_no_seed_reconstruct runner host work_dir c payload = do
  validate_host host
  tar ← need_payload payload
  run ← need_runner runner
  validate_remote_path work_dir
  entry ← if is_empty c.root then ok [] else cache_entry_path c.root c.project c.base
  refuse ((c.use_cached || c.admit) && is_empty entry) no_cache_entry
  must_succeed (
      run (
        ssh
          (host
            ∷ codes "vci"
            ∷ codes "internal-reconstruct"
            ∷ work_dir
            ∷ codes "--no-seed"
            ∷ cache_arguments c entry)
          (some tar)))
