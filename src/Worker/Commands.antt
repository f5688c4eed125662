-- ===== src/Worker/Commands.antt =====
-- internal/cli/internal.go: `runInternal` and `runInternalCommand`. `parse_time` stands for `time.Parse`, and
-- `reconstruct` for the body of `internal-reconstruct`.
use vci.Base.{
  ℕ, Bool, not, Option, none, some, List, [], ◌∷◌, ◌++◌, if◌then◌else◌, drop, Result, ok, err, Text,
  codes, text_eq, lookup,
}
use vci.Bundle.Cache.{CacheDir, ProjectDir, or_nil, put}
use vci.Worker.Archive.{Archive, FileOp, Trace, internal_stage}
use vci.Worker.Cache.{
  ReapRequest, internal_acquire_claim, internal_probe_cache, internal_reap_cache,
  internal_release_claim,
}
use vci.Worker.Clean.{clean_segments, join_segments}
use vci.Worker.Decimal.{parse_count, show_decimal}
use vci.Worker.Paths.{
  WorkerError, bad_cutoff, bad_limit, bad_usage, resolve_worker_cache_entry,
  resolve_worker_cache_project_dir, unknown_command,
}
use mathlib.Core.List.{reverse}

-- The cache directories of the projects by their absolute paths.
abbrev pub Caches : Type 0
Caches = List (Text × ProjectDir)

abbrev pub dir_at : Caches → Text → ProjectDir
dir_at caches path = or_nil (lookup path caches)

abbrev last_of : List Text → Text
last_of [] = []
last_of (s ∷ ss) = s

unfoldable pub parent_of : Text → Text
parent_of path = b'/' ∷ join_segments (reverse (drop 1 (reverse (clean_segments path))))

unfoldable pub base_of : Text → Text
base_of path = last_of (reverse (clean_segments path))

unfoldable pub entry_at : Caches → Text → Option CacheDir
unfolding parent_of base_of
entry_at caches path = lookup (base_of path) (dir_at caches (parent_of path))

abbrev put_found : Caches → Text → Option CacheDir → Caches
put_found caches path none = caches
put_found caches path (some e) =
    put (parent_of path) (put (base_of path) e (dir_at caches (parent_of path))) caches

unfoldable pub put_entry_at : Caches → Text → Option CacheDir → Caches
unfolding put parent_of base_of
put_entry_at = put_found

-- What a command leaves: the caches, the operations on files, and its code or its error with the output.
pub record Ran : Type 0 where
  pub caches : Caches
  pub files : List FileOp
  pub answer : Result WorkerError (ℕ × Text)

abbrev failed_with : Caches → WorkerError → Ran
failed_with caches e = record { caches = caches; files = []; answer = err e }

abbrev exit_with : Result WorkerError (Unit {0}) → Result WorkerError (ℕ × Text)
exit_with (err e) = err e
exit_with (ok _) = ok (0, [])

abbrev staged : Caches → Trace → Ran
staged caches (ops, r) = record { caches = caches; files = ops; answer = exit_with r }

abbrev probed : Result WorkerError Bool → Result WorkerError (ℕ × Text)
probed (err e) = err e
probed (ok found) = ok (if not found then 1 else 0, [])

-- An empty directory that is not listed stays unlisted.
unfoldable pub put_dir : Caches → Text → ProjectDir → Caches
unfolding put
put_dir caches path [] = elim (lookup path caches) [ none ↦ caches | some d ↦ put path [] caches ]
put_dir caches path (e ∷ es) = put path (e ∷ es) caches

unfoldable pub report : ℕ → ℕ → Text
unfolding show_decimal
report stale evicted =
    codes "stale="
    ++ (show_decimal stale ++ (codes " evicted=" ++ (show_decimal evicted ++ 10 ∷ [])))

abbrev pub reported : Result WorkerError (ℕ × ℕ) → Result WorkerError (ℕ × Text)
reported (err e) = err e
reported (ok (stale, evicted)) = ok (0, report stale evicted)

-- The arguments of `internal-reap-cache` after their number is checked.
abbrev reap_request :
    Text
    → Text
    → Text
    → Text
    → Option ℕ
    → Option ℕ
    → Option ℕ
    → Option ℕ
    → Result WorkerError ReapRequest
reap_request dir ref p c none _ _ _ = err bad_cutoff
reap_request dir ref p c (some _) none _ _ = err bad_cutoff
reap_request dir ref p c (some _) (some _) none _ = err bad_limit
reap_request dir ref p c (some _) (some _) (some _) none = err bad_limit
reap_request dir ref p c (some pc) (some cc) (some n) (some b) = ok (record {
  project_dir = dir;
  ref_dir = ref;
  partial_ref = p;
  claim_ref = c;
  partial_cutoff = pc;
  claim_cutoff = cc;
  max_entries = n;
  max_bytes = b;
})

module _ (parse_time : Text → Option ℕ) (home : Option Text) where
  unfoldable pub run_reap : List Text → ℕ → Caches → Ran
  run_reap (dir ∷ ref ∷ p ∷ c ∷ pc ∷ cc ∷ n ∷ b ∷ []) now caches =
      elim (reap_request dir ref p c (parse_time pc) (parse_time cc) (parse_count n)
        (parse_count b)) [
          | err e ↦ failed_with caches e
          | ok q ↦ elim (resolve_worker_cache_project_dir home dir) [
            | err e ↦ failed_with caches e
            | ok path ↦
                let (left, r) = internal_reap_cache home q now (dir_at caches path) in
                record { caches = put_dir caches path left; files = []; answer = reported r }
          ]
        ]
  run_reap _ now caches = failed_with caches bad_usage

  unfoldable pub run_acquire : List Text → ℕ → Caches → Ran
  unfolding entry_at put_entry_at
  run_acquire (entry ∷ id ∷ []) now caches = elim (resolve_worker_cache_entry home entry) [
    | err e ↦ failed_with caches e
    | ok path ↦
        let (e, r) = internal_acquire_claim home entry id now (entry_at caches path) in
        record { caches = put_entry_at caches path e; files = []; answer = exit_with r }
  ]
  run_acquire _ now caches = failed_with caches bad_usage

  unfoldable pub run_release : List Text → Caches → Ran
  unfolding entry_at put_entry_at
  run_release (entry ∷ id ∷ []) caches = elim (resolve_worker_cache_entry home entry) [
    | err e ↦ failed_with caches e
    | ok path ↦
        let (e, r) = internal_release_claim home entry id (entry_at caches path) in
        record { caches = put_entry_at caches path e; files = []; answer = exit_with r }
  ]
  run_release _ caches = failed_with caches bad_usage

  unfoldable pub run_probe : List Text → Caches → Ran
  unfolding entry_at
  run_probe (entry ∷ []) caches = elim (resolve_worker_cache_entry home entry) [
    | err e ↦ failed_with caches e
    | ok path ↦ record {
      caches = caches;
      files = [];
      answer = probed (internal_probe_cache home entry (entry_at caches path));
    }
  ]
  run_probe _ caches = failed_with caches bad_usage

  unfoldable pub run_stage : List Text → Option Archive → Caches → Ran
  run_stage (work_dir ∷ []) stdin caches = staged caches (internal_stage home work_dir stdin)
  run_stage _ stdin caches = failed_with caches bad_usage

  unfoldable pub run_internal :
      (List Text → Option Archive → Caches → Ran)
      → Text
      → List Text
      → Option Archive
      → ℕ
      → Caches
      → Ran
  unfolding run_stage run_probe run_acquire run_release run_reap
  run_internal reconstruct name args stdin now caches =
      if text_eq name (codes "internal-stage")
      then run_stage args stdin caches
      else if text_eq name (codes "internal-probe-cache")
      then run_probe args caches
      else if text_eq name (codes "internal-acquire-claim")
      then run_acquire args now caches
      else if text_eq name (codes "internal-release-claim")
      then run_release args caches
      else if text_eq name (codes "internal-reap-cache")
      then run_reap args now caches
      else if text_eq name (codes "internal-reconstruct")
      then reconstruct args stdin caches
      else failed_with caches unknown_command

-- `runInternalCommand`: an error ends with the code 1 and nothing on the standard output.
unfoldable pub exit_status : Ran → ℕ × Text
exit_status r = elim r.answer [ err e ↦ (1, []) | ok answer ↦ answer ]
