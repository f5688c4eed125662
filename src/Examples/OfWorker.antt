-- ===== src/Examples/OfWorker.antt =====
-- The worker's commands at a concrete cache and concrete archives, and tests of them.
use vci.Base.{
  ℕ, ◌≡◌, refl, true, false, Option, none, some, List, [], ◌∷◌, ◌++◌, arith, All, pos, ok, err,
  damaged, holds, Text, codes, text_eq, has_prefix, lookup, mem_text, IsMap,
}
use vci.Bundle.Cache.{CacheDir, ProjectDir}
use vci.Bundle.Evict.{remove_entry}
use vci.Config.Strings.{
  contains, has_parent_segment, is_control, is_space, split_path, trim_left, trim_right, trim_space,
}
use vci.Config.Validation.{validate_machine_host}
use vci.Examples.Fixtures.{mac}
use vci.Host.Cache.{cache_arguments, reap_bundle_cache}
use vci.Host.Paths.{cache_project_dir, valid_cache_segment, validate_host}
use vci.Model.Names.{has_slash}
use vci.Worker.Archive.{Archive, safe_join}
use vci.Worker.Cache.{drop_markers, internal_reap_cache, is_stale}
use vci.Worker.Clean.{clean, clean_push, is_abs, join_path, join_segments}
use vci.Worker.Commands.{Caches, Ran, dir_at}
use vci.Worker.Decimal.{show_decimal}
use vci.Worker.Evict.{consider, entry_meta, find_oldest, fits_both, worker_evict_lru}
use vci.Worker.Evicting.{Evicts, worker_evict_lru-Evicts}
use vci.Worker.FlagLaws.{asked, parse_flags-cache_arguments, understood}
use vci.Worker.Flags.{Resolved, no_options, parse_flags}
use vci.Worker.Joining.{safe_join_inside}
use vci.Worker.Paths.{
  WorkerError, expand_worker_path, resolve_worker_cache_project_dir, safe_path_prefix,
}
use vci.Worker.Reaps.{InRange, coordinator_view, reap_bundle_cache-worker, request_for, worker_at}
use vci.Worker.Rebuilt.{CheckedOut, rebuild_lem, unpack_removal}
use vci.Worker.Reconstruct.{
  Payload, WorkStep, World, admission, apply_local_changes, apply_patches, check_out,
  extract_changes, git, git_failed, import_bundles, rebuild,
}
use vci.Worker.Refused.{internal_reap_cache-tilde}
use vci.Worker.Segments.{IsNormal}

abbrev unused : ℕ → CacheDir
unused modified = record {
  bundle = some (codes "b");
  meta = holds (record { bytes = 4; last_used = 1 });
  meta_modified = modified;
  complete = true;
  claims = [];
  dir_modified = modified;
}

abbrev in_use_entry : CacheDir
in_use_entry = record (unused 1) {
  claims = record { name = codes "run_1"; is_dir = false; modified = 8 } ∷ [];
}

abbrev unreadable : CacheDir
unreadable = record (unused 9) { meta = damaged }

abbrev three_entries : ProjectDir
three_entries = (codes "a", in_use_entry) ∷ (codes "b", unused 7) ∷ (codes "c", unused 5) ∷ []

three_names : IsMap three_entries
unfolding lookup text_eq
three_names = (refl, (refl, (refl, tt)))

worker_evict_lru-Evicts_example :
    (r : ProjectDir × ℕ) × (worker_evict_lru (pos 2) (pos 0) three_entries ≡ some r)
    × Evicts (pos 2) (pos 0) three_entries 0 r
worker_evict_lru-Evicts_example = worker_evict_lru-Evicts (pos 2) (pos 0) three_entries three_names

-- The oldest entry without a claim goes.
oldest_goes :
    worker_evict_lru (pos 2) (pos 0) three_entries
    ≡ some ((codes "a", in_use_entry) ∷ (codes "b", unused 7) ∷ [], 1)
unfolding worker_evict_lru find_oldest consider entry_meta remove_entry text_eq fits_both
oldest_goes = refl

abbrev worker_home : Text
worker_home = codes "/home/w"

abbrev cache_root : Text
cache_root = codes "/home/w/.vci/state/bundle-cache"

abbrev go_dir : Text
go_dir = codes "/home/w/.vci/state/bundle-cache/v1/go"

abbrev tilde_dir : Text
tilde_dir = codes "~/.vci/state/bundle-cache/v1/go"

internal_reap_cache-tilde_example :
    (e : WorkerError) × (internal_reap_cache
        (some worker_home)
        (request_for tilde_dir 4 4 2 0)
        9
        three_entries
      ≡ (three_entries, err e))
unfolding has_prefix
internal_reap_cache-tilde_example =
    internal_reap_cache-tilde (some worker_home) (request_for tilde_dir 4 4 2 0) 9 three_entries
      refl refl

-- Every time is read as the same moment.
abbrev moment : Text → Option ℕ
moment t = some 4

abbrev no_reconstruction : List Text → Option Archive → Caches → Ran
no_reconstruction args stdin caches = record { caches = caches; files = []; answer = ok (0, []) }

abbrev one_cache : Caches
one_cache = (go_dir, three_entries) ∷ []

host_valid : validate_host mac ≡ ok tt
unfolding validate_host validate_machine_host has_prefix is_space contains has_parent_segment
    split_path mem_text text_eq
host_valid = refl

go_dir_resolved : resolve_worker_cache_project_dir (some worker_home) go_dir ≡ ok go_dir
unfolding resolve_worker_cache_project_dir safe_path_prefix has_prefix is_control expand_worker_path
    text_eq is_abs clean split_path clean_push join_segments valid_cache_segment
go_dir_resolved = refl

pass-InRange :
    InRange
      (internal_reap_cache
        (some worker_home)
        (request_for go_dir 4 4 2 0)
        9
        (dir_at one_cache go_dir)).1
unfolding internal_reap_cache resolve_worker_cache_project_dir safe_path_prefix has_prefix
    is_control expand_worker_path text_eq is_abs clean split_path clean_push join_segments
    valid_cache_segment is_stale drop_markers worker_evict_lru find_oldest consider entry_meta
    remove_entry fits_both lookup
pass-InRange = (omega arith, omega arith)

reap_bundle_cache-worker_example :
    reap_bundle_cache
      (some (worker_at moment (some worker_home) no_reconstruction none 9 one_cache))
      mac
      cache_root
      (codes "go")
      (codes "t")
      (codes "t")
      (show_decimal 2)
      (show_decimal 0)
    ≡ coordinator_view
        (internal_reap_cache
          (some worker_home)
          (request_for go_dir 4 4 2 0)
          9
          (dir_at one_cache go_dir)).1
unfolding cache_project_dir valid_cache_segment text_eq
reap_bundle_cache-worker_example =
    reap_bundle_cache-worker moment (some worker_home) no_reconstruction none 9 one_cache mac
      cache_root (codes "go") go_dir go_dir (codes "t") (codes "t") 4 4 2 0 host_valid refl
      go_dir_resolved refl refl (omega arith) (omega arith) pass-InRange

safe_join_inside_example :
    (ns : List Text) × All IsNormal ns
    × (codes "/w/run/a/c" ≡ b'/' ∷ join_segments ((codes "w" ∷ codes "run" ∷ []) ++ ns))
unfolding safe_join clean is_abs has_prefix split_path clean_push join_segments text_eq has_slash
    join_path
safe_join_inside_example =
    safe_join_inside (codes "w") (codes "run" ∷ []) (codes "a/../a/./c") (codes "/w/run/a/c")
      ((refl, refl, refl, refl), ((refl, refl, refl, refl), tt)) refl

parse_flags-cache_arguments_example :
    parse_flags moment no_options (
      go_dir
      ∷ codes "--no-seed"
      ∷ cache_arguments
          (asked moment cache_root
            (codes "go")
            (codes "ab")
            (codes "/e")
            (codes "t")
            7
            2
            9
            4
            true
            true
            true)
          (codes "/e"))
    ≡ ok (
        understood moment cache_root
          (codes "go")
          (codes "ab")
          (codes "/e")
          (codes "t")
          7
          2
          9
          4
          go_dir
          true
          true
          true)
unfolding has_prefix
parse_flags-cache_arguments_example =
    parse_flags-cache_arguments moment cache_root (codes "go") (codes "ab") (codes "/e") (codes "t")
      7 2 9 4 true true true go_dir refl refl (omega arith) (omega arith) (omega arith)

abbrev working : World
working = record { git_works = λ dir args. true; seed_copies = true; entry_touched = true }

abbrev payload_1 : Payload
payload_1 = record {
  bundle = some 4;
  head = some (codes "ab12\n");
  changes = some (record { members = []; readable = true });
}

abbrev request_1 : Resolved
request_1 = record { work_dir = codes "/w/.vci/state/work/run_1"; seed = []; cache_entry = [] }

rebuild_lem_example :
    CheckedOut working request_1.work_dir payload_1.head
    × ((before : List WorkStep) × ((rebuild working request_1
            (record no_options { no_seed = true })
            payload_1).0
          ≡ before ++ unpack_removal request_1 ∷ []))
unfolding rebuild import_bundles check_out apply_local_changes apply_patches extract_changes
    admission trim_space trim_left trim_right is_space
rebuild_lem_example =
    rebuild_lem working request_1 (record no_options { no_seed = true }) payload_1 refl

-- A head that cannot be checked out leaves the work directory and the payload behind.
abbrev broken_git : World
broken_git = record working { git_works = λ dir args. false }

left_behind :
    (rebuild broken_git request_1 (record no_options { no_seed = true }) payload_1)
    ≡ (git request_1.work_dir (codes "init" ∷ codes "-q" ∷ []) ∷ [], err git_failed)
unfolding rebuild
left_behind = refl
