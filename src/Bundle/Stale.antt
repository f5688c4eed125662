-- ===== src/Bundle/Stale.antt =====
-- internal/bundlecache/cache.go: `ReapStale` and `entryAge`. A duration is a number of nanoseconds.
use vci.Base.{ℕ, ◌+◌, Bool, not, ◌&&◌, [], ◌∷◌, ltb, if◌then◌else◌, keep, count, absent}
use vci.Bundle.Cache.{CacheDir, CacheRoot, Marker, ProjectDir, valid_segment}
use vci.Store.Transitions.{kept}

abbrev pub content_time : CacheDir → ℕ
content_time e = elim e.meta [ absent ↦ e.dir_modified | _ ↦ e.meta_modified ]

-- `entryAge(entryPath, now) > limit`
unfoldable pub is_older_than : CacheDir → ℕ → ℕ → Bool
is_older_than e now limit = ltb (content_time e + limit) now

abbrev pub stale_marker : ℕ → ℕ → Marker → Bool
stale_marker now ttl m = not m.is_dir && ltb (m.modified + ttl) now

abbrev pub fresh_marker : ℕ → ℕ → Marker → Bool
fresh_marker now ttl m = not (stale_marker now ttl m)

abbrev pub is_stale_partial : ℕ → ℕ → CacheDir → Bool
is_stale_partial now partial_age e = not e.complete && is_older_than e now partial_age

-- The loop over the entries of a project.
unfoldable pub reap_bases : ℕ → ℕ → ℕ → ProjectDir → ProjectDir × ℕ
reap_bases now partial_age ttl [] = ([], 0)
reap_bases now partial_age ttl ((base, e) ∷ rest) =
    let (kept, n) = reap_bases now partial_age ttl rest in
    if not (valid_segment base)
    then ((base, e) ∷ kept, n)
    else if is_stale_partial now partial_age e
    then (kept, n + 1)
    else (
      (base, record e { claims = keep (fresh_marker now ttl) e.claims }) ∷ kept,
      n + count (stale_marker now ttl) e.claims,
    )

-- The loop over the projects.
unfoldable pub reap_stale : ℕ → ℕ → ℕ → CacheRoot → CacheRoot × ℕ
reap_stale now partial_age ttl [] = ([], 0)
reap_stale now partial_age ttl ((project, dir) ∷ rest) =
    let (kept, n) = reap_stale now partial_age ttl rest in
    let (dir', k) = reap_bases now partial_age ttl dir in
    if valid_segment project then ((project, dir') ∷ kept, n + k) else ((project, dir) ∷ kept, n)
