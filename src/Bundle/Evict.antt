-- ===== src/Bundle/Evict.antt =====
-- internal/bundlecache/cache.go: `withinLimits`, `activeClaims` and `EvictLRU`. The sums of bytes are
-- not bounded here.
use vci.Base.{
  ℕ, ◌+◌, Bool, not, ◌&&◌, Option, none, some, List, [], ◌∷◌, ◌++◌, ltb, if◌then◌else◌, length,
  count, is_positive, magnitude, sort_by, Result, ok, err, Text, text_eq, lookup,
}
use vci.Bundle.Cache.{
  CacheDir, CacheError, CacheRoot, Entry, Marker, Policy, ProjectDir, project_dir, put,
  valid_segment,
}
use vci.Bundle.Entries.{list_entries}

unfoldable pub total_bytes : List Entry → ℕ
total_bytes [] = 0
total_bytes (e ∷ es) = e.bytes + total_bytes es

unfoldable pub within_limits : List Entry → Policy → Bool
within_limits es p =
    not (is_positive p.max_entries && ltb (magnitude p.max_entries) (length es))
    && not (is_positive p.max_bytes && ltb (magnitude p.max_bytes) (total_bytes es))

abbrev is_claim_marker : Marker → Bool
is_claim_marker m = not m.is_dir && valid_segment m.name

abbrev claims_in : Option CacheDir → ℕ
claims_in none = 0
claims_in (some e) = count is_claim_marker e.claims

-- `activeClaims`, in the directory of the project.
unfoldable pub active_claims : ProjectDir → Text → ℕ
active_claims dir base = claims_in (lookup base dir)

-- `os.RemoveAll` of an entry.
unfoldable pub remove_entry : Text → ProjectDir → ProjectDir
remove_entry base [] = []
remove_entry base ((j, e) ∷ rest) =
    let kept = remove_entry base rest in if text_eq j base then kept else (j, e) ∷ kept

abbrev pub is_older : Entry → Entry → Bool
is_older a b = ltb a.last_used b.last_used

-- What the loop of `EvictLRU` has: the directory, the number of removals, the entries that are left.
pub record Evicted : Type 0 where
  pub dir : ProjectDir
  pub removed : ℕ
  pub left : List Entry

-- The loop; `passed` are the entries before the index `i`, all of them claimed.
unfoldable pub evict_loop : Policy → ProjectDir → ℕ → List Entry → List Entry → Evicted
evict_loop p dir n passed [] = record { dir = dir; removed = n; left = passed }
evict_loop p dir n passed (e ∷ es) =
    let skipping = evict_loop p dir n (passed ++ e ∷ []) es in
    let removing = evict_loop p (remove_entry e.base dir) (n + 1) passed es in
    if within_limits (passed ++ e ∷ es) p
    then record { dir = dir; removed = n; left = passed ++ e ∷ es }
    else if ltb 0 (active_claims dir e.base)
    then skipping
    else removing

-- `EvictLRU` in the directory of the project, on the entries of `List`.
unfoldable pub evict_entries : Policy → ProjectDir → List Entry → Evicted
evict_entries p dir es =
    if within_limits es p
    then record { dir = dir; removed = 0; left = es }
    else evict_loop p dir 0 [] (sort_by is_older es)

unfoldable pub evict_lru : CacheRoot → Text → Policy → CacheRoot × Result CacheError ℕ
evict_lru root project p = elim (list_entries root project) [
  | err e ↦ (root, err e)
  | ok es ↦
      let r = evict_entries p (project_dir root project) es in
      (put project r.dir root, ok r.removed)
]
