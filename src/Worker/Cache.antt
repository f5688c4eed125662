-- ===== src/Worker/Cache.antt =====
-- internal/cli/internal.go: the probe, the claims and the reap of a worker's bundle cache, each in the
-- directory that its path names. Failures of the file system are left out.
use vci.Base.{
  ℕ, suc, ◌+◌, Bool, false, not, ◌&&◌, Option, none, some, List, [], ◌∷◌, ◌++◌, ltb, if◌then◌else◌,
  pos, Result, ok, err, ◌>>=◌, File, absent, Text, codes, text_eq,
}
use vci.Bundle.Cache.{CacheDir, Marker, Meta, ProjectDir, is_complete}
use vci.Host.Paths.{valid_cache_segment}
use vci.Store.Transitions.{kept}
use vci.Worker.Evict.{worker_evict_lru}
use vci.Worker.Paths.{
  WorkerError, bad_claim_id, not_complete, refs_removed, refs_underived, resolve_worker_cache_entry,
  resolve_worker_cache_project_dir,
}

-- The state is the directory of the entry, where there is one.
unfoldable pub internal_probe_cache : Option Text → Text → Option CacheDir → Result WorkerError Bool
internal_probe_cache home entry e =
    resolve_worker_cache_entry home entry >>= λ dir. ok (is_complete e)

unfoldable pub put_marker : Text → ℕ → List Marker → List Marker
put_marker id now [] = record { name = id; is_dir = false; modified = now } ∷ []
put_marker id now (m ∷ ms) =
    if text_eq m.name id then record m { modified = now } ∷ ms else m ∷ put_marker id now ms

unfoldable pub drop_marker : Text → List Marker → List Marker
drop_marker id [] = []
drop_marker id (m ∷ ms) =
    let rest = drop_marker id ms in if text_eq m.name id then rest else m ∷ rest

abbrev with_claim : Text → ℕ → Option CacheDir → Option CacheDir × Result WorkerError (Unit {0})
with_claim id now none = (none, err not_complete)
with_claim id now (some e) =
    if not e.complete
    then (some e, err not_complete)
    else (some (record e { claims = put_marker id now e.claims }), ok tt)

unfoldable pub internal_acquire_claim :
    Option Text
    → Text
    → Text
    → ℕ
    → Option CacheDir
    → Option CacheDir × Result WorkerError (Unit {0})
unfolding put_marker
internal_acquire_claim home entry id now e = elim (resolve_worker_cache_entry home entry) [
  | err x ↦ (e, err x)
  | ok dir ↦ if not (valid_cache_segment id) then (e, err bad_claim_id) else with_claim id now e
]

abbrev without_claim : Text → Option CacheDir → Option CacheDir
without_claim id none = none
without_claim id (some e) = some (record e { claims = drop_marker id e.claims })

unfoldable pub internal_release_claim :
    Option Text → Text → Text → Option CacheDir → Option CacheDir × Result WorkerError (Unit {0})
unfolding drop_marker
internal_release_claim home entry id e = elim (resolve_worker_cache_entry home entry) [
  | err x ↦ (e, err x)
  | ok dir ↦
      if not (valid_cache_segment id) then (e, err bad_claim_id) else (without_claim id e, ok tt)
]

-- The time of meta.json, where there is one, and else that of the directory.
abbrev pub touched_at : CacheDir → File Meta → ℕ
touched_at e absent = e.dir_modified
touched_at e _ = e.meta_modified

unfoldable pub is_stale : ℕ → CacheDir → Bool
is_stale cutoff e = not e.complete && ltb (touched_at e e.meta) cutoff

-- The first loop: incomplete entries that are older than the cutoff are removed and counted.
unfoldable pub drop_stale : ℕ → ProjectDir → ProjectDir × ℕ
unfolding is_stale
drop_stale cutoff [] = ([], 0)
drop_stale cutoff ((name, e) ∷ rest) =
    let (kept, n) = drop_stale cutoff rest in
    if is_stale cutoff e then (kept, suc n) else ((name, e) ∷ kept, n)

unfoldable pub drop_markers : ℕ → List Marker → List Marker × ℕ
drop_markers cutoff [] = ([], 0)
drop_markers cutoff (m ∷ ms) =
    let (kept, n) = drop_markers cutoff ms in
    if not m.is_dir && ltb m.modified cutoff then (kept, suc n) else (m ∷ kept, n)

-- The second loop, over the entries that the first one leaves.
unfoldable pub drop_claims : ℕ → ProjectDir → ProjectDir × ℕ
unfolding drop_markers
drop_claims cutoff [] = ([], 0)
drop_claims cutoff ((name, e) ∷ rest) =
    let (kept, n) = drop_claims cutoff rest in
    let (claims, k) = drop_markers cutoff e.claims in
    ((name, record e { claims = claims }) ∷ kept, k + n)

pub record ReapRequest : Type 0 where
  pub project_dir : Text
  pub ref_dir : Text
  pub partial_ref : Text
  pub claim_ref : Text
  pub partial_cutoff : ℕ
  pub claim_cutoff : ℕ
  pub max_entries : ℕ
  pub max_bytes : ℕ

abbrev pub refs_derive : Text → ReapRequest → Bool
refs_derive proj q =
    text_eq q.ref_dir (proj ++ codes "/.vci-reap")
    && text_eq q.partial_ref (q.ref_dir ++ codes "/partial")
    && text_eq q.claim_ref (q.ref_dir ++ codes "/claim")

-- The directory of the reference files is made at `now` among the entries, so that it is removed itself
-- where the cutoff lies later; its own removal fails then. `worker_evict_lru` always answers.
abbrev reap_answer :
    ℕ → ℕ → ℕ → ProjectDir → Option (ProjectDir × ℕ) → ProjectDir × Result WorkerError (ℕ × ℕ)
reap_answer now cutoff stale dir none = (dir, err refs_removed)
reap_answer now cutoff stale dir (some (left, evicted)) =
    (left, if ltb now cutoff then err refs_removed else ok (stale, evicted))

unfoldable pub reap_pass : ReapRequest → ℕ → ProjectDir → ProjectDir × Result WorkerError (ℕ × ℕ)
unfolding drop_stale drop_claims
reap_pass q now dir =
    let (d1, n) = drop_stale q.partial_cutoff dir in
    let (d2, k) = drop_claims q.claim_cutoff d1 in
    reap_answer now q.partial_cutoff (n + k) d2
      (worker_evict_lru (pos q.max_entries) (pos q.max_bytes) d2)

unfoldable pub internal_reap_cache :
    Option Text → ReapRequest → ℕ → ProjectDir → ProjectDir × Result WorkerError (ℕ × ℕ)
unfolding reap_pass
internal_reap_cache home q now dir = elim (resolve_worker_cache_project_dir home q.project_dir) [
  | err x ↦ (dir, err x)
  | ok proj ↦ if not (refs_derive proj q) then (dir, err refs_underived) else reap_pass q now dir
]
