-- ===== src/Worker/Refused.antt =====
-- internal/cli/internal.go: two places where the code and its comments part.
use vci.Base.{
  ℕ, ◌≡◌, refl, subst, inl, inr, Bool, true, false, Option, none, some, List, [], ◌∷◌, ◌++◌, arith,
  Bool-cases, ok, err, Result-cases, Text, codes, text_eq, has_prefix, is_empty,
}
use vci.Bundle.Cache.{CacheDir, ProjectDir}
use vci.Config.Strings.{split_path}
use vci.Worker.Cache.{ReapRequest, internal_reap_cache}
use vci.Worker.Clean.{clean, is_abs}
use vci.Worker.Evict.{consider, entry_meta, find_oldest, is_evictable}
use vci.Worker.Paths.{
  WorkerError, ends_in_project, expand_worker_path, not_under_cache, refs_underived, resolve_with,
  resolve_worker_cache_project_dir, safe_path_prefix,
}
use mathlib.Core.List.{reverse}

consider-timeless :
    (old name : Text) (meta : Option (ℕ × ℕ)) → consider (some (old, 0)) name meta ≡ some (old, 0)
unfolding consider
consider-timeless old name none = refl
consider-timeless old name (some (bytes, modified)) = refl

find_oldest-timeless :
    (old : Text) (dir : ProjectDir) → find_oldest (some (old, 0)) dir ≡ some (old, 0)
unfolding find_oldest
find_oldest-timeless old [] = refl
find_oldest-timeless old ((name, e) ∷ dir) = elim (Bool-cases (is_evictable e)) [
  | inr busy ↦ rw busy (find_oldest-timeless old dir)
  | inl free ↦ rw (free, consider-timeless old name (entry_meta e)) (find_oldest-timeless old dir)
]

-- The first complete entry without claims is the next one to go whenever its meta.json cannot be read,
-- however old the entries after it are.
pub find_oldest-unreadable :
    (name : Text) (e : CacheDir) (dir : ProjectDir)
    → is_evictable e ≡ true
    → entry_meta e ≡ none
    → find_oldest none ((name, e) ∷ dir) ≡ some (name, 0)
unfolding find_oldest consider
find_oldest-unreadable name e dir free h = rw (free, h) (find_oldest-timeless name dir)

is_abs-not_empty : (p : Text) → is_abs p ≡ true → is_empty p ≡ false
unfolding is_abs has_prefix
is_abs-not_empty [] h = cc
is_abs-not_empty (c ∷ p) h = refl

clean-is_abs : (p : Text) → is_abs p ≡ true → has_prefix (codes "/") (clean p) ≡ true
unfolding clean has_prefix
clean-is_abs p h = rw (is_abs-not_empty p h, h) refl

-- A resolved path is absolute.
resolve_with-is_abs :
    (check : List Text → Bool) (x : WorkerError) (home : Option Text) (p r : Text)
    → resolve_with check x home p ≡ ok r
    → has_prefix (codes "/") r ≡ true
unfolding resolve_with
resolve_with-is_abs check x home p r h = elim (Result-cases (safe_path_prefix p)) [
  | inr (e, f) ↦ cc (rw (f, resolve_with) at h)
  | inl (u, f) ↦ elim (Result-cases (expand_worker_path home p)) [
    | inr (e, g) ↦ cc (rw (f, g, resolve_with) at h)
    | inl (full, g) ↦ elim (Bool-cases (is_abs full)) [
      | inr rel ↦ cc (rw (f, g, rel, resolve_with) at h)
      | inl abs ↦ elim (Bool-cases (check (reverse (split_path (clean full))))) [
        | inr bad ↦ cc (rw (f, g, abs, bad, resolve_with) at h)
        | inl good ↦
            let same : clean full ≡ r = cc (rw (f, g, abs, good, resolve_with) at h) in
            subst (λ t. has_prefix (codes "/") t ≡ true) same (clean-is_abs full abs)
      ]
    ]
  ]
]

tilde_not_abs :
    (s t rest : Text)
    → has_prefix (codes "~") s ≡ true
    → has_prefix (codes "/") t ≡ true
    → text_eq (s ++ rest) (t ++ rest) ≡ false
unfolding has_prefix text_eq
tilde_not_abs [] t rest h k = cc
tilde_not_abs (c ∷ s) [] rest h k = cc
tilde_not_abs (c ∷ s) (d ∷ t) rest h k = ground arith

project_dir-is_abs :
    (home : Option Text) (p r : Text)
    → resolve_worker_cache_project_dir home p ≡ ok r
    → has_prefix (codes "/") r ≡ true
unfolding resolve_worker_cache_project_dir
project_dir-is_abs home p r h = resolve_with-is_abs ends_in_project not_under_cache home p r h

-- The worker refuses every reap whose project directory still begins with `~`, with the reference paths
-- that the coordinator composes of it, and leaves the directory as it is: `~` is resolved in the project
-- directory alone.
pub internal_reap_cache-tilde :
    (home : Option Text) (q : ReapRequest) (now : ℕ) (dir : ProjectDir)
    → has_prefix (codes "~") q.project_dir ≡ true
    → q.ref_dir ≡ q.project_dir ++ codes "/.vci-reap"
    → (e : WorkerError) × (internal_reap_cache home q now dir ≡ (dir, err e))
unfolding internal_reap_cache
internal_reap_cache-tilde home q now dir t r =
    elim (Result-cases (resolve_worker_cache_project_dir home q.project_dir)) [
      | inr (e, f) ↦ (e, rw (internal_reap_cache, f) refl)
      | inl (proj, f) ↦
          let abs = project_dir-is_abs home q.project_dir proj f in
          let differs = tilde_not_abs q.project_dir proj (codes "/.vci-reap") t abs in
          (refs_underived, rw (internal_reap_cache, f, r, differs) refl)
    ]
