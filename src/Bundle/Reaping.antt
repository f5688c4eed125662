-- ===== src/Bundle/Reaping.antt =====
-- internal/bundlecache/cache.go, `ReapStale`: what is left of each entry.
use vci.Base.{
  ℕ, ◌+◌, ◌≤◌, ◌<◌, ◌≡◌, ◌⊎◌, true, false, Option, none, some, [], ◌∷◌, length, All, In, Text,
}
use vci.Bundle.Cache.{CacheDir, Marker, ProjectDir, valid_segment}
use vci.Bundle.Stale.{content_time}

-- An incomplete entry whose content is older than the limit.
abbrev pub HasExpired : ℕ → ℕ → CacheDir → Type 0
HasExpired now partial_age e = (e.complete ≡ false) × (content_time e + partial_age < now)

-- A complete entry, or one whose content is not older than the limit.
abbrev pub IsCurrent : ℕ → ℕ → CacheDir → Type 0
IsCurrent now partial_age e = (e.complete ≡ true) ⊎ (now ≤ content_time e + partial_age)

-- A marker that is a directory or not older than the limit of the claims.
abbrev pub IsRecent : ℕ → ℕ → Marker → Type 0
IsRecent now ttl m = (m.is_dir ≡ true) ⊎ (now ≤ m.modified + ttl)

-- The entry differs in its claims only, and of these exactly the recent ones are left.
pub record Thinned (now ttl : ℕ) (e e' : CacheDir) : Type 0 where
  pub same : e' ≡ record e { claims = e'.claims }
  pub recent : (m : Marker) → In m e'.claims → In m e.claims × IsRecent now ttl m
  pub kept : (m : Marker) → In m e.claims → IsRecent now ttl m → In m e'.claims

-- What becomes of an entry of a project.
pub data Fate (now partial_age ttl : ℕ) (base : Text) (e : CacheDir)
    : Option CacheDir → Type 0 where
  alone : valid_segment base ≡ false → Fate now partial_age ttl base e (some e)
  gone :
      valid_segment base ≡ true
      → HasExpired now partial_age e
      → Fate now partial_age ttl base e none
  thinned :
      (e' : CacheDir)
      → valid_segment base ≡ true
      → IsCurrent now partial_age e
      → Thinned now ttl e e'
      → Fate now partial_age ttl base e (some e')

abbrev pub markers : ProjectDir → ℕ
markers [] = 0
markers ((base, e) ∷ dir) = length e.claims + markers dir

-- The number that is reported: the entries that are gone, and the markers that are missing from the others.
pub record Counted (now partial_age : ℕ) (dir dir' : ProjectDir) (n : ℕ) : Type 0 where
  pub removed : ProjectDir
  pub expired : All (λ x. HasExpired now partial_age x.1) removed
  pub entries : length dir' + length removed ≡ length dir
  pub total : n + markers dir' + markers removed ≡ length removed + markers dir
