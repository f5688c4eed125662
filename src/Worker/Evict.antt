-- ===== src/Worker/Evict.antt =====
-- internal/cli/internal.go: `evictLRU`, in the directory of one project, whose entries stand in the order
-- of their names. A time of 0 is the zero time.
use vci.Base.{
  ℕ, zero, suc, ◌+◌, Bool, true, false, not, ◌&&◌, ◌||◌, Option, none, some, List, [], ◌∷◌, ltb,
  leb, ◌==◌, if◌then◌else◌, length, ℤ, is_positive, magnitude, File, holds, Text,
}
use vci.Bundle.Cache.{CacheDir, Marker, Meta, ProjectDir}
use vci.Bundle.Evict.{remove_entry}

abbrev pub claims_non_empty : List Marker → Bool
claims_non_empty [] = false
claims_non_empty (m ∷ ms) = true

-- The bytes and the time of meta.json, where it can be decoded.
abbrev pub meta_of : File Meta → ℕ → Option (ℕ × ℕ)
meta_of (holds m) modified = some (m.bytes, modified)
meta_of _ modified = none

unfoldable pub entry_meta : CacheDir → Option (ℕ × ℕ)
entry_meta e = meta_of e.meta e.meta_modified

abbrev pub bytes_of : Option (ℕ × ℕ) → ℕ
bytes_of none = 0
bytes_of (some (bytes, modified)) = bytes

unfoldable pub complete_count : ProjectDir → ℕ
complete_count [] = 0
complete_count ((name, e) ∷ rest) = let n = complete_count rest in if e.complete then suc n else n

unfoldable pub complete_bytes : ProjectDir → ℕ
unfolding entry_meta
complete_bytes [] = 0
complete_bytes ((name, e) ∷ rest) =
    let n = complete_bytes rest in if e.complete then bytes_of (entry_meta e) + n else n

unfoldable pub fits : ℤ → ℕ → Bool
fits limit n = not (is_positive limit) || leb n (magnitude limit)

unfoldable pub fits_both : ℤ → ℤ → ProjectDir → Bool
unfolding complete_count complete_bytes fits
fits_both max_entries max_bytes dir =
    fits max_entries (complete_count dir) && fits max_bytes (complete_bytes dir)

-- The oldest entry so far, with its time.
abbrev pub Oldest : Type 0
Oldest = Option (Text × ℕ)

abbrev pub time_of : Option (ℕ × ℕ) → ℕ
time_of none = 0
time_of (some (bytes, modified)) = modified

unfoldable pub consider : Oldest → Text → Option (ℕ × ℕ) → Oldest
consider none name meta = some (name, time_of meta)
consider (some (old, t)) name none = some (old, t)
consider (some (old, t)) name (some (bytes, modified)) =
    if t == 0
    then some (old, t)
    else if ltb modified t
    then some (name, modified)
    else some (old, t)

abbrev pub is_evictable : CacheDir → Bool
is_evictable e = e.complete && not (claims_non_empty e.claims)

unfoldable pub find_oldest : Oldest → ProjectDir → Oldest
unfolding consider entry_meta
find_oldest o [] = o
find_oldest o ((name, e) ∷ rest) =
    find_oldest (if is_evictable e then consider o name (entry_meta e) else o) rest

-- The loop, with the number of removals; `none` means that the fuel ran out.
unfoldable pub evict_rounds : ℕ → ℤ → ℤ → ProjectDir → ℕ → Option (ProjectDir × ℕ)
unfolding find_oldest
evict_rounds zero max_entries max_bytes dir n = none
evict_rounds (suc fuel) max_entries max_bytes dir n =
    if fits_both max_entries max_bytes dir then some (dir, n) else elim (find_oldest none dir) [
      | none ↦ some (dir, n)
      | some (name, t) ↦ evict_rounds fuel max_entries max_bytes (remove_entry name dir) (n + 1)
    ]

-- The directory holds no more entries than the fuel allows removals.
unfoldable pub worker_evict_lru : ℤ → ℤ → ProjectDir → Option (ProjectDir × ℕ)
unfolding evict_rounds
worker_evict_lru max_entries max_bytes dir =
    if not (is_positive max_entries) && not (is_positive max_bytes)
    then some (dir, 0)
    else evict_rounds (suc (length dir)) max_entries max_bytes dir 0
