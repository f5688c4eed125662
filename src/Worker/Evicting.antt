-- ===== src/Worker/Evicting.antt =====
-- internal/cli/internal.go, `evictLRU`: when it stops and what it keeps.
use vci.Base.{
  ℕ, zero, suc, ◌+◌, ◌<◌, ◌≡◌, refl, ap, ◌∙◌, ◌≢◌, ◌⊎◌, inl, inr, true, false, not, ◌&&◌, Option,
  none, some, [], ◌∷◌, arith, &&_parts, Bool-cases, Option-cases, if_either, length, All, In, ℤ,
  is_positive, Text, text_eq, text_eq_sound, text_eq_refl, text_eq_iff, lookup, IsMap,
}
use vci.Bundle.Cache.{CacheDir, ProjectDir}
use vci.Bundle.Evict.{remove_entry}
use vci.Bundle.Eviction.{lookup-remove_entry}
use vci.Worker.Evict.{evict_rounds, find_oldest, fits_both, is_evictable, worker_evict_lru}
use vci.Worker.Oldest.{Found, find_oldest-Found, find_oldest-none}

In-lookup :
    (k : Text) (e : CacheDir) (dir : ProjectDir) → IsMap dir → In (k, e) dir → lookup k dir ≡ some e
unfolding lookup
In-lookup k e [] m h = absurd h
In-lookup k e ((j, x) ∷ dir) m (inl q) = ground (arith, q, text_eq_refl j)
In-lookup k e ((j, x) ∷ dir) m (inr h) =
    let ih = In-lookup k e dir m.1 h in ground (arith, ih, m.0, text_eq_iff j k)

lookup-remove_entry-none :
    (name j : Text) (dir : ProjectDir)
    → lookup j dir ≡ none
    → lookup j (remove_entry name dir) ≡ none
unfolding lookup remove_entry
lookup-remove_entry-none name j [] h = refl
lookup-remove_entry-none name j ((k, x) ∷ dir) h =
    ground (arith, lookup-remove_entry-none name j dir)

IsMap-remove_entry : (name : Text) (dir : ProjectDir) → IsMap dir → IsMap (remove_entry name dir)
unfolding remove_entry
IsMap-remove_entry name [] m = tt
IsMap-remove_entry name ((k, x) ∷ dir) m =
    if_either IsMap (text_eq k name) _ _ (IsMap-remove_entry name dir m.1)
      (lookup-remove_entry-none name k dir m.0, IsMap-remove_entry name dir m.1)

remove_entry-absent :
    (name : Text) (dir : ProjectDir) → lookup name dir ≡ none → remove_entry name dir ≡ dir
unfolding lookup remove_entry
remove_entry-absent name [] h = refl
remove_entry-absent name ((k, x) ∷ dir) h = ground (arith, remove_entry-absent name dir)

-- One entry is removed.
length-remove_entry :
    (name : Text) (e : CacheDir) (dir : ProjectDir)
    → IsMap dir
    → lookup name dir ≡ some e
    → suc (length (remove_entry name dir)) ≡ length dir
unfolding lookup remove_entry
length-remove_entry name e [] m h = cc
length-remove_entry name e ((k, x) ∷ dir) m h = elim (Bool-cases (text_eq k name)) [
  | inl same ↦
      let e' = text_eq_sound k name same in
      rw same (ap (λ d. suc (length d)) (remove_entry-absent name dir (rw e' at m.0)))
  | inr differs ↦ rw differs (omega (arith, length-remove_entry name e dir m.1 (rw differs at h)))
]

-- What a run of the loop over a directory leaves, with its count.
pub record Evicts (max_entries max_bytes : ℤ) (dir : ProjectDir) (n : ℕ) (r : ProjectDir × ℕ)
    : Type 0 where
  -- The limits are kept, or no entry is left that may be evicted.
  pub done : (fits_both max_entries max_bytes r.0 ≡ true) ⊎ All (λ x. is_evictable x.1 ≡ false) r.0
  pub kept :
      (name : Text) (e : CacheDir)
      → lookup name dir ≡ some e
      → is_evictable e ≡ false
      → lookup name r.0 ≡ some e
  pub counted : r.1 + length r.0 ≡ n + length dir

abbrev Answers : ℤ → ℤ → ProjectDir → ℕ → Option (ProjectDir × ℕ) → Type 0
Answers me mb dir n o = (r : ProjectDir × ℕ) × (o ≡ some r) × Evicts me mb dir n r

-- An entry that may not be evicted has another name.
other_name :
    (dir : ProjectDir) (name k : Text) (e : CacheDir)
    → IsMap dir
    → Found dir name
    → lookup k dir ≡ some e
    → is_evictable e ≡ false
    → name ≢ k
other_name dir name k e m f held busy same =
    let found = In-lookup name f.0 dir m f.1 in
    let both : f.0 ≡ e = cc (ap (λ j. lookup j dir) same) in cc (ap is_evictable both)

-- An entry that may be evicted leaves first.
Evicts-after :
    (me mb : ℤ) (dir : ProjectDir) (n : ℕ) (name : Text) (r : ProjectDir × ℕ)
    → IsMap dir
    → Found dir name
    → Evicts me mb (remove_entry name dir) (n + 1) r
    → Evicts me mb dir n r
Evicts-after me mb dir n name r m f x = record {
  done = x.done;
  kept = λ k e held busy.
      x.kept k e (lookup-remove_entry name k dir (other_name dir name k e m f held busy) ∙ held)
        busy;
  counted =
      omega (arith, x.counted, length-remove_entry name f.0 dir m (In-lookup name f.0 dir m f.1));
}

unchanged :
    (me mb : ℤ) (dir : ProjectDir) (n : ℕ)
    → (fits_both me mb dir ≡ true) ⊎ All (λ x. is_evictable x.1 ≡ false) dir
    → Evicts me mb dir n (dir, n)
unchanged me mb dir n h = record { done = h; kept = λ k e held busy. held; counted = omega arith }

evict_rounds-Answers :
    (fuel : ℕ) (me mb : ℤ) (dir : ProjectDir) (n : ℕ)
    → IsMap dir
    → length dir < fuel
    → Answers me mb dir n (evict_rounds fuel me mb dir n)
unfolding evict_rounds
evict_rounds-Answers zero me mb dir n m h = absurd (omega arith)
evict_rounds-Answers (suc fuel) me mb dir n m h = elim (Bool-cases (fits_both me mb dir)) [
  | inl fit ↦ rw fit ((dir, n), refl, unchanged me mb dir n (inl fit))
  | inr over ↦ elim (Option-cases (find_oldest none dir)) [
    | inl e ↦ rw (over, e) ((dir, n), refl, unchanged me mb dir n (inr (find_oldest-none dir e)))
    | inr (p, e) ↦
        let f = find_oldest-Found dir p e in
        let one = length-remove_entry p.0 f.0 dir m (In-lookup p.0 f.0 dir m f.1) in
        let (r, q, x) =
          evict_rounds-Answers fuel me mb (remove_entry p.0 dir) (n + 1)
            (IsMap-remove_entry p.0 dir m) (omega (arith, one)) in
        rw (over, e) (r, q, Evicts-after me mb dir n p.0 r m f x)
  ]
]

fits_both-off :
    (me mb : ℤ) (dir : ProjectDir)
    → (not (is_positive me) && not (is_positive mb)) ≡ true
    → fits_both me mb dir ≡ true
unfolding fits_both
fits_both-off me mb dir h =
    let (a, b) = &&_parts (not (is_positive me)) (not (is_positive mb)) h in rw (a, b) refl

-- The worker's `evictLRU` comes to an end, in any directory whose entries have different names. Then the
-- entries are within both limits, or each of the complete ones has a claim; the incomplete entries and
-- the claimed ones are as they were; the number that it answers is the number of entries that are gone.
pub worker_evict_lru-Evicts :
    (max_entries max_bytes : ℤ) (dir : ProjectDir)
    → IsMap dir
    → (r : ProjectDir × ℕ) × (worker_evict_lru max_entries max_bytes dir ≡ some r)
      × Evicts max_entries max_bytes dir 0 r
unfolding worker_evict_lru
worker_evict_lru-Evicts me mb dir m =
    elim (Bool-cases (not (is_positive me) && not (is_positive mb))) [
      | inl off ↦ rw off ((dir, 0), refl, unchanged me mb dir 0 (inl (fits_both-off me mb dir off)))
      | inr on ↦ rw on (evict_rounds-Answers (suc (length dir)) me mb dir 0 m (omega arith))
    ]
