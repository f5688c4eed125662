-- ===== src/Worker/Oldest.antt =====
-- internal/cli/internal.go, `evictLRU`: the entry that is taken next.
use vci.Base.{
  ℕ, ◌≡◌, refl, sym, ap, ◌∙◌, subst, ◌⊎◌, inl, inr, true, false, Option, none, some, [], ◌∷◌, arith,
  ltb, ◌==◌, Bool-cases, if_either, All, In, Text,
}
use vci.Bundle.Cache.{CacheDir, ProjectDir}
use vci.Process.Limit.{new}
use vci.Store.Transitions.{kept}
use vci.Worker.Evict.{Oldest, consider, entry_meta, find_oldest, is_evictable, time_of}

abbrev pub Found : ProjectDir → Text → Type 0
Found dir name = (e : CacheDir) × In (name, e) dir × (is_evictable e ≡ true)

Found-further :
    (x : Text × CacheDir) (dir : ProjectDir) (name : Text) → Found dir name → Found (x ∷ dir) name
Found-further x dir name f = (f.0, inr f.1, f.2)

-- An entry that is found is replaced by an entry at most.
abbrev Replaces : Text × ℕ → ProjectDir → Oldest → Type 0
Replaces o dir r = (p : Text × ℕ) × (r ≡ some p) × ((p.0 ≡ o.0) ⊎ Found dir p.0)

abbrev Reconsiders : Text × ℕ → Text → Oldest → Type 0
Reconsiders o name r = (p : Text × ℕ) × (r ≡ some p) × ((p.0 ≡ o.0) ⊎ (p.0 ≡ name))

consider-some :
    (o : Text × ℕ) (name : Text) (meta : Option (ℕ × ℕ))
    → Reconsiders o name (consider (some o) name meta)
unfolding consider
consider-some (old, t) name none = ((old, t), refl, inl refl)
consider-some (old, t) name (some (bytes, modified)) =
    if_either (Reconsiders (old, t) name) (t == 0) _ _ ((old, t), refl, inl refl)
      (if_either (Reconsiders (old, t) name) (ltb modified t) _ _ ((name, modified), refl, inr refl)
        ((old, t), refl, inl refl))

find_oldest-some : (o : Text × ℕ) (dir : ProjectDir) → Replaces o dir (find_oldest (some o) dir)
unfolding find_oldest
find_oldest-some o [] = (o, refl, inl refl)
find_oldest-some o ((name, e) ∷ dir) = elim (Bool-cases (is_evictable e)) [
  | inr kept ↦
      let (p, q, r) = find_oldest-some o dir in
      (p, rw kept q, elim r [ inl same ↦ inl same | inr f ↦ inr (Found-further _ dir p.0 f) ])
  | inl free ↦
      let (c, d, g) = consider-some o name (entry_meta e) in
      let (p, q, r) = find_oldest-some c dir in
      (
        p,
        rw (free, d) q,
        elim r [
          | inr f ↦ inr (Found-further _ dir p.0 f)
          | inl same ↦ elim g [
            | inl old ↦ inl (same ∙ old)
            | inr new ↦ inr (e, inl (ap (λ n. (n, e)) (sym (same ∙ new))), free)
          ]
        ],
      )
]

-- Nothing is found only where no entry may be evicted.
pub find_oldest-none :
    (dir : ProjectDir) → find_oldest none dir ≡ none → All (λ x. is_evictable x.1 ≡ false) dir
unfolding find_oldest
find_oldest-none [] h = tt
find_oldest-none ((name, e) ∷ dir) h = elim (Bool-cases (is_evictable e)) [
  | inr kept ↦ (kept, find_oldest-none dir (rw kept at h))
  | inl free ↦
      let (p, q, r) = find_oldest-some (name, time_of (entry_meta e)) dir in
      absurd (ground (arith, q, h, free))
]

-- What is found is an entry that may be evicted.
pub find_oldest-Found :
    (dir : ProjectDir) (p : Text × ℕ) → find_oldest none dir ≡ some p → Found dir p.0
unfolding find_oldest
find_oldest-Found [] p h = cc
find_oldest-Found ((name, e) ∷ dir) p h = elim (Bool-cases (is_evictable e)) [
  | inr kept ↦ Found-further _ dir p.0 (find_oldest-Found dir p (rw kept at h))
  | inl free ↦
      let (q, s, r) = find_oldest-some (name, time_of (entry_meta e)) dir in
      let same : p ≡ q = ground (arith, s, h, free) in
      elim r [
        | inr f ↦ Found-further _ dir p.0 (subst (Found dir) (ap (λ x. x.0) (sym same)) f)
        | inl new ↦ (e, inl (ap (λ n. (n, e)) (sym (ap (λ x. x.0) same ∙ new))), free)
      ]
]
