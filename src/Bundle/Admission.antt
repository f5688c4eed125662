-- ===== src/Bundle/Admission.antt =====
-- internal/bundlecache/cache.go, `Admit`: what an admission makes of a cache, also when it is
-- interrupted.
use vci.Base.{
  ℕ, zero, suc, ◌<◌, ◌≡◌, refl, ◌∙◌, inl, inr, true, false, not, Option, none, some, List, [], ◌∷◌,
  arith, if◌then◌else◌, Bool-cases, length, ok, ◌>>◌, holds, Text, text_eq_refl, lookup,
}
use vci.Bundle.Cache.{
  CacheDir, CacheRoot, Policy, admit, admit_steps, below_admission, check_entry, find_entry,
  interrupted_admit, is_complete, is_hit, or_fresh, project_dir, put, put_entry,
}

lookup-put : {A : Type 0} (k : Text) (a : A) (ms : List (Text × A)) → lookup k (put k a ms) ≡ some a
unfolding lookup put
lookup-put k a [] = ground (arith, text_eq_refl k)
lookup-put k a ((j, b) ∷ ms) = ground (arith, text_eq_refl k, lookup-put k a ms)

find_entry-put_entry :
    (root : CacheRoot) (project base : Text) (e : CacheDir)
    → find_entry (put_entry root project base e) project base ≡ some e
find_entry-put_entry root project base e =
    rw (lookup-put project (put base e (project_dir root project)) root)
      (lookup-put base e (project_dir root project))

is_hit-put_entry :
    (root : CacheRoot) (project base : Text) (e : CacheDir)
    → is_hit (put_entry root project base e) project base
      ≡ check_entry project base >> ok e.complete
unfolding is_hit
is_hit-put_entry root project base e = rw (find_entry-put_entry root project base e)

admit_steps-complete :
    (n : ℕ) (bundle : Text) (now : ℕ) (e : CacheDir)
    → n < 4
    → (admit_steps n bundle now e).complete ≡ e.complete
unfolding admit_steps
admit_steps-complete zero bundle now e h = refl
admit_steps-complete (suc zero) bundle now e h = refl
admit_steps-complete (suc (suc zero)) bundle now e h = refl
admit_steps-complete (suc (suc (suc zero))) bundle now e h = refl
admit_steps-complete (suc (suc (suc (suc n)))) bundle now e h = absurd (omega arith)

or_fresh-complete : (now : ℕ) (o : Option CacheDir) → (or_fresh now o).complete ≡ is_complete o
or_fresh-complete now none = refl
or_fresh-complete now (some e) = refl

is_hit_parts :
    (root : CacheRoot) (project base : Text)
    → is_hit root project base ≡ ok false
    → check_entry project base >> ok (is_complete (find_entry root project base)) ≡ ok false
unfolding is_hit
is_hit_parts root project base h = h

-- After an admission that is interrupted before its last step the entry is no hit, if it was none before
-- and its names are valid.
pub interrupted_admit-is_hit :
    (n : ℕ) (root : CacheRoot) (project base bundle : Text) (now : ℕ)
    → n < 4
    → is_hit root project base ≡ ok false
    → is_hit (interrupted_admit n root project base bundle now) project base ≡ ok false
unfolding interrupted_admit
interrupted_admit-is_hit zero root project base bundle now h miss = miss
interrupted_admit-is_hit (suc n) root project base bundle now h miss =
    let e = or_fresh now (find_entry root project base) in
    let same : (admit_steps (suc n) bundle now e).complete
        ≡ is_complete (find_entry root project base) =
      admit_steps-complete (suc n) bundle now e h
      ∙ or_fresh-complete now (find_entry root project base) in
    rw (is_hit-put_entry root project base (admit_steps (suc n) bundle now e), same)
      (is_hit_parts root project base miss)

-- The entry holds the bundle, its size and the time.
abbrev pub Holds : Text → ℕ → Option CacheDir → Type 0
Holds bundle now o =
    (e : CacheDir) × (o ≡ some e)
    × (e.bundle ≡ some bundle)
    × (e.meta ≡ holds (record { bytes = length bundle; last_used = now }))

-- A hit that holds the bundle.
abbrev pub Stored : Text → Text → Text → ℕ → CacheRoot → Type 0
Stored project base bundle now root =
    (is_hit root project base ≡ ok true) × Holds bundle now (find_entry root project base)

full_admit-Stored :
    (root : CacheRoot) (project base bundle : Text) (now : ℕ)
    → check_entry project base ≡ ok tt
    → Stored project base bundle now (interrupted_admit 4 root project base bundle now)
unfolding interrupted_admit admit_steps
full_admit-Stored root project base bundle now v = (
  is_hit-put_entry root project base _ ∙ rw v refl,
  (_, find_entry-put_entry root project base _, refl, refl),
)

-- For valid names, `Admit` answers whether the bundle reaches the threshold of the policy. If it does,
-- the entry is a hit and holds the bundle and its size; if not, the cache is as it was.
pub admit_lem :
    (root : CacheRoot) (project base bundle : Text) (policy : Policy) (now : ℕ)
    → check_entry project base ≡ ok tt
    → let p = admit root project base bundle policy now in
      (p.1 ≡ ok (not (below_admission policy bundle)))
      × (if below_admission policy bundle then p.0 ≡ root else Stored project base bundle now p.0)
unfolding admit
admit_lem root project base bundle policy now v =
    elim (Bool-cases (below_admission policy bundle)) [
      | inl small ↦ rw (v, small, admit) (refl, refl)
      | inr large ↦ rw (v, large, admit) (refl, full_admit-Stored root project base bundle now v)
    ]
