-- ===== src/Bundle/Eviction.antt =====
-- internal/bundlecache/cache.go, `EvictLRU`: what it keeps and when it stops.
use vci.Base.{
  ℕ, ◌+◌, ◌<◌, ◌≡◌, refl, ap, ◌∙◌, ◌≢◌, ◌⊎◌, inl, inr, true, false, List, [], ◌∷◌, ◌++◌, arith, ltb,
  Bool-cases, All, sort_by, Text, text_eq_iff, lookup,
}
use vci.Bundle.Cache.{Entry, Policy, ProjectDir}
use vci.Bundle.Evict.{
  Evicted, active_claims, evict_entries, evict_loop, is_older, remove_entry, within_limits,
}

abbrev pub IsClaimed : ProjectDir → Entry → Type 0
IsClaimed dir e = 0 < active_claims dir e.base

pub lookup-remove_entry :
    (base j : Text) (dir : ProjectDir) → base ≢ j → lookup j (remove_entry base dir) ≡ lookup j dir
unfolding lookup remove_entry
lookup-remove_entry base j [] n = refl
lookup-remove_entry base j ((k, e) ∷ dir) n =
    ground (arith, text_eq_iff k base, text_eq_iff k j, lookup-remove_entry base j dir n)

-- The removal of an entry without claims leaves the claimed entries as they are.
claimed_stays :
    (dir : ProjectDir) (base j : Text)
    → active_claims dir base ≡ 0
    → 0 < active_claims dir j
    → lookup j (remove_entry base dir) ≡ lookup j dir
claimed_stays dir base j free held =
    lookup-remove_entry base j dir (λ e. omega (arith, free, held, ap (active_claims dir) e))

claims_stay :
    (dir : ProjectDir) (base j : Text)
    → active_claims dir base ≡ 0
    → 0 < active_claims dir j
    → 0 < active_claims (remove_entry base dir) j
unfolding active_claims
claims_stay dir base j free held = rw (claimed_stays dir base j free held) held

evict_loop-claimed :
    (p : Policy) (dir : ProjectDir) (n : ℕ) (passed es : List Entry) (base : Text)
    → 0 < active_claims dir base
    → lookup base (evict_loop p dir n passed es).dir ≡ lookup base dir
unfolding evict_loop
evict_loop-claimed p dir n passed [] base held = refl
evict_loop-claimed p dir n passed (e ∷ es) base held =
    let free : ltb 0 (active_claims dir e.base) ≡ false → active_claims dir e.base ≡ 0 =
      λ h. ground arith in
    elim (Bool-cases (within_limits (passed ++ e ∷ es) p)) [
      | inl fits ↦ rw fits refl
      | inr over ↦ elim (Bool-cases (ltb 0 (active_claims dir e.base))) [
        | inl busy ↦ rw (over, busy) (evict_loop-claimed p dir n (passed ++ e ∷ []) es base held)
        | inr idle ↦
            rw (over, idle)
              (evict_loop-claimed p (remove_entry e.base dir) (n + 1) passed es base
                  (claims_stay dir e.base base (free idle) held)
                ∙ claimed_stays dir e.base base (free idle) held)
      ]
    ]

-- `EvictLRU` leaves every entry that has an active claim as it is.
pub evict_entries-claimed :
    (p : Policy) (dir : ProjectDir) (es : List Entry) (base : Text)
    → 0 < active_claims dir base
    → lookup base (evict_entries p dir es).dir ≡ lookup base dir
unfolding evict_entries
evict_entries-claimed p dir es base held = elim (Bool-cases (within_limits es p)) [
  | inl fits ↦ rw fits refl
  | inr over ↦ rw over (evict_loop-claimed p dir 0 [] (sort_by is_older es) base held)
]

All-IsClaimed-remove :
    (dir : ProjectDir) (base : Text) (es : List Entry)
    → active_claims dir base ≡ 0
    → All (IsClaimed dir) es
    → All (IsClaimed (remove_entry base dir)) es
All-IsClaimed-remove dir base [] free h = tt
All-IsClaimed-remove dir base (e ∷ es) free h =
    (claims_stay dir base e.base free h.0, All-IsClaimed-remove dir base es free h.1)

All-snoc :
    (P : Entry → Type 0) (es : List Entry) (e : Entry) → All P es → P e → All P (es ++ e ∷ [])
All-snoc P [] e h p = (p, tt)
All-snoc P (x ∷ es) e h p = (h.0, All-snoc P es e h.1 p)

-- The loop has reached the limits, or has nothing left that it may remove.
abbrev pub Done : Policy → Evicted → Type 0
Done p r = (within_limits r.left p ≡ true) ⊎ All (IsClaimed r.dir) r.left

evict_loop-Done :
    (p : Policy) (dir : ProjectDir) (n : ℕ) (passed es : List Entry)
    → All (IsClaimed dir) passed
    → Done p (evict_loop p dir n passed es)
unfolding evict_loop
evict_loop-Done p dir n passed [] h = inr h
evict_loop-Done p dir n passed (e ∷ es) h = elim (Bool-cases (within_limits (passed ++ e ∷ es) p)) [
  | inl fits ↦ rw fits (inl fits)
  | inr over ↦ elim (Bool-cases (ltb 0 (active_claims dir e.base))) [
    | inl busy ↦
        rw (over, busy)
          (evict_loop-Done p dir n (passed ++ e ∷ []) es
            (All-snoc (IsClaimed dir) passed e h (ground (arith, busy))))
    | inr idle ↦
        rw (over, idle)
          (evict_loop-Done p (remove_entry e.base dir) (n + 1) passed es
            (All-IsClaimed-remove dir e.base passed (ground (arith, idle)) h))
  ]
]

-- When `EvictLRU` returns, the entries that are left are within both limits or every one of them has
-- an active claim.
pub evict_entries-Done :
    (p : Policy) (dir : ProjectDir) (es : List Entry) → Done p (evict_entries p dir es)
unfolding evict_entries
evict_entries-Done p dir es = elim (Bool-cases (within_limits es p)) [
  | inl fits ↦ rw fits (inl fits)
  | inr over ↦ rw over (evict_loop-Done p dir 0 [] (sort_by is_older es) tt)
]
