-- ===== src/App/Collected.antt =====
-- internal/app/data.go, `CollectArtifacts`: the cap on the collected artifacts.
use vci.Base.{
  ℕ, ◌+◌, ◌≤◌, ◌≡◌, refl, sym, ap, ◌∙◌, subst, inl, inr, Bool, true, false, not, Option, some, List,
  [], ◌∷◌, ◌++◌, arith, ltb, Bool-cases, Option-cases, if_either, In, Text,
}
use vci.App.Artifacts.{
  Collection, WorkspaceFile, artifact_cap_bytes, collect_artifacts, collect_file, collect_files,
  collect_globs, empty_collection, match_workspace_glob,
}
use vci.App.Configure.{found}

abbrev pub total : List WorkspaceFile → ℕ
total [] = 0
total (f ∷ fs) = f.size + total fs

total-snoc :
    (fs : List WorkspaceFile) (f : WorkspaceFile) → total (fs ++ f ∷ []) ≡ total fs + f.size
total-snoc [] f = omega arith
total-snoc (g ∷ fs) f = omega (arith, total-snoc fs f)

pub record IsCapped (c : Collection) : Type 0 where
  pub counted : total c.files ≡ c.used
  pub capped : c.used ≤ artifact_cap_bytes

collect_file-IsCapped :
    (c : Collection) (f : WorkspaceFile) → IsCapped c → IsCapped (collect_file c f)
unfolding collect_file
collect_file-IsCapped c f v = ground (arith, total-snoc c.files f, v.counted, v.capped)

collect_files-IsCapped :
    (c : Collection) (fs : List WorkspaceFile) → IsCapped c → IsCapped (collect_files c fs)
unfolding collect_files
collect_files-IsCapped c [] v = v
collect_files-IsCapped c (f ∷ fs) v =
    collect_files-IsCapped (collect_file c f) fs (collect_file-IsCapped c f v)

In-snoc : (f g : WorkspaceFile) (fs : List WorkspaceFile) → In f fs → In f (fs ++ g ∷ [])
In-snoc f g [] h = absurd h
In-snoc f g (x ∷ fs) (inl e) = inl e
In-snoc f g (x ∷ fs) (inr h) = inr (In-snoc f g fs h)

In-last : (f : WorkspaceFile) (fs : List WorkspaceFile) → In f (fs ++ f ∷ [])
In-last f [] = inl refl
In-last f (x ∷ fs) = inr (In-last f fs)

-- A collection grows, and once it is truncated it stays so.
abbrev Grows : Collection → Collection → Type 0
Grows c d =
    ((f : WorkspaceFile) → In f c.files → In f d.files)
    × (d.truncated ≡ false → c.truncated ≡ false)

Grows-trans : (a b c : Collection) → Grows a b → Grows b c → Grows a c
Grows-trans a b c g h = (λ f i. h.0 f (g.0 f i), λ t. g.1 (h.1 t))

collect_file-Grows : (c : Collection) (f : WorkspaceFile) → Grows c (collect_file c f)
unfolding collect_file
collect_file-Grows c f =
    if_either (Grows c) (not f.is_regular) _ _ (λ g i. i, λ t. t)
      (if_either (Grows c) (ltb artifact_cap_bytes (c.used + f.size)) _ _ (λ g i. i, λ t. cc t)
        (λ g i. In-snoc g f c.files i, λ t. t))

collect_files-Grows : (c : Collection) (fs : List WorkspaceFile) → Grows c (collect_files c fs)
unfolding collect_files
collect_files-Grows c [] = (λ f i. i, λ t. t)
collect_files-Grows c (f ∷ fs) =
    Grows-trans c (collect_file c f) (collect_files (collect_file c f) fs) (collect_file-Grows c f)
      (collect_files-Grows (collect_file c f) fs)

collect_file-In :
    (c : Collection) (f : WorkspaceFile)
    → f.is_regular ≡ true
    → (collect_file c f).truncated ≡ false
    → In f (collect_file c f).files
unfolding collect_file
collect_file-In c f r t = elim (Bool-cases (ltb artifact_cap_bytes (c.used + f.size))) [
  | inl big ↦ absurd (ground (arith, big, r, t))
  | inr small ↦
      let taken : (collect_file c f).files ≡ c.files ++ f ∷ [] = ground (arith, small, r) in
      subst (In f) (sym taken) (In-last f c.files)
]

collect_files-In :
    (c : Collection) (fs : List WorkspaceFile) (f : WorkspaceFile)
    → In f fs
    → f.is_regular ≡ true
    → (collect_files c fs).truncated ≡ false
    → In f (collect_files c fs).files
unfolding collect_files
collect_files-In c [] f i r t = absurd i
collect_files-In c (g ∷ fs) f (inr i) r t = collect_files-In (collect_file c g) fs f i r t
collect_files-In c (g ∷ fs) f (inl e) r t =
    let grows = collect_files-Grows (collect_file c g) fs in
    let there = collect_file-In c g (ap (λ x. x.is_regular) e ∙ r) (grows.1 t) in
    grows.0 f (subst (λ x. In x (collect_file c g).files) e there)

collect_globs-IsCapped :
    (matches : Text → Text → Option Bool) (ws : List WorkspaceFile) (c : Collection)
    (gs : List Text)
    → IsCapped c
    → IsCapped (collect_globs matches ws c gs)
unfolding collect_globs
collect_globs-IsCapped matches ws c [] v = v
collect_globs-IsCapped matches ws c (g ∷ gs) v =
    elim (Option-cases (match_workspace_glob matches g ws)) [
      | inl bad ↦ rw (collect_globs, bad) (record { counted = v.counted; capped = v.capped })
      | inr (ms, found) ↦
          rw (collect_globs, found)
            (collect_globs-IsCapped matches ws (collect_files c ms) gs
              (collect_files-IsCapped c ms v))
    ]

collect_globs-Grows :
    (matches : Text → Text → Option Bool) (ws : List WorkspaceFile) (c : Collection)
    (gs : List Text)
    → Grows c (collect_globs matches ws c gs)
unfolding collect_globs
collect_globs-Grows matches ws c [] = (λ f i. i, λ t. t)
collect_globs-Grows matches ws c (g ∷ gs) =
    elim (Option-cases (match_workspace_glob matches g ws)) [
      | inl bad ↦ rw (collect_globs, bad) (λ f i. i, λ t. t)
      | inr (ms, found) ↦
          rw (collect_globs, found)
            (Grows-trans c (collect_files c ms) (collect_globs matches ws (collect_files c ms) gs)
              (collect_files-Grows c ms) (collect_globs-Grows matches ws (collect_files c ms) gs))
    ]

-- The loop has come to an end, and nothing was left out.
abbrev pub IsWhole : Collection → Type 0
IsWhole c = (c.truncated ≡ false) × (c.complete ≡ true)

collect_globs-In :
    (matches : Text → Text → Option Bool) (ws : List WorkspaceFile) (c : Collection)
    (gs : List Text) (g : Text) (ms : List WorkspaceFile) (f : WorkspaceFile)
    → IsWhole (collect_globs matches ws c gs)
    → In g gs
    → match_workspace_glob matches g ws ≡ some ms
    → In f ms
    → f.is_regular ≡ true
    → In f (collect_globs matches ws c gs).files
unfolding collect_globs
collect_globs-In matches ws c [] g ms f w i m k r = absurd i
collect_globs-In matches ws c (h ∷ gs) g ms f w i m k r =
    elim (Option-cases (match_workspace_glob matches h ws)) [
      | inl bad ↦ absurd (cc (rw (collect_globs, bad) at w.1))
      | inr (found, e) ↦ elim i [
        | inr later ↦
            rw (collect_globs, e)
              (collect_globs-In matches ws (collect_files c found) gs g ms f
                (rw (collect_globs, e) at w) later m k r)
        | inl same ↦
            let both : found ≡ ms = cc (e, m, ap (λ x. match_workspace_glob matches x ws) same) in
            let rest = collect_globs-Grows matches ws (collect_files c found) gs in
            let whole : (collect_globs matches ws (collect_files c found) gs).truncated ≡ false =
              rw (collect_globs, e) at w.0 in
            rw (collect_globs, e)
              (rest.0 f (collect_files-In c found f (subst (In f) (sym both) k) r (rest.1 whole)))
      ]
    ]

-- The collected artifacts never hold more bytes than the cap, whatever the patterns find, and whether the
-- collection is marked as truncated or ends at a bad pattern or not.
pub collect_artifacts-capped :
    (matches : Text → Text → Option Bool) (ws : List WorkspaceFile) (gs : List Text)
    → total (collect_artifacts matches ws gs).files ≤ artifact_cap_bytes
unfolding collect_artifacts
collect_artifacts-capped matches ws gs =
    let v =
      collect_globs-IsCapped matches ws empty_collection gs
        (record { counted = refl; capped = omega arith }) in
    omega (arith, v.counted, v.capped)

-- If the collection is not marked as truncated and no pattern was bad, then every regular file of the
-- workspace that one of the patterns finds is among the collected artifacts.
pub collect_artifacts_lem :
    (matches : Text → Text → Option Bool) (ws : List WorkspaceFile) (gs : List Text) (g : Text)
    (ms : List WorkspaceFile) (f : WorkspaceFile)
    → IsWhole (collect_artifacts matches ws gs)
    → In g gs
    → match_workspace_glob matches g ws ≡ some ms
    → In f ms
    → f.is_regular ≡ true
    → In f (collect_artifacts matches ws gs).files
unfolding collect_artifacts
collect_artifacts_lem matches ws gs g ms f w i m k r =
    collect_globs-In matches ws empty_collection gs g ms f w i m k r
