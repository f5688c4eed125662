-- ===== src/Source/Entries.antt =====
-- internal/source/select.go, `canonicalEntry`: what an accepted entry is.
use vci.Base.{
  ◌≡◌, ap, ◌∙◌, inl, inr, false, List, [], ◌∷◌, ◌++◌, arith, Bool-cases, All, ok, Result-cases,
  Text, codes, text_eq, has_prefix, is_empty,
}
use vci.Config.Strings.{dot_dot}
use vci.Source.Select.{canonical_entry, check_clean, check_raw}
use vci.Worker.Clean.{clean, clean_segments, dot, is_abs, join_path, join_segments, or_dot}
use vci.Worker.Joining.{clean_relative, clean_segments-IsNormal, escapes, join_path-below}
use vci.Worker.Segments.{IsNormal}

-- The last checks of an entry that the first ones let pass.
check_clean-ok :
    (root c d : Text)
    → check_clean root c ≡ ok d
    → (d ≡ c) × (text_eq c dot ≡ false) × (escapes c ≡ false)
unfolding check_clean escapes
check_clean-ok root c d h = elim (Bool-cases (text_eq c dot)) [
  | inl x ↦ absurd (ground (arith, x, h))
  | inr x ↦ elim (Bool-cases (text_eq c dot_dot)) [
    | inl y ↦ absurd (ground (arith, x, y, h))
    | inr y ↦ elim (Bool-cases (has_prefix (codes "../") c)) [
      | inl z ↦ absurd (ground (arith, x, y, z, h))
      | inr z ↦ (ground (arith, x, y, z, h), x, ground (arith, y, z))
    ]
  ]
]

check_raw-ok :
    (p : Text) (u : Unit {0}) → check_raw p ≡ ok u → (is_empty p ≡ false) × (is_abs p ≡ false)
unfolding check_raw
check_raw-ok p u h = (ground (arith, h), ground (arith, h))

-- An entry given by its segments that is not `.`.
of_segments :
    (s : Text) (ss : List Text) (c : Text) (ns : List Text)
    → All IsNormal (s ∷ ss)
    → All IsNormal ns
    → c ≡ or_dot ns
    → text_eq c dot ≡ false
    → (n : Text) × (rest : List Text) × All IsNormal (n ∷ rest)
      × (c ≡ join_segments (n ∷ rest))
      × (join_path (b'/' ∷ join_segments (s ∷ ss)) c
          ≡ b'/' ∷ join_segments ((s ∷ ss) ++ (n ∷ rest)))
unfolding text_eq
of_segments s ss c [] h k e not_dot = cc (rw e at not_dot)
of_segments s ss c (n ∷ rest) h k e not_dot = (
  n,
  rest,
  k,
  e,
  ap (join_path (b'/' ∷ join_segments (s ∷ ss))) e ∙ join_path-below s ss (n ∷ rest) h k,
)

-- An accepted entry is a path of normal segments, at least one, so that it names something below the
-- root of the input and never the root itself or anything outside of it, for a root that is absolute
-- and clean.
pub canonical_entry_inside :
    (s : Text) (ss : List Text) (p c : Text)
    → All IsNormal (s ∷ ss)
    → canonical_entry (b'/' ∷ join_segments (s ∷ ss)) p ≡ ok c
    → (n : Text) × (ns : List Text) × All IsNormal (n ∷ ns)
      × (c ≡ join_segments (n ∷ ns))
      × (join_path (b'/' ∷ join_segments (s ∷ ss)) c ≡ b'/' ∷ join_segments ((s ∷ ss) ++ (n ∷ ns)))
unfolding canonical_entry
canonical_entry_inside s ss p c h e = elim (Result-cases (check_raw p)) [
  | inr (x, f) ↦ absurd (ground (arith, f, e))
  | inl (u, f) ↦
      let (filled, relative) = check_raw-ok p u f in
      let (same, not_dot, stays) =
        check_clean-ok (b'/' ∷ join_segments (s ∷ ss)) (clean p) c (rw (canonical_entry, f) at e) in
      let normal = clean_segments-IsNormal p filled relative stays in
      let path = clean_relative p filled relative in
      of_segments s ss c (clean_segments p) h normal (same ∙ path)
        (ap (λ t. text_eq t dot) same ∙ not_dot)
]
