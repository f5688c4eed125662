-- ===== src/Worker/Segments.antt =====
-- The segments of a path and of a cleaned path.
use vci.Base.{
  ℕ, ◌≡◌, refl, sym, ap, ◌∙◌, inl, inr, Bool, false, List, [], ◌∷◌, ◌++◌, arith, ◌==◌, Bool-cases,
  All, Text, text_eq, is_empty,
}
use vci.Config.Strings.{cons_segment, dot_dot, split_path}
use vci.Model.Names.{has_slash}
use vci.Worker.Clean.{clean_onto, clean_push, dot, join_segments}
use mathlib.Core.List.{reverse, reverse-cons, append_assoc}

-- A segment that names an entry of a directory.
abbrev pub IsNormal : Text → Type 0
IsNormal s =
    (is_empty s ≡ false)
    × (text_eq s dot ≡ false)
    × (text_eq s dot_dot ≡ false)
    × (has_slash s ≡ false)

abbrev pub NoSlash : Text → Type 0
NoSlash s = has_slash s ≡ false

NoSlash-cons_segment :
    (c : ℕ) (ss : List Text)
    → (c == b'/') ≡ false
    → All NoSlash ss
    → All NoSlash (cons_segment c ss)
unfolding has_slash
NoSlash-cons_segment c [] h a = (rw h refl, tt)
NoSlash-cons_segment c (s ∷ ss) h a = (rw (h, a.0) refl, a.1)

pub NoSlash-split_path : (p : Text) → All NoSlash (split_path p)
unfolding split_path has_slash
NoSlash-split_path [] = (refl, tt)
NoSlash-split_path (c ∷ p) = elim (Bool-cases (c == b'/')) [
  | inl h ↦ rw h (refl, NoSlash-split_path p)
  | inr h ↦ rw h (NoSlash-cons_segment c (split_path p) h (NoSlash-split_path p))
]

-- A segment before a separator is split off.
split_path-segment : (s p : Text) → NoSlash s → split_path (s ++ b'/' ∷ p) ≡ s ∷ split_path p
unfolding split_path has_slash
split_path-segment [] p h = refl
split_path-segment (c ∷ s) p h = ground (arith, split_path-segment s p)

split_path-last : (s : Text) → NoSlash s → split_path s ≡ s ∷ []
unfolding split_path has_slash
split_path-last [] h = refl
split_path-last (c ∷ s) h = ground (arith, split_path-last s)

pub split_path-join :
    (s : Text) (ss : List Text)
    → All NoSlash (s ∷ ss)
    → split_path (join_segments (s ∷ ss)) ≡ s ∷ ss
unfolding join_segments
split_path-join s [] h = split_path-last s h.0
split_path-join s (t ∷ ss) h =
    split_path-segment s (join_segments (t ∷ ss)) h.0 ∙ ap (◌∷◌ s) (split_path-join t ss h.1)

pub split_path-join_before :
    (s : Text) (ss : List Text) (p : Text)
    → All NoSlash (s ∷ ss)
    → split_path (join_segments (s ∷ ss) ++ b'/' ∷ p) ≡ (s ∷ ss) ++ split_path p
unfolding join_segments
split_path-join_before s [] p h = split_path-segment s p h.0
split_path-join_before s (t ∷ ss) p h = rw (append_assoc) (
    split_path-segment s (join_segments (t ∷ ss) ++ b'/' ∷ p) h.0
    ∙ ap (◌∷◌ s) (split_path-join_before t ss p h.1))

pub clean_push-IsNormal :
    (rooted : Bool) (before : List Text) (s : Text)
    → IsNormal s
    → clean_push rooted before s ≡ s ∷ before
unfolding clean_push
clean_push-IsNormal rooted before s h = rw (h.0, h.1, h.2) refl

-- Normal segments are kept, in order.
pub clean_onto-IsNormal :
    (rooted : Bool) (before ss more : List Text)
    → All IsNormal ss
    → clean_onto rooted before (ss ++ more) ≡ clean_onto rooted (reverse ss ++ before) more
unfolding clean_onto
clean_onto-IsNormal rooted before [] more h = refl
clean_onto-IsNormal rooted before (s ∷ ss) more h =
    let grouped : reverse ss ++ (s ∷ before) ≡ reverse (s ∷ ss) ++ before =
      rw (reverse-cons s ss) (sym (append_assoc (reverse ss) (s ∷ []) before)) in
    ap (λ st. clean_onto rooted st (ss ++ more)) (clean_push-IsNormal rooted before s h.0)
    ∙ clean_onto-IsNormal rooted (s ∷ before) ss more h.1
    ∙ ap (λ st. clean_onto rooted st more) grouped
