-- ===== src/Host/Entries.antt =====
-- The paths of the entries of a worker's bundle cache.
use vci.Base.{
  ℕ, ◌≡◌, refl, sym, ◌∙◌, inl, inr, true, false, [], ◌∷◌, ◌++◌, arith, ◌==◌, Bool-cases, all, ok,
  Text, codes, is_empty,
}
use vci.Host.Paths.{cache_entry_path, is_segment_char, valid_cache_segment}
use vci.Model.Layout.{append_cancel, split_at_slash}
use vci.Model.Names.{has_slash}
use mathlib.Core.List.{append_assoc}

segment_char_plain : (c : ℕ) → is_segment_char c ≡ true → (c == b'/') ≡ false
unfolding is_segment_char
segment_char_plain c h = ground arith

has_slash-segment : (s : Text) → all is_segment_char s ≡ true → has_slash s ≡ false
unfolding has_slash
has_slash-segment [] h = refl
has_slash-segment (c ∷ s) h = ground (arith, segment_char_plain c, has_slash-segment s)

valid_segment_chars : (s : Text) → valid_cache_segment s ≡ true → all is_segment_char s ≡ true
unfolding valid_cache_segment
valid_segment_chars s h = ground arith

has_slash-valid : (s : Text) → valid_cache_segment s ≡ true → has_slash s ≡ false
has_slash-valid s h = has_slash-segment s (valid_segment_chars s h)

regrouped :
    (root project base : Text)
    → (root ++ codes "/v1/" ++ project) ++ codes "/" ++ base
      ≡ (root ++ codes "/v1/") ++ (project ++ b'/' ∷ base)
regrouped root project base = simp append_assoc

-- What an accepted entry is.
cache_entry_path_parts :
    (root project base path : Text)
    → cache_entry_path root project base ≡ ok path
    → (path ≡ (root ++ codes "/v1/") ++ (project ++ b'/' ∷ base)) × (has_slash project ≡ false)
unfolding cache_entry_path
cache_entry_path_parts root project base path h = elim (Bool-cases (is_empty root)) [
  | inl e ↦ absurd (ground arith)
  | inr e ↦ elim (Bool-cases (valid_cache_segment project)) [
    | inr f ↦ absurd (ground arith)
    | inl p ↦ elim (Bool-cases (valid_cache_segment base)) [
      | inr f ↦ absurd (ground arith)
      | inl b ↦ (ground (arith, regrouped root project base), has_slash-valid project p)
    ]
  ]
]

-- Below one cache root no two entries share a directory: paths that the checks let pass are equal only
-- for the same project and the same base.
pub cache_entry_path_injective :
    (root p q a b path : Text)
    → cache_entry_path root p a ≡ ok path
    → cache_entry_path root q b ≡ ok path
    → (p ≡ q) × (a ≡ b)
cache_entry_path_injective root p q a b path h k =
    let x = cache_entry_path_parts root p a path h in
    let y = cache_entry_path_parts root q b path k in
    split_at_slash p q a b x.1 y.1 (append_cancel (root ++ codes "/v1/") _ _ (sym x.0 ∙ y.0))
