-- ===== src/Source/Select.antt =====
-- internal/source/select.go: `MatchProject`, `canonicalEntry`, `isStrictAncestor`, `fileVsDirCollision`.
use vci.Base.{
  Bool, false, not, ◌&&◌, ◌||◌, Option, none, some, List, [], ◌∷◌, ◌++◌, ◌==◌, if◌then◌else◌,
  Result, ok, err, Text, codes, text_eq, has_prefix, is_empty,
}
use vci.Config.Strings.{contains, dot_dot, equal_fold, has_char, split_path}
use vci.Worker.Clean.{clean, dot, is_abs, join_path}
use mathlib.Core.List.{reverse}

pub data SourceError : Type 0 where
  entry_empty entry_newline entry_absolute trailing_slash : SourceError
  relative_segment empty_segment escapes_input escapes_root : SourceError
  not_configured entries_collide : SourceError

unfoldable pub exact_match : Text → List Text → Option Text
exact_match name [] = none
exact_match name (c ∷ cs) =
    let rest = exact_match name cs in if text_eq c name then some c else rest

unfoldable pub folded_match : Text → List Text → Option Text
folded_match name [] = none
folded_match name (c ∷ cs) =
    let rest = folded_match name cs in if equal_fold c name then some c else rest

-- Both loops, the exact one first.
unfoldable pub match_project : Text → List Text → Result SourceError Text
unfolding exact_match folded_match
match_project name configured = elim (exact_match name configured) [
  | some c ↦ ok c
  | none ↦ elim (folded_match name configured) [ some c ↦ ok c | none ↦ err not_configured ]
]

unfoldable pub ends_with_slash : Text → Bool
ends_with_slash [] = false
ends_with_slash (c ∷ cs) = if is_empty cs then c == b'/' else ends_with_slash cs

unfoldable pub check_each : List Text → Result SourceError (Unit {0})
check_each [] = ok tt
check_each (s ∷ ss) =
    let rest = check_each ss in
    if text_eq s dot_dot
    then err relative_segment
    else if is_empty s
    then err empty_segment
    else rest

unfoldable pub ends_with : Text → Text → Bool
ends_with s suffix = has_prefix (reverse suffix) (reverse s)

-- The part before the path is cleaned.
unfoldable pub check_raw : Text → Result SourceError (Unit {0})
unfolding ends_with_slash check_each
check_raw p =
    if is_empty p
    then err entry_empty
    else if has_char 10 p
    then err entry_newline
    else if is_abs p
    then err entry_absolute
    else if ends_with_slash p
    then err trailing_slash
    else check_each (split_path p)

-- The part on the cleaned path; `root` is the absolute and clean path of the input's root.
unfoldable pub check_clean : Text → Text → Result SourceError Text
unfolding ends_with
check_clean root c =
    if text_eq c dot || text_eq c dot_dot
    then err relative_segment
    else if has_prefix (codes "../") c || contains c (codes "/../") || ends_with c (codes "/..")
    then err escapes_input
    else (let full = join_path root c in
        if not (text_eq full root) && not (has_prefix (root ++ codes "/") full)
        then err escapes_root
        else ok c)

unfoldable pub canonical_entry : Text → Text → Result SourceError Text
canonical_entry root p = elim (check_raw p) [ err e ↦ err e | ok _ ↦ check_clean root (clean p) ]

unfoldable pub is_strict_ancestor : Text → Text → Bool
is_strict_ancestor a b = if text_eq a b then false else has_prefix (a ++ codes "/") b

-- `lstat` answers whether a path is a directory, where it is there.
unfoldable pub file_vs_dir_collision :
    (Text → Option Bool) → Text → Text → Result SourceError (Unit {0})
unfolding is_strict_ancestor
file_vs_dir_collision lstat a b = elim (lstat a) [
  | none ↦ ok tt
  | some a_is_dir ↦ elim (lstat b) [
    | none ↦ ok tt
    | some b_is_dir ↦
        if (if a_is_dir then b_is_dir else not b_is_dir)
        then ok tt
        else if a_is_dir && is_strict_ancestor a b
        then ok tt
        else if b_is_dir && is_strict_ancestor b a
        then ok tt
        else err entries_collide
  ]
]
