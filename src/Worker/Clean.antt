-- ===== src/Worker/Clean.antt =====
-- What internal/cli/internal.go uses of package path/filepath on Unix: `Clean`, `Join`, `IsAbs`.
use vci.Base.{
  Bool, true, false, ◌||◌, List, [], ◌∷◌, ◌++◌, if◌then◌else◌, Text, codes, text_eq, has_prefix,
  is_empty,
}
use vci.Config.Strings.{dot_dot, split_path}
use mathlib.Core.List.{reverse}

abbrev pub dot : Text
dot = codes "."

-- A `..` takes the segment before it away; at the root it is dropped, and at the front of a relative path
-- it stays. The segments before it come last first.
abbrev pub climb : Bool → List Text → List Text
climb true [] = []
climb false [] = dot_dot ∷ []
climb rooted (t ∷ ts) = if text_eq t dot_dot then dot_dot ∷ t ∷ ts else ts

unfoldable pub clean_push : Bool → List Text → Text → List Text
clean_push rooted before s =
    if is_empty s || text_eq s dot
    then before
    else if text_eq s dot_dot
    then climb rooted before
    else s ∷ before

unfoldable pub clean_onto : Bool → List Text → List Text → List Text
unfolding clean_push
clean_onto rooted before [] = before
clean_onto rooted before (s ∷ ss) = clean_onto rooted (clean_push rooted before s) ss

unfoldable pub join_segments : List Text → Text
join_segments [] = []
join_segments (s ∷ []) = s
join_segments (s ∷ t ∷ ss) = s ++ b'/' ∷ join_segments (t ∷ ss)

unfoldable pub is_abs : Text → Bool
is_abs p = has_prefix (codes "/") p

abbrev pub or_dot : List Text → Text
or_dot [] = dot
or_dot (s ∷ ss) = join_segments (s ∷ ss)

-- The segments of the cleaned path, in order.
unfoldable pub clean_segments : Text → List Text
unfolding clean_onto is_abs
clean_segments p = reverse (clean_onto (is_abs p) [] (split_path p))

-- `filepath.Clean`
unfoldable pub clean : Text → Text
unfolding clean_segments
clean p =
    if is_empty p
    then dot
    else if is_abs p
    then b'/' ∷ join_segments (clean_segments p)
    else or_dot (clean_segments p)

-- `filepath.Join` of two elements, the first not empty.
unfoldable pub join_path : Text → Text → Text
unfolding clean
join_path a b = if is_empty b then clean a else clean (a ++ b'/' ∷ b)
