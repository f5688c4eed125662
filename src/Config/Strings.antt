-- ===== src/Config/Strings.antt =====
-- What config.go and validation.go use of Go's packages `strings`, `unicode` and `path`. A string is
-- here the list of its code points.
use vci.Base.{
  ℕ, ◌+◌, Bool, true, false, ◌&&◌, ◌||◌, List, [], ◌∷◌, map, ltb, leb, ◌==◌, if◌then◌else◌, any,
  Text, codes, text_eq, has_prefix, is_empty, mem_text,
}

-- `unicode.IsSpace`
unfoldable pub is_space : ℕ → Bool
is_space c =
    leb 9 c && leb c 13
    || c == 32
    || c == 133
    || c == 160
    || c == 5760
    || leb 8192 c && leb c 8202
    || c == 8232
    || c == 8233
    || c == 8239
    || c == 8287
    || c == 12288

-- `r < 0x20 || r == 0x7f`
unfoldable pub is_control : ℕ → Bool
is_control c = ltb c 32 || c == 127

-- The characters of ` \t\r\n\v\f\x00`.
unfoldable pub is_blank : ℕ → Bool
is_blank c = leb 9 c && leb c 13 || c == 32 || c == 0

unfoldable pub is_digit : ℕ → Bool
is_digit c = leb b'0' c && leb c b'9'

unfoldable pub is_hex : ℕ → Bool
unfolding is_digit
is_hex c = is_digit c || leb b'a' c && leb c b'f'

-- `strings.Contains`
unfoldable pub contains : Text → Text → Bool
contains [] sub = is_empty sub
contains (c ∷ cs) sub = has_prefix sub (c ∷ cs) || contains cs sub

unfoldable pub has_char : ℕ → Text → Bool
has_char x s = any (λ c. c == x) s

abbrev pub cons_segment : ℕ → List Text → List Text
cons_segment c [] = (c ∷ []) ∷ []
cons_segment c (s ∷ ss) = (c ∷ s) ∷ ss

-- `strings.Split(s, "/")`
unfoldable pub split_path : Text → List Text
split_path [] = [] ∷ []
split_path (c ∷ cs) =
    let rest = split_path cs in if c == b'/' then [] ∷ rest else cons_segment c rest

abbrev pub dot_dot : Text
dot_dot = codes ".."

unfoldable pub has_parent_segment : Text → Bool
unfolding split_path
has_parent_segment s = mem_text dot_dot (split_path s)

unfoldable pub trim_left : Text → Text
trim_left [] = []
trim_left (c ∷ cs) = if is_space c then trim_left cs else c ∷ cs

abbrev cons_trimmed : ℕ → Text → Text
cons_trimmed c [] = if is_space c then [] else c ∷ []
cons_trimmed c (d ∷ ds) = c ∷ d ∷ ds

unfoldable pub trim_right : Text → Text
trim_right [] = []
trim_right (c ∷ cs) = cons_trimmed c (trim_right cs)

-- `strings.TrimSpace`
unfoldable pub trim_space : Text → Text
unfolding trim_left trim_right
trim_space s = trim_right (trim_left s)

-- `unicode.ToLower`, on the code points that it sends to ASCII; the two beyond ASCII are the capital I
-- with a dot and the Kelvin sign. Every other code point stays outside of ASCII and is kept.
unfoldable pub to_lower : ℕ → ℕ
to_lower c =
    if leb b'A' c && leb c b'Z'
    then c + 32
    else if c == 304
    then b'i'
    else if c == 8490
    then b'k'
    else c

unfoldable pub lower : Text → Text
lower [] = []
lower (c ∷ cs) = to_lower c ∷ lower cs

-- Where `path.Match` stands in the syntax of its pattern.
pub data GlobState : Type 0 where
  outside escaped : GlobState
  opened : GlobState
  in_class : Bool → GlobState
  low_escaped after_low high high_escaped : GlobState
  bad_pattern : GlobState

-- A character of a class where an element or the end is due; the flag says whether the end may come.
abbrev element : Bool → ℕ → GlobState
element may_end c =
    if c == b']' && may_end
    then outside
    else if c == b']' || c == b'-'
    then bad_pattern
    else if c == b'\\'
    then low_escaped
    else after_low

abbrev high_end : ℕ → GlobState
high_end c =
    if c == b']' || c == b'-'
    then bad_pattern
    else if c == b'\\'
    then high_escaped
    else in_class true

unfoldable pub glob_step : GlobState → ℕ → GlobState
glob_step outside c = if c == b'\\' then escaped else if c == b'[' then opened else outside
glob_step escaped c = outside
glob_step opened c = if c == b'^' then in_class false else element false c
glob_step (in_class may_end) c = element may_end c
glob_step low_escaped c = after_low
glob_step after_low c = if c == b'-' then high else element true c
glob_step high c = high_end c
glob_step high_escaped c = in_class true
glob_step bad_pattern c = bad_pattern

unfoldable pub glob_end : GlobState → Text → Bool
unfolding glob_step
glob_end outside [] = true
glob_end _ [] = false
glob_end s (c ∷ cs) = glob_end (glob_step s c) cs

-- Whether `path.Match(g, "")` does not answer `ErrBadPattern`.
unfoldable pub valid_glob : Text → Bool
valid_glob g = glob_end outside g

-- The simple folding of the code points that fold to ASCII: the capital letters, the long s and the Kelvin
-- sign.
unfoldable pub fold_code : ℕ → ℕ
fold_code c =
    if leb b'A' c && leb c b'Z'
    then c + 32
    else if c == 383
    then b's'
    else if c == 8490
    then b'k'
    else c

-- `strings.EqualFold`, where one of the two texts is ASCII.
unfoldable pub equal_fold : Text → Text → Bool
unfolding fold_code
equal_fold s t = text_eq (map fold_code s) (map fold_code t)
