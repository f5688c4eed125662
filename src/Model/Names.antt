-- ===== src/Model/Names.antt =====
-- internal/model/model.go: `ValidRunID`, `ValidName` and the two regular expressions behind them.
use vci.Base.{
  ℕ, ◌≡◌, refl, ◌≢◌, Bool, true, false, ◌&&◌, ◌||◌, [], ◌∷◌, arith, leb, ◌==◌, all, Text,
}

-- `[A-Za-z0-9]`
unfoldable pub is_alnum : ℕ → Bool
is_alnum c = leb b'A' c && leb c b'Z' || leb b'a' c && leb c b'z' || leb b'0' c && leb c b'9'

-- `[A-Za-z0-9._-]`
unfoldable pub is_name_char : ℕ → Bool
unfolding is_alnum
is_name_char c = is_alnum c || c == b'.' || c == b'_' || c == b'-'

-- `^[A-Za-z0-9][A-Za-z0-9._-]*$`; the empty string does not match.
unfoldable pub valid_name : Text → Bool
valid_name [] = false
valid_name (c ∷ cs) = is_alnum c && all is_name_char cs

-- `[A-Za-z0-9._-]+$`
unfoldable pub name_chars : Text → Bool
name_chars [] = false
name_chars (c ∷ cs) = is_name_char c && all is_name_char cs

-- `^run_[A-Za-z0-9._-]+$`
unfoldable pub valid_run_id : Text → Bool
valid_run_id (r ∷ u ∷ n ∷ l ∷ rest) =
    r == b'r' && u == b'u' && n == b'n' && l == b'_' && name_chars rest
valid_run_id _ = false

-- Whether a string holds a path separator.
unfoldable pub has_slash : Text → Bool
has_slash [] = false
has_slash (c ∷ cs) = c == b'/' || has_slash cs

-- Neither a separator nor a dot begins a name, and no name holds a separator.
separators_excluded :
    (is_alnum b'.' ≡ false) × (is_alnum b'/' ≡ false) × (is_name_char b'/' ≡ false)
unfolding is_alnum is_name_char
separators_excluded = (refl, refl, refl)

has_slash-name_chars : (s : Text) → all is_name_char s ≡ true → has_slash s ≡ false
unfolding has_slash
has_slash-name_chars [] h = refl
has_slash-name_chars (c ∷ s) h = ground (arith, separators_excluded, has_slash-name_chars s)

-- The characters of the prefix `run_` are in the classes that `ValidName` asks for.
prefix_classes :
    (is_alnum b'r' ≡ true)
    × (is_name_char b'u' ≡ true)
    × (is_name_char b'n' ≡ true)
    × (is_name_char b'_' ≡ true)
unfolding is_alnum is_name_char
prefix_classes = (refl, refl, refl, refl)

-- A valid run id is also a valid name, so `RunDir` accepts what `ValidRunID` accepts.
pub valid_run_id-valid_name : (s : Text) → valid_run_id s ≡ true → valid_name s ≡ true
unfolding valid_run_id valid_name name_chars
valid_run_id-valid_name (r ∷ u ∷ n ∷ l ∷ []) h = ground (arith, prefix_classes)
valid_run_id-valid_name (r ∷ u ∷ n ∷ l ∷ c ∷ cs) h = ground (arith, prefix_classes)
valid_run_id-valid_name _ h = cc

-- A valid name is one path segment: it is not empty, it holds no separator and it does not begin
-- with a dot, so it is neither `.` nor `..`.
pub valid_name_one_segment :
    (s : Text)
    → valid_name s ≡ true
    → (c : ℕ) × (cs : Text) × (s ≡ c ∷ cs) × (c ≢ b'.') × (has_slash s ≡ false)
unfolding valid_name has_slash
valid_name_one_segment [] h = cc
valid_name_one_segment (c ∷ cs) h = (
  c,
  cs,
  refl,
  ground (arith, separators_excluded),
  ground (arith, separators_excluded, has_slash-name_chars cs),
)
