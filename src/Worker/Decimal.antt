-- ===== src/Worker/Decimal.antt =====
-- What internal/cli/internal.go uses of packages strconv and fmt: decimal numbers that are not negative.
use vci.Base.{
  ℕ, zero, suc, ◌+◌, Bool, true, false, not, ◌&&◌, ◌||◌, Option, none, some, [], ◌∷◌, ◌++◌, ltb,
  leb, ◌==◌, if◌then◌else◌, all, Text, is_empty,
}
use vci.Host.Cache.{decimal_value, is_decimal, max_int}
use Prim.Native.Nat.{◌/◌, ◌%◌}

-- The digits of a number, as `fmt` and `strconv` write them.
unfoldable pub show_digits : ℕ → ℕ → Text
show_digits zero n = []
show_digits (suc fuel) n =
    let more = show_digits fuel (n / 10) in
    if ltb n 10 then (n + b'0') ∷ [] else more ++ (n % 10 + b'0') ∷ []

unfoldable pub show_decimal : ℕ → Text
unfolding show_digits
show_decimal n = show_digits (suc n) n

abbrev pub checked_value : Bool → Text → ℕ → Option ℕ
checked_value negative digits n =
    if is_empty digits
      || not (all is_decimal digits)
      || not (leb n max_int)
      || (negative && not (n == 0))
    then none
    else some n

-- `strconv.Atoi`, or `ParseInt` to the base 10, and the test that the number is not negative.
unfoldable pub parse_count : Text → Option ℕ
parse_count [] = none
parse_count (c ∷ cs) =
    if c == b'-'
    then checked_value true cs (decimal_value 0 cs)
    else if c == b'+'
    then checked_value false cs (decimal_value 0 cs)
    else checked_value false (c ∷ cs) (decimal_value 0 (c ∷ cs))
