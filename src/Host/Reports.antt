-- ===== src/Host/Reports.antt =====
-- What the coordinator sends to a worker and what it makes of the answer.
use vci.Base.{
  ℕ, ◌≤◌, ◌≡◌, refl, true, false, some, [], ◌∷◌, ◌++◌, arith, ◌==◌, any, all, ok, Text, codes,
  text_eq, has_prefix, is_empty,
}
use vci.Config.Strings.{is_control, split_path}
use vci.Host.Cache.{
  atoi, decimal_value, find_counts, is_decimal, match_counts, max_int, parse_reap_output,
  take_digits,
}
use vci.Host.Paths.{
  HostError, check_segments, evicted_out_of_range, remote_work_dir, stale_out_of_range,
  validate_remote_path, work_prefix,
}
use vci.Model.Names.{is_alnum, is_name_char, valid_name, valid_run_id, valid_run_id-valid_name}

name_char_plain : (c : ℕ) → is_name_char c ≡ true → (is_control c ≡ false) × ((c == b'/') ≡ false)
unfolding is_name_char is_alnum is_control
name_char_plain c h = (ground arith, ground arith)

any_control-name : (s : Text) → all is_name_char s ≡ true → any is_control s ≡ false
any_control-name [] h = refl
any_control-name (c ∷ s) h = ground (arith, name_char_plain c, any_control-name s)

split_path-name : (s : Text) → all is_name_char s ≡ true → split_path s ≡ s ∷ []
unfolding split_path
split_path-name [] h = refl
split_path-name (c ∷ s) h = ground (arith, name_char_plain c, split_path-name s)

valid_name_chars : (s : Text) → valid_name s ≡ true → all is_name_char s ≡ true
unfolding valid_name is_name_char
valid_name_chars [] h = refl
valid_name_chars (c ∷ s) h = ground arith

-- The path that `RemoteWorkDir` composes passes `ValidateRemotePath`, for every valid run id.
pub remote_work_dir-validate_remote_path :
    (id : Text)
    → valid_run_id id ≡ true
    → (remote_work_dir id ≡ ok (work_prefix ++ id))
      × (validate_remote_path (work_prefix ++ id) ≡ ok tt)
unfolding remote_work_dir validate_remote_path has_prefix is_control split_path check_segments
    text_eq
remote_work_dir-validate_remote_path id h =
    let name = valid_run_id-valid_name id h in
    let chars = valid_name_chars id name in
    (rw h refl, rw (any_control-name id chars, split_path-name id chars, name) refl)

-- Decimal digits, at least one, and their value.
abbrev pub IsDecimal : Text → ℕ → Type 0
IsDecimal digits n =
    (is_empty digits ≡ false) × (all is_decimal digits ≡ true) × (decimal_value 0 digits ≡ n)

abbrev pub NoDigit : Text → Type 0
NoDigit [] = Unit
NoDigit (c ∷ cs) = is_decimal c ≡ false

take_digits-append :
    (ds rest : Text)
    → all is_decimal ds ≡ true
    → NoDigit rest
    → take_digits (ds ++ rest) ≡ (ds, rest)
unfolding take_digits
take_digits-append [] [] h n = refl
take_digits-append [] (c ∷ rest) h n = rw n refl
take_digits-append (d ∷ ds) rest h n = ground (arith, take_digits-append ds rest)

match_counts-append :
    (ds es rest : Text) (n m : ℕ)
    → IsDecimal ds n
    → IsDecimal es m
    → NoDigit rest
    → match_counts (codes "stale=" ++ (ds ++ (codes " evicted=" ++ (es ++ rest)))) ≡ some (ds, es)
unfolding match_counts is_decimal
match_counts-append ds es rest n m d e r =
    let first_digits = take_digits-append ds (codes " evicted=" ++ (es ++ rest)) d.1 refl in
    rw (first_digits, take_digits-append es rest e.1 r, d.0, e.0) refl

atoi-IsDecimal :
    (x : HostError) (ds : Text) (n : ℕ) → IsDecimal ds n → n ≤ max_int → atoi x ds ≡ ok n
unfolding atoi
atoi-IsDecimal x ds n d h = ground arith

find_counts-match :
    (c : ℕ) (s : Text) (m : Text × Text)
    → match_counts (c ∷ s) ≡ some m
    → find_counts (c ∷ s) ≡ some m
unfolding find_counts
find_counts-match c s m h = rw (find_counts, h) refl

parse_reap_output-found :
    (out ds es : Text) (n m : ℕ)
    → find_counts out ≡ some (ds, es)
    → atoi stale_out_of_range ds ≡ ok n
    → atoi evicted_out_of_range es ≡ ok m
    → parse_reap_output out ≡ ok (record { stale = n; evicted = m })
unfolding parse_reap_output
parse_reap_output-found out ds es n m f a b = rw (parse_reap_output, f, a, b) refl

-- A report of the form that the worker prints is read as its two counts, where they are in the range of
-- an int and no further digit follows.
pub parse_reap_output_lem :
    (ds es rest : Text) (n m : ℕ)
    → IsDecimal ds n
    → IsDecimal es m
    → NoDigit rest
    → n ≤ max_int
    → m ≤ max_int
    → parse_reap_output (codes "stale=" ++ (ds ++ (codes " evicted=" ++ (es ++ rest))))
      ≡ ok (record { stale = n; evicted = m })
parse_reap_output_lem ds es rest n m d e r hn hm =
    parse_reap_output-found _ ds es n m
      (find_counts-match b's' (codes "tale=" ++ (ds ++ (codes " evicted=" ++ (es ++ rest))))
        (ds, es) (match_counts-append ds es rest n m d e r))
      (atoi-IsDecimal stale_out_of_range ds n d hn) (atoi-IsDecimal evicted_out_of_range es m e hm)
