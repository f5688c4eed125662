-- ===== src/Config/Hosted.antt =====
-- internal/config/validation.go: the hosted fallback of a project.
use vci.Base.{
  ℕ, ◌+◌, ◌-◌, ◌*◌, Bool, true, false, not, ◌&&◌, ◌||◌, Option, none, some, [], ◌∷◌, ◌++◌, leb,
  ◌==◌, if◌then◌else◌, length, drop, any, all, Result, ok, err, ◌>>=◌, Text, codes, text_eq,
  has_prefix, is_empty,
}
use vci.Config.Strings.{contains, has_char, is_blank, is_digit, is_hex, lower}
use vci.Config.Types.{HostedFallback}
use vci.Model.Names.{is_name_char}

pub data HostedError : Type 0 where
  not_configured set_together url_empty url_blank url_flag scp_style : HostedError
  password malformed https_user bad_port commit_empty commit_blank commit_malformed : HostedError

-- The longest prefix that passes a test, and the rest.
unfoldable pub span : (ℕ → Bool) → Text → Text × Text
span p [] = ([], [])
span p (c ∷ cs) = let (a, b) = span p cs in if p c then (c ∷ a, b) else ([], c ∷ cs)

-- The rest after the first `sub`, if there is one.
unfoldable pub after : Text → Text → Option Text
after sub [] = if is_empty sub then some [] else none
after sub (c ∷ cs) =
    let later = after sub cs in
    if has_prefix sub (c ∷ cs) then some (drop (length sub) (c ∷ cs)) else later

-- What stands before the last `@`, if there is one.
unfoldable pub before_last_at : Text → Option Text
before_last_at [] = none
before_last_at (c ∷ cs) = elim (before_last_at cs) [
  | some a ↦ some (c ∷ a)
  | none ↦ if c == b'@' then some [] else none
]

abbrev colon_slashes : Text
colon_slashes = codes "://"

abbrev userinfo_has_colon : Option Text → Bool
userinfo_has_colon none = false
userinfo_has_colon (some u) = has_char b':' u

-- The guard against a password in the userinfo.
abbrev guard_password : Option Text → Bool
guard_password none = false
guard_password (some rest) = userinfo_has_colon (before_last_at rest)

-- The submatches of `hostedURLRe`; `user` and `port` are empty where their groups are.
pub record UrlParts : Type 0 where
  pub scheme : Text
  pub user : Text
  pub host : Text
  pub port : Text
  pub path : Text

-- `[^?#\s]`
abbrev is_path_char : ℕ → Bool
is_path_char c =
    not (c == b'?')
    && not (c == b'#')
    && not (c == 32 || leb 9 c && leb c 10 || leb 12 c && leb c 13)

abbrev parse_path : Text → Text → Text → Text → Text → Option UrlParts
parse_path scheme user host port [] = none
parse_path scheme user host port (c ∷ cs) =
    if c == b'/' && all is_path_char cs
    then some (record { scheme = scheme; user = user; host = host; port = port; path = c ∷ cs })
    else none

-- `(:[0-9]+)?`, with its colon.
abbrev parse_port : Text → Text → Text → Text → Option UrlParts
parse_port scheme user host [] = none
parse_port scheme user host (c ∷ cs) =
    let (digits, rest) = span is_digit cs in
    if not (c == b':')
    then parse_path scheme user host [] (c ∷ cs)
    else if is_empty digits
    then none
    else parse_path scheme user host (c ∷ digits) rest

abbrev parse_host : Text → Text → Text → Option UrlParts
parse_host scheme user s =
    let (host, rest) = span is_name_char s in
    if is_empty host then none else parse_port scheme user host rest

-- `([A-Za-z0-9._-]+@)?`, with its `@`. No class of the expression holds the character that ends it,
-- so that the longest runs are the only ones that can match.
abbrev parse_user_end : Text → Text → Text → Text → Option UrlParts
parse_user_end scheme s user [] = parse_host scheme [] s
parse_user_end scheme s user (c ∷ rest) =
    if c == b'@' && not (is_empty user)
    then parse_host scheme (user ++ c ∷ []) rest
    else parse_host scheme [] s

abbrev parse_user : Text → Text → Option UrlParts
parse_user scheme s = let (user, rest) = span is_name_char s in parse_user_end scheme s user rest

abbrev https : Text
https = codes "https"

abbrev ssh : Text
ssh = codes "ssh"

unfoldable pub parse_url : Text → Option UrlParts
parse_url raw =
    if has_prefix (https ++ colon_slashes) raw
    then parse_user https (drop 8 raw)
    else if has_prefix (ssh ++ colon_slashes) raw
    then parse_user ssh (drop 6 raw)
    else none

unfoldable pub decimal : ℕ → Text → ℕ
decimal n [] = n
decimal n (c ∷ cs) = decimal (10 * n + (c - b'0')) cs

-- `strconv.Atoi` fails on a number that does not fit, which is out of range as well.
abbrev port_ok : Text → Bool
port_ok [] = true
port_ok (c ∷ digits) = leb 1 (decimal 0 digits) && leb (decimal 0 digits) 65535

abbrev normalized : UrlParts → Text
normalized m = m.scheme ++ colon_slashes ++ m.user ++ lower m.host ++ m.port ++ m.path

abbrev normalize : UrlParts → Result HostedError Text
normalize m =
    if not (is_empty m.user) && text_eq m.scheme https
    then err https_user
    else if not (port_ok m.port)
    then err bad_port
    else ok (normalized m)

unfoldable pub validate_hosted_url : Text → Result HostedError Text
validate_hosted_url raw =
    if is_empty raw
    then err url_empty
    else if any is_blank raw
    then err url_blank
    else if has_prefix (codes "-") raw
    then err url_flag
    else if not (contains raw colon_slashes)
        && has_char b':' raw
        && not (has_prefix (codes "https:") raw)
        && not (has_prefix (codes "ssh:") raw)
    then err scp_style
    else if guard_password (after colon_slashes raw)
    then err password
    else elim (parse_url raw) [ none ↦ err malformed | some m ↦ normalize m ]

unfoldable pub validate_hosted_commit : Text → Result HostedError Text
validate_hosted_commit raw =
    if is_empty raw
    then err commit_empty
    else if any is_blank raw
    then err commit_blank
    else if not (all is_hex raw && (length raw == 40 || length raw == 64))
    then err commit_malformed
    else ok raw

unfoldable pub validate_hosted : HostedFallback → Result HostedError HostedFallback
validate_hosted h =
    if is_empty h.url && is_empty h.commit
    then err not_configured
    else if is_empty h.url || is_empty h.commit
    then err set_together
    else do
      url ← validate_hosted_url h.url
      sha ← validate_hosted_commit h.commit
      ok (record { url = url; commit = sha })
