-- ===== src/Host/Shell.antt =====
-- internal/host/ssh.go: `shellQuote`, `shellSafe`, `shellSeed`, `remoteWord` and the script of
-- `composeShell` for a worker with a POSIX shell. The environment is a list of pairs; its keys are sorted.
use vci.Base.{
  ℕ, Bool, not, ◌&&◌, ◌||◌, none, some, List, [], ◌∷◌, ◌++◌, map, ◌==◌, if◌then◌else◌, drop, all,
  sort_by, Text, codes, text_lt, has_prefix, is_empty, lookup,
}
use vci.Config.Strings.{contains}
use vci.Model.Names.{is_alnum}

-- What the replacement of `'` by `'\''` makes of a text.
unfoldable pub escape_quotes : Text → Text
escape_quotes [] = []
escape_quotes (c ∷ cs) =
    let rest = escape_quotes cs in
    if c == b'\'' then b'\'' ∷ b'\\' ∷ b'\'' ∷ b'\'' ∷ rest else c ∷ rest

unfoldable pub shell_quote : Text → Text
unfolding escape_quotes
shell_quote value = b'\'' ∷ escape_quotes value ++ b'\'' ∷ []

-- `[A-Za-z0-9_./:@~-]`
unfoldable pub is_shell_safe : ℕ → Bool
unfolding is_alnum
is_shell_safe c =
    is_alnum c
    || c == b'_'
    || c == b'.'
    || c == b'/'
    || c == b':'
    || c == b'@'
    || c == b'~'
    || c == b'-'

unfoldable pub shell_safe : Text → Bool
unfolding is_shell_safe
shell_safe s = not (is_empty s) && all is_shell_safe s

unfoldable pub shell_seed : Text → Text
unfolding shell_safe shell_quote
shell_seed seed =
    if has_prefix (codes "~/") seed
    then (let suffix = drop 1 seed in
        codes "$HOME" ++ (if shell_safe suffix then suffix else shell_quote suffix))
    else if shell_safe seed
    then seed
    else shell_quote seed

unfoldable pub remote_word : Text → Text
remote_word arg =
    if not (has_prefix (codes "~") arg) then arg else codes "\"$__vci_login_home\"" ++ drop 1 arg

-- One word of the command.
unfoldable pub argument_word : Text → Text → Text
unfolding remote_word shell_safe shell_quote
argument_word work_dir arg =
    if contains arg work_dir && shell_safe arg then remote_word arg else shell_quote arg

unfoldable pub argument_words : Text → List Text → Text
argument_words work_dir [] = []
argument_words work_dir (arg ∷ []) = argument_word work_dir arg
argument_words work_dir (arg ∷ a ∷ rest) =
    argument_word work_dir arg ++ b' ' ∷ argument_words work_dir (a ∷ rest)

abbrev pub Env : Type 0
Env = List (Text × Text)

abbrev pub key_of : Text × Text → Text
key_of (k, v) = k

-- `env[key]`
unfoldable pub value_of : Env → Text → Text
value_of env k = elim (lookup k env) [ none ↦ [] | some v ↦ v ]

unfoldable pub sorted_keys : Env → List Text
sorted_keys env = sort_by text_lt (map key_of env)

unfoldable pub exports : Env → List Text → Text
unfolding value_of
exports env [] = []
exports env (k ∷ ks) =
    let rest = exports env ks in
    if is_empty k
    then rest
    else codes " && export " ++ shell_quote k ++ b'=' ∷ shell_quote (value_of env k) ++ rest

-- The steps before the environment.
unfoldable pub preamble : Text → Text
preamble work_dir =
    codes "cd "
    ++ work_dir
    ++ codes " && __vci_login_home=$HOME && export HOME="
    ++ work_dir
    ++ codes "/.home TMPDIR="
    ++ work_dir
    ++ codes "/.tmp && mkdir -p "
    ++ work_dir
    ++ codes "/.home "
    ++ work_dir
    ++ codes "/.tmp"

-- The steps from the environment on.
unfoldable pub command_steps : Text → List Text → Env → Text
unfolding exports sorted_keys argument_words
command_steps work_dir argv env =
    exports env (sorted_keys env) ++ codes " && exec " ++ argument_words work_dir argv
