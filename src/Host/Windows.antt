-- ===== src/Host/Windows.antt =====
-- internal/host/ssh.go: `IsWindowsOS`, `WindowsRemotePath`, `cmdWord`, `composeShellWindows` and the choice
-- that `composeShell` makes between the shells.
use vci.Base.{
  Bool, not, ◌&&◌, ◌||◌, List, [], ◌∷◌, ◌++◌, ◌==◌, if◌then◌else◌, all, Result, ok, err, ◌>>◌, Text,
  codes, is_empty,
}
use vci.Config.Strings.{contains, equal_fold, trim_space}
use vci.Host.Paths.{HostError, argv_empty, validate_remote_path}
use vci.Host.Shell.{Env, command_steps, is_shell_safe, preamble, sorted_keys, value_of}

unfoldable pub is_windows_os : Text → Bool
is_windows_os os = equal_fold (trim_space os) (codes "windows")

unfoldable pub backslashes : Text → Text
backslashes [] = []
backslashes (c ∷ cs) = (if c == b'/' then b'\\' else c) ∷ backslashes cs

-- The first `~` only.
unfoldable pub replace_home : Text → Text
replace_home [] = []
replace_home (c ∷ cs) =
    let rest = replace_home cs in if c == b'~' then codes "%USERPROFILE%" ++ cs else c ∷ rest

unfoldable pub windows_remote_path : Text → Text
unfolding backslashes replace_home
windows_remote_path work_dir = replace_home (backslashes work_dir)

-- `^[A-Za-z0-9_./:\\@~-]+$`
unfoldable pub cmd_safe : Text → Bool
unfolding is_shell_safe
cmd_safe s = not (is_empty s) && all (λ c. is_shell_safe c || c == b'\\') s

unfoldable pub cmd_word : Text → Text → Text
unfolding windows_remote_path cmd_safe
cmd_word work_dir arg =
    if contains arg work_dir
    then windows_remote_path arg
    else if is_empty arg
    then codes "\"\""
    else if cmd_safe arg
    then arg
    else b'"' ∷ arg ++ b'"' ∷ []

unfoldable pub cmd_words : Text → List Text → Text
cmd_words work_dir [] = []
cmd_words work_dir (arg ∷ []) = cmd_word work_dir arg
cmd_words work_dir (arg ∷ a ∷ rest) = cmd_word work_dir arg ++ b' ' ∷ cmd_words work_dir (a ∷ rest)

unfoldable pub settings : Env → List Text → Text
unfolding value_of
settings env [] = []
settings env (k ∷ ks) =
    let rest = settings env ks in
    if is_empty k then rest else codes " && set \"" ++ k ++ b'=' ∷ value_of env k ++ b'"' ∷ rest

unfoldable pub compose_shell_windows : Text → List Text → Env → Text
unfolding windows_remote_path settings sorted_keys cmd_words
compose_shell_windows work_dir argv env =
    let win = windows_remote_path work_dir in
    codes "cd /D \""
    ++ win
    ++ codes "\" && set \"HOME="
    ++ win
    ++ codes "\\.home\" && set \"TMPDIR="
    ++ win
    ++ codes "\\.tmp\" && if not exist \""
    ++ win
    ++ codes "\\.home\" mkdir \""
    ++ win
    ++ codes "\\.home\" && if not exist \""
    ++ win
    ++ codes "\\.tmp\" mkdir \""
    ++ win
    ++ codes "\\.tmp\""
    ++ settings env (sorted_keys env)
    ++ codes " && "
    ++ cmd_words work_dir argv

unfoldable pub compose_shell : Text → List Text → Env → Text → Result HostError Text
unfolding is_windows_os
compose_shell work_dir argv env os = do
  validate_remote_path work_dir
  elim argv [
    | [] ↦ err argv_empty
    | a ∷ rest ↦
        if is_windows_os os
        then ok (compose_shell_windows work_dir (a ∷ rest) env)
        else ok (preamble work_dir ++ command_steps work_dir (a ∷ rest) env)
  ]
