-- ===== src/Examples/OfHost.antt =====
-- Commands over ssh at concrete arguments, and tests of their quoting.
use vci.Base.{
  ◌≡◌, refl, some, List, [], ◌∷◌, ◌++◌, All, ok, err, Text, codes, text_eq, text_lt, has_prefix,
  lookup,
}
use vci.Config.Strings.{
  contains, equal_fold, fold_code, is_control, split_path, trim_left, trim_right, trim_space,
}
use vci.Host.Cache.{find_counts, parse_reap_output}
use vci.Host.Paths.{no_counts, validate_remote_path}
use vci.Host.Script.{IsLiteral, compose_shell_lem, export_commands}
use vci.Host.Shell.{argument_word, preamble, shell_safe, sorted_keys, value_of}
use vci.Host.Windows.{cmd_word, compose_shell, is_windows_os}
use vci.Host.Words.{following_commands}
use vci.Model.Names.{is_alnum, is_name_char, valid_name}

abbrev work_1 : Text
work_1 = codes "~/.vci/state/work/run_1"

abbrev nasty : Text
nasty = codes "it's; rm -rf $HOME"

abbrev nasty_env : List (Text × Text)
nasty_env = (codes "Z", codes "`id`") ∷ (codes "A", nasty) ∷ ([], codes "no key") ∷ []

work_1_valid : validate_remote_path work_1 ≡ ok tt
unfolding validate_remote_path has_prefix is_control split_path text_eq valid_name is_alnum
    is_name_char
work_1_valid = refl

IsLiteral-words : All (IsLiteral work_1) (codes "sh" ∷ nasty ∷ [])
unfolding contains has_prefix shell_safe
IsLiteral-words = (refl, (refl, tt))

compose_shell_lem_example :
    (steps : Text) × (compose_shell work_1 (codes "sh" ∷ nasty ∷ []) nasty_env []
      ≡ ok (preamble work_1 ++ steps))
    × (following_commands steps
        ≡ some (
            export_commands nasty_env (sorted_keys nasty_env)
            ++ (codes "exec" ∷ codes "sh" ∷ nasty ∷ []) ∷ []))
unfolding is_windows_os equal_fold fold_code trim_space trim_left trim_right text_eq
compose_shell_lem_example =
    compose_shell_lem work_1 (codes "sh") [] (nasty ∷ []) nasty_env work_1_valid refl
      IsLiteral-words

-- The keys are sorted, and the empty one is left out.
exported :
    export_commands nasty_env (sorted_keys nasty_env)
    ≡ (codes "export" ∷ (codes "A=" ++ nasty) ∷ []) ∷ (codes "export" ∷ codes "Z=`id`" ∷ []) ∷ []
unfolding sorted_keys value_of text_lt lookup text_eq
exported = refl

-- An argument with the work directory in it is rooted at the login home.
rooted_word :
    argument_word work_1 (codes "~/.vci/state/work/run_1/bin")
    ≡ codes "\"$__vci_login_home\"/.vci/state/work/run_1/bin"
unfolding argument_word contains has_prefix
rooted_word = refl

-- A quote closes the quoting of `cmdWord`, and the second command runs on its own.
broken_windows_quoting : cmd_word work_1 (codes "a\" & del x") ≡ codes "\"a\" & del x\""
unfolding cmd_word contains has_prefix
broken_windows_quoting = refl

-- With the work directory in it, an argument is not quoted at all.
bare_windows_word :
    cmd_word work_1 (codes "~/.vci/state/work/run_1 & del x")
    ≡ codes "%USERPROFILE%\\.vci\\state\\work\\run_1 & del x"
unfolding cmd_word contains has_prefix
bare_windows_word = refl

-- The first match counts, wherever it stands.
counts_found :
    parse_reap_output (codes "warn stale=x stale=12 evicted=3\n")
    ≡ ok (record { stale = 12; evicted = 3 })
unfolding parse_reap_output find_counts
counts_found = refl

no_counts_found : parse_reap_output (codes "stale= evicted=3") ≡ err no_counts
unfolding parse_reap_output find_counts
no_counts_found = refl
