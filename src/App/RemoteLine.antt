-- ===== src/App/RemoteLine.antt =====
-- internal/app/remote.go: the line that a client has the coordinator's shell run, read back by a shell.
-- `shellQuote` is the same function as that of internal/host/ssh.go.
use vci.Base.{
  ◌≡◌, refl, sym, ap, ◌∙◌, some, List, [], ◌∷◌, ◌++◌, if◌then◌else◌, ℤ, is_positive, magnitude,
  Text, codes, text_eq, is_empty,
}
use vci.Host.Quoting.{read_on-shell_quote}
use vci.Host.Shell.{shell_quote}
use vci.Host.Words.{
  between, class_of, emit, in_word, next_mode, read_on, read_on-cons, shell_commands,
}
use vci.Model.Names.{is_alnum}
use vci.Worker.Decimal.{show_decimal}
use mathlib.Core.List.{append-nil}

unfoldable pub quoted_words : Text → List Text → Text
quoted_words word [] = shell_quote word
quoted_words word (arg ∷ args) = shell_quote word ++ b' ' ∷ quoted_words arg args

unfoldable pub build_remote_command : Text → List Text → Text
build_remote_command name args = codes "vci " ++ quoted_words name args

abbrev named_machine : Text → List Text
named_machine machine = if is_empty machine then [] else codes "--machine" ∷ machine ∷ []

abbrev count_text : ℤ → Text
count_text tail = show_decimal (magnitude tail)

unfoldable pub log_command : Text → Text → Text → ℤ → Text
log_command id machine stream tail = build_remote_command (codes "logs") (
    id ∷ named_machine machine
    ++ (if text_eq stream (codes "stderr") then codes "--stderr" ∷ [] else [])
    ++ (if is_positive tail then codes "--tail" ∷ count_text tail ∷ [] else []))

unfoldable pub artifact_command : Text → Text → Text → Text
artifact_command id machine rel =
    build_remote_command (codes "artifacts") (codes "get" ∷ named_machine machine ++ id ∷ rel ∷ [])

read_on-quoted_words :
    (word : Text) (args : List Text)
    → read_on between (quoted_words word args) ≡ some ([], word ∷ args, [])
unfolding quoted_words next_mode emit read_on class_of
read_on-quoted_words word [] =
    ap (read_on between) (sym (append-nil (shell_quote word)))
    ∙ read_on-shell_quote word [] ([], [], []) refl
    ∙ ap (λ w. some ([], w ∷ [], [])) (append-nil word)
read_on-quoted_words word (arg ∷ args) =
    read_on-shell_quote word (b' ' ∷ quoted_words arg args) ([], arg ∷ args, [])
      (read_on-cons in_word b' ' (quoted_words arg args) _ (read_on-quoted_words arg args))
    ∙ ap (λ w. some ([], w ∷ arg ∷ args, [])) (append-nil word)

-- The shell of the coordinator reads one command of the line that `buildRemoteCommand` composes. It is
-- `vci` with exactly the words that were passed, whatever characters they hold.
pub build_remote_command_lem :
    (name : Text) (args : List Text)
    → shell_commands (build_remote_command name args) ≡ some ((codes "vci" ∷ name ∷ args) ∷ [])
unfolding build_remote_command shell_commands next_mode emit class_of is_alnum
build_remote_command_lem name args =
    let w = read_on-quoted_words name args in
    let line : read_on between (build_remote_command name args)
        ≡ some ([], codes "vci" ∷ name ∷ args, []) =
      read_on-cons between b'v' (b'c' ∷ b'i' ∷ b' ' ∷ quoted_words name args) _ (
        read_on-cons in_word b'c' (b'i' ∷ b' ' ∷ quoted_words name args) _ (
          read_on-cons in_word b'i' (b' ' ∷ quoted_words name args) _
            (read_on-cons in_word b' ' (quoted_words name args) _ w))) in
    rw (shell_commands, line) refl
