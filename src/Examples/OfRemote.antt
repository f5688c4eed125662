-- ===== src/Examples/OfRemote.antt =====
-- The lines that a client sends to the coordinator.
use vci.Base.{◌≡◌, refl, some, [], ◌∷◌, pos, codes, text_eq}
use vci.App.RemoteLine.{
  artifact_command, build_remote_command, build_remote_command_lem, log_command, quoted_words,
}
use vci.Examples.Fixtures.{mac, run_1}
use vci.Host.Shell.{escape_quotes, shell_quote}
use vci.Host.Words.{shell_commands}
use vci.Worker.Decimal.{show_decimal, show_digits}

-- A command with a quote and a separator in it.
build_remote_command_lem_example :
    shell_commands (build_remote_command (codes "abort") (codes "it's; rm -rf /" ∷ []))
    ≡ some ((codes "vci" ∷ codes "abort" ∷ codes "it's; rm -rf /" ∷ []) ∷ [])
build_remote_command_lem_example =
    build_remote_command_lem (codes "abort") (codes "it's; rm -rf /" ∷ [])

asks_for_logs :
    log_command run_1 [] (codes "stderr") (pos 20)
    ≡ codes "vci 'logs' 'run_1' '--stderr' '--tail' '20'"
unfolding log_command build_remote_command quoted_words shell_quote escape_quotes text_eq
    show_decimal show_digits
asks_for_logs = refl

asks_for_artifact :
    artifact_command run_1 mac (codes "out/a.log")
    ≡ codes "vci 'artifacts' 'get' '--machine' 'mac' 'run_1' 'out/a.log'"
unfolding artifact_command build_remote_command quoted_words shell_quote escape_quotes
asks_for_artifact = refl
