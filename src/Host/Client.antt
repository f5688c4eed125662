-- ===== src/Host/Client.antt =====
-- internal/host/ssh.go: `Client` with its commands. The runner is a parameter that is asked with a command
-- and answers what the code reads of it; no runner is `none`.
use vci.Base.{
  zero, Bool, true, false, not, ◌&&◌, Option, none, some, List, [], ◌∷◌, if◌then◌else◌, ℤ, pos,
  Result, ok, err, ◌>>=◌, ◌>>◌, Text, codes,
}
use vci.Config.Strings.{trim_space}
use vci.Host.Paths.{
  Checked, HostError, cancelled, no_payload, no_runner, refuse, remote_exit, transport_failed,
  validate_host, validate_remote_path, validate_seed,
}
use vci.Host.Shell.{shell_seed}
use vci.Host.Windows.{compose_shell}

pub record Command : Type 0 where
  pub executable : Text
  pub args : List Text
  pub stdin : Option Text

-- `exit_code` and the error of `Run`, the error of the context afterwards, and what was written.
pub record Reply : Type 0 where
  pub exit_code : ℤ
  pub run_failed : Bool
  pub context_done : Bool
  pub stdout : Text

abbrev pub Runner : Type 0
Runner = Command → Reply

abbrev pub is_zero : ℤ → Bool
is_zero (pos zero) = true
is_zero _ = false

unfoldable pub need_runner : Option Runner → Result HostError Runner
need_runner none = err no_runner
need_runner (some run) = ok run

unfoldable pub ssh : List Text → Option Text → Command
ssh args stdin = record { executable = codes "ssh"; args = args; stdin = stdin }

-- The tail of the commands that must succeed.
unfoldable pub must_succeed : Reply → Checked
must_succeed r =
    if r.context_done
    then err cancelled
    else if r.run_failed
    then (if not (is_zero r.exit_code) then err (remote_exit r.exit_code) else err transport_failed)
    else refuse (not (is_zero r.exit_code)) (remote_exit r.exit_code)

-- The tail of `RunRemote`: a remote failure is an answer.
unfoldable pub exit_of : Reply → Result HostError ℤ
exit_of r =
    if r.context_done
    then err cancelled
    else if r.run_failed
    then (if not (is_zero r.exit_code) then ok r.exit_code else err transport_failed)
    else ok r.exit_code

unfoldable pub run_remote :
    Option Runner → Text → Text → List Text → List (Text × Text) → Text → Result HostError ℤ
unfolding need_runner ssh exit_of
run_remote runner host work_dir argv env os = do
  validate_host host
  shell ← compose_shell work_dir argv env os
  run ← need_runner runner
  exit_of (run (ssh (host ∷ shell ∷ []) none))

-- The tail of the probes: a remote failure is a miss.
unfoldable pub probe : {A : Type 0} → Reply → A → A → Result HostError A
probe r missed found =
    if r.context_done
    then err cancelled
    else if r.run_failed && is_zero r.exit_code
    then err transport_failed
    else ok (if not (is_zero r.exit_code) then missed else found)

unfoldable pub probe_seed_head : Option Runner → Text → Text → Result HostError Text
unfolding need_runner ssh probe
probe_seed_head runner host seed = do
  validate_host host
  validate_seed seed
  run ← need_runner runner
  let r = run (
      ssh
        (host ∷ codes "git" ∷ codes "-C" ∷ shell_seed seed ∷ codes "rev-parse" ∷ codes "HEAD" ∷ [])
        none)
  probe r [] (trim_space r.stdout)

unfoldable pub need_payload : Option Text → Result HostError Text
need_payload none = err no_payload
need_payload (some payload) = ok payload

unfoldable pub stream_reconstruct : Option Runner → Text → Text → Text → Option Text → Checked
unfolding need_runner need_payload ssh must_succeed
stream_reconstruct runner host seed work_dir payload = do
  validate_host host
  tar ← need_payload payload
  run ← need_runner runner
  validate_seed seed
  validate_remote_path work_dir
  must_succeed (
      run (
        ssh (host ∷ codes "vci" ∷ codes "internal-reconstruct" ∷ work_dir ∷ shell_seed seed ∷ [])
          (some tar)))
