-- ===== src/Runtime/Argv.antt =====
-- internal/runtime/docker.go and vm.go: the argument vectors; internal/app/remote.go, `remoteArgv`.
use vci.Base.{
  ℕ, ◌||◌, Option, none, some, List, [], ◌∷◌, ◌++◌, if◌then◌else◌, ℤ, pos, is_positive, magnitude,
  Result, ok, err, ◌>>=◌, Text, codes, text_eq, is_empty,
}
use vci.Config.Types.{Machine}
use vci.Worker.Decimal.{show_decimal}

pub data RuntimeFailure : Type 0 where
  runtime_unavailable no_image no_workspace no_executable : RuntimeFailure

pub record Resources : Type 0 where
  pub cpus : ℤ
  pub memory : Text

abbrev default_cpus : ℕ
default_cpus = 2

unfoldable pub cpus_text : ℤ → Text
cpus_text z = show_decimal (if is_positive z then magnitude z else default_cpus)

unfoldable pub memory_text : Text → Text
memory_text m = if is_empty m then codes "4g" else m

abbrev workdir : Text
workdir = codes "/vci/work"

-- `place` is `filepath.Abs` for a command of this machine, and keeps the path for a remote one. `user` is
-- the user id with the group id.
module _ (place : Text → Option Text) where
  unfoldable pub located : Text → Result RuntimeFailure Text
  located workspace = elim (place workspace) [ none ↦ err runtime_unavailable | some ws ↦ ok ws ]

  unfoldable pub docker_argv :
      Text → Text → Resources → Text → List Text → Result RuntimeFailure (List Text)
  docker_argv user image r workspace argv =
      if is_empty image || is_empty workspace then err runtime_unavailable else do
        ws ← located workspace
        ok (
            codes "run"
            ∷ codes "--rm"
            ∷ codes "-v"
            ∷ (ws ++ codes ":/vci/work:ro")
            ∷ codes "-w"
            ∷ workdir
            ∷ codes "--network"
            ∷ codes "none"
            ∷ codes "--user"
            ∷ user
            ∷ codes "--cpus"
            ∷ cpus_text r.cpus
            ∷ codes "--memory"
            ∷ memory_text r.memory
            ∷ image
            ∷ argv)

  unfoldable pub vm_argv :
      Text → Text → Resources → Text → List Text → Result RuntimeFailure (List Text)
  vm_argv binary snapshot r workspace argv =
      if is_empty snapshot || is_empty workspace then err runtime_unavailable else do
        ws ← located workspace
        ok (
            (if is_empty binary then codes "tart" else binary)
            ∷ codes "run"
            ∷ codes "--no-gui"
            ∷ codes "--dir"
            ∷ (ws ++ codes ":/vci/work")
            ∷ codes "--workdir"
            ∷ workdir
            ∷ codes "--cpus"
            ∷ cpus_text r.cpus
            ∷ codes "--memory"
            ∷ memory_text r.memory
            ∷ snapshot
            ∷ codes "--"
            ∷ argv)

abbrev pub no_resources : Resources
no_resources = record { cpus = pos 0; memory = [] }

abbrev in_docker : Result RuntimeFailure (List Text) → Result RuntimeFailure (List Text)
in_docker r = r >>= λ args. ok (codes "docker" ∷ args)

unfoldable pub remote_argv : Text → Machine → Text → List Text → Result RuntimeFailure (List Text)
remote_argv user m work_dir command =
    if text_eq m.runtime (codes "docker")
    then in_docker (docker_argv some user m.image no_resources work_dir command)
    else if text_eq m.runtime (codes "vm")
    then vm_argv some (codes "tart") m.snapshot no_resources work_dir command
    else ok command
