-- ===== src/Runtime/Execute.antt =====
-- internal/runtime/docker.go: `Docker.ExecuteSupervised` with its recorder of stderr, and
-- vm.go, `VM.ExecuteSupervised`. What the process does is a parameter; times and signals are left out.
use vci.Base.{
  ℕ, zero, suc, ◌-◌, Bool, false, not, ◌&&◌, Option, none, some, List, [], ◌∷◌, ◌++◌, ltb, ◌==◌,
  if◌then◌else◌, length, take, drop, any, ℤ, pos, negsuc, Result, ok, err, ◌>>=◌, Text, codes,
  is_empty,
}
use vci.Config.Strings.{contains, lower}
use vci.Runtime.Argv.{
  Resources, RuntimeFailure, docker_argv, no_image, no_workspace, runtime_unavailable, vm_argv,
}

-- The error of a runner: none, an exit status, or any other with its message.
pub data Ended : Type 0 where
  fine : Ended
  exit_error : ℤ → Ended
  other_error : Text → Ended

pub record Recorder : Type 0 where
  pub buf : Text
  pub max : ℕ

unfoldable pub record_bytes : Recorder → Text → Recorder
record_bytes r p =
    let all = r.buf ++ p in
    record r { buf = if ltb r.max (length all) then drop (length all - r.max) all else all }

-- The writer behind the recorder takes the first `n` bytes.
unfoldable pub record_write : Recorder → Text × ℕ → Recorder
record_write r (p, zero) = r
record_write r (p, suc n) = record_bytes r (take (suc n) p)

unfoldable pub record_all : Recorder → List (Text × ℕ) → Recorder
record_all r [] = r
record_all r (w ∷ ws) = record_all (record_write r w) ws

abbrev pub max_classify_stderr : ℕ
max_classify_stderr = 65536

abbrev pub image_not_found_signatures : List Text
image_not_found_signatures =
    codes "no such image"
    ∷ codes "manifest unknown"
    ∷ codes "pull access denied"
    ∷ codes "repository does not exist"
    ∷ []

unfoldable pub image_not_found : Option Text → Bool
image_not_found none = false
image_not_found (some buf) =
    not (is_empty buf) && any (contains (lower buf)) image_not_found_signatures

-- What the code reads of a process: its exit code, the error of the runner, and what it wrote to stderr, if
-- that is wanted.
pub record ProcessEnd : Type 0 where
  pub exit_code : ℤ
  pub ended : Ended
  pub stderr : Option (List (Text × ℕ))

unfoldable pub stderr_tail : Option (List (Text × ℕ)) → Option Text
stderr_tail none = none
stderr_tail (some ws) = some (record_all (record { buf = []; max = max_classify_stderr }) ws).buf

abbrev is_125 : ℤ → Bool
is_125 (pos n) = n == 125
is_125 (negsuc n) = false

-- The exit code of the job, or a failure of the runtime.
abbrev pub Judged : Type 0
Judged = Result RuntimeFailure ℤ

unfoldable pub judge_docker : ProcessEnd → Judged
judge_docker r = elim r.ended [
  | fine ↦ ok r.exit_code
  | other_error message ↦ err runtime_unavailable
  | exit_error code ↦
      if not (is_125 code)
      then ok r.exit_code
      else if image_not_found (stderr_tail r.stderr)
      then err no_image
      else err runtime_unavailable
]

abbrev assignments : List (Text × Text) → List Text
assignments [] = []
assignments ((k, v) ∷ rest) = (k ++ b'=' ∷ v) ∷ assignments rest

unfoldable pub tool_env : List (Text × Text) → List Text
tool_env environment =
    codes "PATH=/usr/local/sbin:/usr/local/bin:/usr/sbin:/usr/bin:/sbin:/bin"
    ∷ codes "HOME=/tmp"
    ∷ codes "TMPDIR=/tmp"
    ∷ assignments environment

-- The process of an executable with its arguments and its environment.
abbrev pub Start : Type 0
Start = Text → List Text → List Text → ProcessEnd

unfoldable pub execute_docker :
    (Text → Option Text)
    → Text
    → Text
    → Resources
    → Start
    → List (Text × Text)
    → Text
    → List Text
    → Judged
execute_docker absolute user image res launch environment workspace argv =
    if is_empty workspace then err no_workspace else do
      args ← docker_argv absolute user image res workspace argv
      judge_docker (launch (codes "docker") args (tool_env environment))

unfoldable pub judge_vm : ProcessEnd → Judged
judge_vm r = elim r.ended [
  | fine ↦ ok r.exit_code
  | exit_error code ↦ ok r.exit_code
  | other_error message ↦ err runtime_unavailable
]

unfoldable pub execute_vm :
    (Text → Option Text)
    → Text
    → Text
    → Resources
    → Start
    → List (Text × Text)
    → Text
    → List Text
    → Judged
execute_vm absolute binary snapshot res launch environment workspace argv =
    if is_empty workspace then err no_workspace else do
      args ← vm_argv absolute binary snapshot res workspace argv
      judge_vm (
          launch (if is_empty binary then codes "tart" else binary) (drop 1 args)
            (tool_env environment))
