-- ===== src/Examples/OfRuntime.antt =====
-- The runtimes at concrete processes.
use vci.Base.{ℕ, ◌≡◌, refl, some, List, [], ◌∷◌, pos, ok, err, Text, codes, text_eq, has_prefix}
use vci.Config.Strings.{contains, lower, to_lower}
use vci.Examples.Fixtures.{one_slot}
use vci.Runtime.Argv.{
  cpus_text, located, memory_text, no_image, no_resources, no_workspace, remote_argv,
  runtime_unavailable, vm_argv,
}
use vci.Runtime.Execute.{
  ProcessEnd, execute_docker, exit_error, image_not_found, judge_docker, judge_vm, record_all,
  record_bytes, record_write, stderr_tail,
}
use vci.Runtime.Tail.{Tail, record_all_lem}
use vci.Worker.Decimal.{show_decimal}

-- Two writes, of the second of which the last byte is not taken.
abbrev writes : List (Text × ℕ)
writes = (codes "abc", 3) ∷ (codes "defg", 3) ∷ []

keeps_last_four : (record_all (record { buf = []; max = 4 }) writes).buf ≡ codes "cdef"
unfolding record_all record_write record_bytes
keeps_last_four = refl

record_all_lem_example : Tail 4 (codes "abcdef") (record_all (record { buf = []; max = 4 }) writes)
record_all_lem_example = record_all_lem 4 writes

abbrev ran_125 : Text → ProcessEnd
ran_125 message = record {
  exit_code = pos 125;
  ended = exit_error (pos 125);
  stderr = some ((message, 64) ∷ []);
}

tells_missing_image : judge_docker (ran_125 (codes "Error: No such image: x")) ≡ err no_image
unfolding judge_docker stderr_tail image_not_found record_all record_write record_bytes contains
    lower to_lower has_prefix
tells_missing_image = refl

other_125 : judge_docker (ran_125 (codes "Cannot connect")) ≡ err runtime_unavailable
unfolding judge_docker stderr_tail image_not_found record_all record_write record_bytes contains
    lower to_lower has_prefix
other_125 = refl

vm_ends : judge_vm (ran_125 []) ≡ ok (pos 125)
unfolding judge_vm
vm_ends = refl

needs_workspace :
    execute_docker some (codes "0:0") (codes "x") no_resources (λ exe args env. ran_125 []) [] [] []
    ≡ err no_workspace
unfolding execute_docker
needs_workspace = refl

runs_vm_remotely :
    remote_argv []
      (record one_slot { runtime = codes "vm"; snapshot = codes "s" })
      (codes "~/w")
      (codes "make" ∷ [])
    ≡ ok (
        codes "tart"
        ∷ codes "run"
        ∷ codes "--no-gui"
        ∷ codes "--dir"
        ∷ codes "~/w:/vci/work"
        ∷ codes "--workdir"
        ∷ codes "/vci/work"
        ∷ codes "--cpus"
        ∷ codes "2"
        ∷ codes "--memory"
        ∷ codes "4g"
        ∷ codes "s"
        ∷ codes "--"
        ∷ codes "make"
        ∷ [])
unfolding remote_argv vm_argv located cpus_text memory_text text_eq show_decimal
runs_vm_remotely = refl
