-- ===== src/Reaper/Cleaned.antt =====
-- internal/reaper/reaper.go, `reapRemoteTurds`: which commands are sent to which hosts.
use vci.Base.{
  ℕ, ◌+◌, ◌≡◌, refl, ap, inl, inr, Bool, true, false, not, ◌||◌, Option, none, some, List, [], ◌∷◌,
  ◌++◌, arith, if◌then◌else◌, Bool-cases, All, ok, err, Result-cases, Text,
}
use vci.Host.Client.{Command, ssh}
use vci.Host.Paths.{HostError, validate_host, work_prefix}
use vci.Host.Reports.{remote_work_dir-validate_remote_path}
use vci.Model.Names.{valid_run_id}
use vci.Model.State.{is_terminal}
use vci.Reaper.Remote.{
  Cleaned, MachineSnapshot, clean_each, clean_host, clean_loaded, cleanup_command, cleanup_line,
  cleanup_remote, is_live, reap_remote_turds, remote_host_for,
}
use vci.Store.Disk.{Disk}
use vci.Store.Immutable.{load-Loaded}
use vci.Store.Lease.{read_lease}
use vci.Store.Record.{RunRecord}
use vci.Store.Runs.{load}
use vci.Store.Scans.{run_ids}
use vci.Store.Transitions.{kept}

-- A command that removes the work directory of a run that has ended and that has no readable lease
-- which is live, on the host that the run's snapshot names.
pub record Justified (decode : Text → Option MachineSnapshot) (now : ℕ) (d : Disk) (c : Command)
    : Type 0 where
  pub id : Text
  pub run : RunRecord
  pub host : Text
  pub os : Text
  pub loaded : load d id ≡ ok run
  pub ended : is_terminal run.state ≡ true
  pub unheld : is_live now (read_lease d id) ≡ false
  pub named : remote_host_for decode run ≡ some (host, os)
  pub host_valid : validate_host host ≡ ok tt
  pub removes : c ≡ ssh (host ∷ cleanup_line (work_prefix ++ id) os ∷ []) none

abbrev pub successes : (Command → Bool) → List Command → ℕ
successes run [] = 0
successes run (c ∷ cs) = successes run cs + (if run c then 1 else 0)

-- The command that is composed for a run, where the checks of the host pass.
cleanup_command_lem :
    (host id os : Text)
    → valid_run_id id ≡ true
    → validate_host host ≡ ok tt
    → cleanup_command host (work_prefix ++ id) os
      ≡ ok (ssh (host ∷ cleanup_line (work_prefix ++ id) os ∷ []) none)
unfolding cleanup_command
cleanup_command_lem host id os h v = rw (v, (remote_work_dir-validate_remote_path id h).1) refl

cleanup_command-refused :
    (host path os : Text) (e : HostError)
    → validate_host host ≡ err e
    → cleanup_command host path os ≡ err e
unfolding cleanup_command
cleanup_command-refused host path os e h = rw h refl

module _ (decode : Text → Option MachineSnapshot) (run : Command → Bool) (now : ℕ) (d : Disk) where
  abbrev AllJustified : Cleaned → Type 0
  AllJustified s = All (Justified decode now d) s.sent × (s.cleaned ≡ successes run s.sent)

  clean_host-Justified :
      (s : Cleaned) (id : Text) (r : RunRecord)
      → load d id ≡ ok r
      → is_terminal r.state ≡ true
      → is_live now (read_lease d id) ≡ false
      → AllJustified s
      → (target : Option (Text × Text)) → remote_host_for decode r ≡ target
      → AllJustified (clean_host decode run s id target)
  unfolding clean_host cleanup_remote
  clean_host-Justified s id r l ended unheld h none n = h
  clean_host-Justified s id r l ended unheld h (some (host, os)) n =
      let v = (load-Loaded d id r l).name_valid in
      rw (clean_host, (remote_work_dir-validate_remote_path id v).0)
        (elim (Result-cases (validate_host host)) [
          | inl (u, e) ↦ rw (cleanup_command_lem host id os v e) (
            (
              record {
                id = id;
                run = r;
                host = host;
                os = os;
                loaded = l;
                ended = ended;
                unheld = unheld;
                named = n;
                host_valid = e;
                removes = refl;
              },
              h.0,
            ),
            ap
                (λ n.
                  n
                  + (if run (ssh (host ∷ cleanup_line (work_prefix ++ id) os ∷ []) none)
                      then 1
                      else 0))
                h.1,
          )
          | inr (e, eq) ↦ rw (cleanup_command-refused host (work_prefix ++ id) os e eq) h
        ])

  clean_loaded-Justified :
      (s : Cleaned) (id : Text)
      → AllJustified s
      → AllJustified (clean_loaded decode run now d s id (load d id))
  unfolding clean_loaded
  clean_loaded-Justified s id h = elim (Result-cases (load d id)) [
    | inr (e, l) ↦ rw l h
    | inl (r, l) ↦
        rw l (elim (Bool-cases (not (is_terminal r.state) || is_live now (read_lease d id))) [
          | inl kept ↦ rw kept h
          | inr gone ↦ rw gone (
              clean_host-Justified s id r l (ground (arith, gone)) (ground (arith, gone)) h
                (remote_host_for decode r) refl)
        ])
  ]

  clean_each-Justified :
      (s : Cleaned) (ids : List Text)
      → AllJustified s
      → AllJustified (clean_each decode run now d s ids)
  unfolding clean_each
  clean_each-Justified s [] h = h
  clean_each-Justified s (id ∷ ids) h =
      clean_each-Justified (clean_loaded decode run now d s id (load d id)) ids
        (clean_loaded-Justified s id h)

  -- Every command that the cleaning of remote hosts sends removes the work directory of one run, on the
  -- host that its snapshot names. The run has ended, and it has no lease file that can be read and whose
  -- expiry lies in the future or less than ten minutes back. The number that is reported is that of the
  -- commands that succeed.
  pub reap_remote_turds-Justified :
      All (Justified decode now d) (reap_remote_turds decode run now d).sent
      × ((reap_remote_turds decode run now d).cleaned
          ≡ successes run (reap_remote_turds decode run now d).sent)
  unfolding reap_remote_turds
  reap_remote_turds-Justified =
      clean_each-Justified (record { cleaned = 0; sent = [] }) (run_ids d.runs) (tt, refl)
