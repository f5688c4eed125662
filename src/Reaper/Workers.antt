-- ===== src/Reaper/Workers.antt =====
-- internal/reaper/reaper.go, `Run`: the sweep and the leases of workers.
use vci.Base.{
  ℕ, ◌+◌, ◌≤◌, ◌<◌, ◌≡◌, refl, ap, ◌∙◌, inl, inr, Bool, true, false, ◌∷◌, arith, Option-cases, ok,
  Text, text_eq,
}
use vci.Model.Names.{valid_name, valid_run_id-valid_name}
use vci.Model.State.{
  RunState, can_transition, committing, is_terminal, lost, running, staging, transition, valid,
}
use vci.Reaper.Sweep.{
  Swept, action_of, mark_lost, perform, renewal_grace, started_action, sweep_run,
}
use vci.Store.Disk.{Disk, find_dir}
use vci.Store.Exclusion.{HeldBy}
use vci.Store.Immutable.{load-Loaded}
use vci.Store.Lease.{decode_lease, read_lease}
use vci.Store.LeaseLaws.{lease}
use vci.Store.Record.{RunRecord}
use vci.Store.Runs.{load}
use vci.Store.Transitions.{kept, moved, outcome, transition_run-Effect}

-- A run that a worker can hold.
abbrev pub is_started : RunState → Bool
is_started staging = true
is_started running = true
is_started committing = true
is_started _ = false

read_lease-HeldBy :
    (d : Disk) (id owner : Text) (until : ℕ)
    → valid_name id ≡ true
    → HeldBy d id owner until
    → read_lease d id ≡ ok (lease id owner until)
unfolding read_lease decode_lease
read_lease-HeldBy d id owner until v held = elim (Option-cases (find_dir id d.runs)) [
  | inl e ↦ ground (arith, held.0, e)
  | inr (dir, e) ↦ ground (arith, held.0, e, v)
]

action_of-started :
    (clock now : ℕ) (d : Disk) (id : Text) (r : RunRecord)
    → is_started r.state ≡ true
    → action_of clock now d id r ≡ started_action clock now d id r (read_lease d id)
unfolding action_of
action_of-started clock now d id r h = ground arith

-- Up to ten minutes after its lease has run out, the sweep of a run that is staging, running or
-- committing leaves the whole disk as it is and counts the run as active, where files can be written.
pub sweep_run-live :
    (clock now : ℕ) (s : Swept) (id owner : Text) (until : ℕ) (r : RunRecord)
    → load s.disk id ≡ ok r
    → is_started r.state ≡ true
    → HeldBy s.disk id owner until
    → now < until + renewal_grace
    → sweep_run clock now s id ≡ record s { active = id ∷ s.active }
unfolding sweep_run perform
sweep_run-live clock now s id owner until r l st held early =
    let v = valid_run_id-valid_name id (load-Loaded s.disk id r l).name_valid in
    rw
      (
        l,
        sweep_run,
        action_of-started clock now s.disk id r st,
        read_lease-HeldBy s.disk id owner until v held,
      )
      (ground (arith, early))

outcome-lost :
    (r : RunRecord) (now : ℕ) (q : RunState)
    → r.state ≡ q
    → is_started q ≡ true
    → outcome r lost now ≡ ok (moved r lost now)
unfolding transition valid is_terminal can_transition text_eq
outcome-lost r now staging e h = rw e refl
outcome-lost r now running e h = rw e refl
outcome-lost r now committing e h = rw e refl
outcome-lost r now _ e h = cc

-- Ten minutes after its lease has run out, a run that is staging, running or committing is marked as lost
-- by the sweep, where files can be written.
pub sweep_run-stale :
    (clock now : ℕ) (s : Swept) (id owner : Text) (until : ℕ) (r : RunRecord)
    → load s.disk id ≡ ok r
    → is_started r.state ≡ true
    → HeldBy s.disk id owner until
    → until + renewal_grace ≤ now
    → load (sweep_run clock now s id).disk id ≡ ok (moved r lost now)
unfolding sweep_run perform
sweep_run-stale clock now s id owner until r l st held late =
    let v = valid_run_id-valid_name id (load-Loaded s.disk id r l).name_valid in
    let gives_up : started_action clock now s.disk id r (ok (lease id owner until)) ≡ mark_lost =
      ground (arith, late) in
    let action : action_of clock now s.disk id r ≡ mark_lost =
      action_of-started clock now s.disk id r st
      ∙ ap (started_action clock now s.disk id r) (read_lease-HeldBy s.disk id owner until v held)
      ∙ gives_up in
    let e = (transition_run-Effect s.disk id lost now r l held.1).1.stored in
    rw (l, sweep_run, action) (e ∙ ap (λ x. ok (kept r x)) (outcome-lost r now r.state refl st))
