-- ===== src/Scheduler/Choose.antt =====
-- internal/scheduler/scheduler.go: `computeMachineSnapshots`, `chooseSlot` and
-- `validateRunAndCandidates`. The products of the comparison are not bounded here.
use vci.Base.{
  ℕ, ◌*◌, Bool, true, false, not, ◌&&◌, Option, none, some, List, [], ◌∷◌, ltb, leb, ◌==◌,
  if◌then◌else◌, sort_by, Result, ok, err, Text, text_lt, lookup, mem_text,
}
use vci.Config.Defaults.{effective_capacity}
use vci.Config.Types.{Config, Machine}
use vci.Model.Names.{valid_run_id}
use vci.Scheduler.Claims.{SchedulerError, bad_run_id, no_candidates, unknown_machine}

pub record Snapshot : Type 0 where
  pub name : Text
  pub capacity : ℕ
  pub active : ℕ

-- Compares `active / capacity` by cross-multiplication, and then the names.
unfoldable pub less : Snapshot → Snapshot → Bool
less a b =
    let li = a.active * b.capacity in
    let ri = b.active * a.capacity in if not (li == ri) then ltb li ri else text_lt a.name b.name

abbrev pub snapshot_of : (Text → ℕ) → Text × Machine → Snapshot
snapshot_of active (name, machine) = record {
  name = name;
  capacity = effective_capacity machine;
  active = active name;
}

abbrev pub snapshots_of : (Text → ℕ) → List (Text × Machine) → List Snapshot
snapshots_of active [] = []
snapshots_of active (m ∷ ms) = snapshot_of active m ∷ snapshots_of active ms

unfoldable pub compute_machine_snapshots : (Text → ℕ) → Config → List Snapshot
compute_machine_snapshots active cfg = sort_by less (snapshots_of active cfg.machines)

abbrev pub is_eligible : List Text → Snapshot → Bool
is_eligible candidates s = mem_text s.name candidates && not (leb s.capacity s.active)

-- The loop of `chooseSlot`.
unfoldable pub first_free : List Text → List Snapshot → Option Snapshot
first_free candidates [] = none
first_free candidates (s ∷ ss) =
    if is_eligible candidates s then some s else first_free candidates ss

-- `none` is `ErrNoCapacity`.
unfoldable pub choose_slot : (Text → ℕ) → Config → List Text → Option Snapshot
choose_slot active cfg candidates = first_free candidates (compute_machine_snapshots active cfg)

abbrev pub is_known : Option Machine → Bool
is_known none = false
is_known (some m) = true

abbrev pub all_known : Config → List Text → Bool
all_known cfg [] = true
all_known cfg (c ∷ cs) = is_known (lookup c cfg.machines) && all_known cfg cs

abbrev pub no_candidate : List Text → Bool
no_candidate [] = true
no_candidate (c ∷ cs) = false

unfoldable pub validate_run_and_candidates :
    Config → Text → List Text → Result SchedulerError (Unit {0})
validate_run_and_candidates cfg run_id candidates =
    if not (valid_run_id run_id)
    then err bad_run_id
    else if no_candidate candidates
    then err no_candidates
    else if not (all_known cfg candidates)
    then err unknown_machine
    else ok tt
