-- ===== src/App/Fanout.antt =====
-- internal/app/fanout.go: `DispatchPending`, `ResolveTarget` and the summary of a build request.
use vci.Base.{
  ℕ, ◌+◌, Bool, ◌&&◌, List, [], ◌∷◌, ltb, if◌then◌else◌, length, Result, ok, err, ◌>>=◌, Text,
  text_eq, is_empty,
}
use vci.App.Abort.{has_children, release_quietly, request_of}
use vci.Config.Types.{Config}
use vci.Model.State.{RunState, aborted, failed, lost, state_eq, succeeded, unavailable}
use vci.Scheduler.Operations.{reserve}
use vci.Store.Aggregate.{aggregate_state}
use vci.Store.Disk.{Disk}
use vci.Store.Record.{RunRecord, StoreError, not_exist}
use vci.Store.Runs.{load}
use vci.Store.Scans.{load_children, load_queued_children}

-- The loop of `DispatchPending`. `launch` is the start of a worker process: true if it started.
unfoldable pub dispatch_each : (Text → Bool) → ℕ → Config → ℕ → Disk → List RunRecord → Disk
dispatch_each launch clock cfg now d [] = d
dispatch_each launch clock cfg now d (c ∷ cs) =
    let (d', reserved) = reserve load clock d cfg c.machine c.id now in
    elim reserved [
      | err e ↦ dispatch_each launch clock cfg now d' cs
      | ok _ ↦
          dispatch_each launch clock cfg now
            (if launch c.id then d' else release_quietly clock d' c.machine c.id) cs
    ]

unfoldable pub dispatch_pending : (Text → Bool) → ℕ → Config → ℕ → Disk → Disk
dispatch_pending launch clock cfg now d =
    dispatch_each launch clock cfg now d (load_queued_children d)

pub data TargetError : Type 0 where
  run_not_found : TargetError
  target_store : StoreError → TargetError
  machine_required no_such_target : TargetError

abbrev find_target : Text → List RunRecord → Result TargetError Text
find_target machine [] = err no_such_target
find_target machine (c ∷ cs) =
    let rest = find_target machine cs in if text_eq c.machine machine then ok c.id else rest

abbrev among : Text → Result StoreError (List RunRecord) → Result TargetError Text
among machine (err e) = err (target_store e)
among machine (ok cs) = if is_empty machine then err machine_required else find_target machine cs

unfoldable pub resolve_target : Disk → Text → Text → Result TargetError Text
resolve_target d id machine = elim (load d id) [
  | err not_exist ↦ err run_not_found
  | err e ↦ err (target_store e)
  | ok r ↦
      if has_children (request_of d r)
      then among machine (load_children d (request_of d r).id)
      else ok id
]

-- The counters of a `BuildSummary`.
pub record Counters : Type 0 where
  pub succeeded : ℕ
  pub failed : ℕ
  pub lost : ℕ
  pub unavailable : ℕ
  pub aborted : ℕ

abbrev pub count_target : RunState → Counters → Counters
count_target succeeded n = record n { succeeded = n.succeeded + 1 }
count_target failed n = record n { failed = n.failed + 1 }
count_target lost n = record n { lost = n.lost + 1 }
count_target unavailable n = record n { unavailable = n.unavailable + 1 }
count_target aborted n = record n { aborted = n.aborted + 1 }
count_target _ n = n

unfoldable pub count_targets : Counters → List RunRecord → Counters
count_targets n [] = n
count_targets n (c ∷ cs) = count_targets (count_target c.state n) cs

pub data Warning : Type 0 where
  all_unavailable_warning : Warning
  some_unavailable_warning : ℕ → ℕ → Warning

-- The part of `BuildSummary` that does not come from the result files and the logs.
pub record Summary : Type 0 where
  pub run_id : Text
  pub targets : List (Text × RunState)
  pub state : RunState
  pub counters : Counters
  pub no_machine_responded : Bool
  pub warnings : List Warning

abbrev target_views : List RunRecord → List (Text × RunState)
target_views [] = []
target_views (c ∷ cs) = (c.machine, c.state) ∷ target_views cs

abbrev pub zero_counters : Counters
zero_counters = record { succeeded = 0; failed = 0; lost = 0; unavailable = 0; aborted = 0 }

abbrev summary_warnings : RunState → Bool → Counters → ℕ → List Warning
summary_warnings state no_machine n total =
    if no_machine
    then all_unavailable_warning ∷ []
    else if ltb 0 n.unavailable && state_eq state succeeded
    then some_unavailable_warning n.unavailable total ∷ []
    else []

unfoldable pub summarize : RunRecord → List RunRecord → Summary
summarize parent cs =
    let n = count_targets zero_counters cs in
    let (state, no_machine) = aggregate_state cs (state_eq parent.state aborted) in
    record {
      run_id = parent.id;
      targets = target_views cs;
      state = state;
      counters = n;
      no_machine_responded = no_machine;
      warnings = summary_warnings state no_machine n (length cs);
    }

unfoldable pub parent_summary : Disk → RunRecord → Result StoreError Summary
parent_summary d parent = load_children d parent.id >>= λ cs. ok (summarize parent cs)
