-- ===== src/System/Composites.antt =====
-- internal/app/lifecycle.go: `Abort` as a sequence of the system's steps.
use vci.Base.{
  ℕ, ◌≡◌, refl, inl, inr, Bool, List, [], ◌∷◌, arith, if_either, Result, ok, err, Result-cases,
  Text,
}
use vci.App.Abort.{
  AbortError, abort_children, abort_record, abort_run, abort_single, has_children, release_if_ok,
  release_quietly, released_after, request_of,
}
use vci.Config.Types.{Config}
use vci.Model.State.{RunState, aborted, committing, is_terminal, lost, queued, running, staging}
use vci.Store.Disk.{Disk}
use vci.Store.Record.{RunRecord, StoreError}
use vci.Store.Runs.{load, move_to, request, request_cancellation, transition_run}
use vci.System.Steps.{
  History, History-append, KeepsId, Step, beginning, mutates, releases_claim, step,
}

pub move_to-KeepsId : (to : RunState) (now : ℕ) → KeepsId (move_to to now)
move_to-KeepsId to now x r s h = ground (arith, h)

pub request-KeepsId : (healthy : Bool) (id : Text) (now : ℕ) → KeepsId (request healthy id now)
request-KeepsId healthy id now x r s h = ground (arith, h)

module _ (cfg : Config) where
  pub one : {d d' : Disk} → Step cfg d d' → History cfg d d'
  one s = step s beginning

  pub transition_run-History :
      (d : Disk) (id : Text) (to : RunState) (now : ℕ)
      → History cfg d (transition_run d id to now).0
  unfolding transition_run
  transition_run-History d id to now = one (mutates d id (move_to to now) (move_to-KeepsId to now))

  request_cancellation-History :
      (d : Disk) (id : Text) (now : ℕ) → History cfg d (request_cancellation d id now).0
  unfolding request_cancellation
  request_cancellation-History d id now =
      one (mutates d id (request d.healthy id now) (request-KeepsId d.healthy id now))

  release_quietly-History :
      (clock : ℕ) (d : Disk) (machine run_id : Text)
      → History cfg d (release_quietly clock d machine run_id)
  release_quietly-History clock d machine run_id = one (releases_claim clock d machine run_id)

  released_after-History :
      (clock : ℕ) (d : Disk) (r : RunRecord) (p : Disk × Result StoreError RunRecord)
      → History cfg d p.0
      → History cfg d (released_after clock r p).0
  released_after-History clock d r (d', err e) h = h
  released_after-History clock d r (d', ok s) h =
      History-append h (release_quietly-History clock d' s.machine r.id)

  abort_single-History :
      (clock now : ℕ) (d : Disk) (r : RunRecord) (q : RunState)
      → r.state ≡ q
      → History cfg d (abort_single clock now d r).0
  unfolding abort_single
  abort_single-History clock now d r queued e =
      rw (e, abort_single)
        (released_after-History clock d r (transition_run d r.id aborted now)
          (transition_run-History d r.id aborted now))
  abort_single-History clock now d r staging e =
      rw (e, abort_single) (request_cancellation-History d r.id now)
  abort_single-History clock now d r running e =
      rw (e, abort_single) (request_cancellation-History d r.id now)
  abort_single-History clock now d r committing e =
      rw (e, abort_single) (request_cancellation-History d r.id now)
  abort_single-History clock now d r lost e =
      rw (e, abort_single) (release_quietly-History clock d r.machine r.id)
  abort_single-History clock now d r _ e = rw (e, abort_single) beginning

  release_if_ok-History :
      (clock : ℕ) (d : Disk) (c : RunRecord) (p : Disk × Result AbortError RunRecord)
      → History cfg d p.0
      → History cfg d (release_if_ok clock c p)
  release_if_ok-History clock d c (d', err e) h = h
  release_if_ok-History clock d c (d', ok s) h =
      History-append h (release_quietly-History clock d' c.machine c.id)

  pub abort_target-History :
      (clock now : ℕ) (d : Disk) (c : RunRecord)
      → History cfg d (release_if_ok clock c (abort_single clock now d c))
  abort_target-History clock now d c =
      release_if_ok-History clock d c (abort_single clock now d c)
        (abort_single-History clock now d c c.state refl)

  abort_children-History :
      (clock now : ℕ) (d : Disk) (cs : List RunRecord)
      → History cfg d (abort_children clock now d cs)
  unfolding abort_children
  abort_children-History clock now d [] = beginning
  abort_children-History clock now d (c ∷ cs) =
      if_either (History cfg d) (is_terminal c.state) _ _ (abort_children-History clock now d cs) (
        History-append (abort_target-History clock now d c) (
          abort_children-History clock now (release_if_ok clock c (abort_single clock now d c)) cs))

  abort_record-History :
      (clock now : ℕ) (d : Disk) (r : RunRecord) → History cfg d (abort_record clock now d r).0
  unfolding abort_record
  abort_record-History clock now d r =
      if_either (λ (p : Disk × Result AbortError RunRecord). History cfg d p.0) (has_children r) _ _
        (History-append (abort_children-History clock now d _)
          (transition_run-History _ r.id aborted now))
        (abort_single-History clock now d r r.state refl)

  pub abort_run-History :
      (clock now : ℕ) (d : Disk) (id : Text) → History cfg d (abort_run clock now d id).0
  unfolding abort_run
  abort_run-History clock now d id = elim (Result-cases (load d id)) [
    | inl (r, e) ↦ rw (e, abort_run) (abort_record-History clock now d (request_of d r))
    | inr (x, e) ↦ rw (e, abort_run) beginning
  ]
