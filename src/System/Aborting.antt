-- ===== src/System/Aborting.antt =====
-- internal/app/lifecycle.go: what `Abort` of one target leaves of the disk.
use vci.Base.{ℕ, ◌≡◌, refl, ◌∙◌, ◌≢◌, inl, inr, Bool, arith, Result, ok, err, Result-cases, Text}
use vci.App.Abort.{AbortError, abort_single, release_if_ok, release_quietly, released_after}
use vci.Model.State.{RunState, aborted, committing, lost, queued, running, staging}
use vci.Scheduler.Files.{drop_claim, release_claim}
use vci.Store.Disk.{Disk, RunDir}
use vci.Store.Record.{RunRecord, StoreError}
use vci.Store.Runs.{
  Change, commit_change, load, load_path, lock_dir, move_to, mutate, mutate_dir,
  request_cancellation, save_unlocked, transition_run,
}
use vci.System.Claims.{release_claim-runs, under_lock-keeps}
use vci.System.Composites.{move_to-KeepsId, request-KeepsId}
use vci.System.Others.{mutate-load_other, same_runs-load}
use vci.System.Steps.{KeepsId}

save_unlocked-healthy : (d : Disk) (r : RunRecord) → (save_unlocked d r).0.healthy ≡ d.healthy
unfolding save_unlocked
save_unlocked-healthy d r = ground arith

commit_change-healthy :
    (d : Disk) (before : RunRecord) (res : Result StoreError RunRecord)
    → (commit_change d before res).0.healthy ≡ d.healthy
unfolding commit_change
commit_change-healthy d before (err e) = refl
commit_change-healthy d before (ok r) = ground (arith, save_unlocked-healthy d r)

lock_dir-healthy : (d : Disk) (id : Text) → (lock_dir d id).0.healthy ≡ d.healthy
unfolding lock_dir
lock_dir-healthy d id = ground arith

abbrev health_of : Disk → Bool
health_of d = d.healthy

mutate_dir-healthy :
    (id : Text) (change : Change) (d : Disk) (dir : RunDir)
    → (mutate_dir d id dir change).0.healthy ≡ d.healthy
unfolding mutate_dir
mutate_dir-healthy id change d dir = elim (Result-cases (load_path dir.run id)) [
  | inr (x, e) ↦ rw (e, mutate_dir) refl
  | inl (r, e) ↦ rw (e, mutate_dir) (commit_change-healthy _ r (change dir.execution r).1)
]

mutate-healthy :
    (d : Disk) (id : Text) (change : Change) → (mutate d id change).0.healthy ≡ d.healthy
unfolding mutate
mutate-healthy d id change =
    under_lock-keeps health_of _ (mutate_dir-healthy id change) d id (lock_dir-healthy d id)

release_quietly-healthy :
    (clock : ℕ) (d : Disk) (machine run_id : Text)
    → (release_quietly clock d machine run_id).healthy ≡ d.healthy
unfolding release_claim drop_claim
release_quietly-healthy clock d machine run_id = ground arith

pub release_quietly-load :
    (clock : ℕ) (d : Disk) (machine run_id j : Text)
    → load (release_quietly clock d machine run_id) j ≡ load d j
release_quietly-load clock d machine run_id j =
    same_runs-load d (release_quietly clock d machine run_id) j
      (release_claim-runs clock d machine run_id)

-- What a step of the loop keeps: the record of another run, and whether files can be written.
pub record Quiet (d d' : Disk) (id : Text) : Type 0 where
  pub up : d'.healthy ≡ d.healthy
  pub others : (j : Text) → j ≢ id → load d' j ≡ load d j

quiet : (d : Disk) (id : Text) → Quiet d d id
quiet d id = record { up = refl; others = λ j n. refl }

mutate-Quiet :
    (d : Disk) (id : Text) (change : Change) → KeepsId change → Quiet d (mutate d id change).0 id
mutate-Quiet d id change k = record {
  up = mutate-healthy d id change;
  others = λ j n. mutate-load_other d id j change k n;
}

released-Quiet :
    (clock : ℕ) (d d' : Disk) (machine run_id id : Text)
    → Quiet d d' id
    → Quiet d (release_quietly clock d' machine run_id) id
released-Quiet clock d d' machine run_id id q = record {
  up = release_quietly-healthy clock d' machine run_id ∙ q.up;
  others = λ j n. release_quietly-load clock d' machine run_id j ∙ q.others j n;
}

module _ (clock now : ℕ) where
  released_after-Quiet :
      (d : Disk) (r : RunRecord) (p : Disk × Result StoreError RunRecord)
      → Quiet d p.0 r.id
      → Quiet d (released_after clock r p).0 r.id
  released_after-Quiet d r (d', err e) q = q
  released_after-Quiet d r (d', ok s) q = released-Quiet clock d d' s.machine r.id r.id q

  abort_single-Quiet :
      (d : Disk) (r : RunRecord) (s : RunState)
      → r.state ≡ s
      → Quiet d (abort_single clock now d r).0 r.id
  unfolding abort_single transition_run request_cancellation
  abort_single-Quiet d r queued e =
      rw (e, abort_single)
        (released_after-Quiet d r (transition_run d r.id aborted now)
          (mutate-Quiet d r.id (move_to aborted now) (move_to-KeepsId aborted now)))
  abort_single-Quiet d r staging e =
      rw (e, abort_single) (mutate-Quiet d r.id _ (request-KeepsId d.healthy r.id now))
  abort_single-Quiet d r running e =
      rw (e, abort_single) (mutate-Quiet d r.id _ (request-KeepsId d.healthy r.id now))
  abort_single-Quiet d r committing e =
      rw (e, abort_single) (mutate-Quiet d r.id _ (request-KeepsId d.healthy r.id now))
  abort_single-Quiet d r lost e =
      rw (e, abort_single) (released-Quiet clock d d r.machine r.id r.id (quiet d r.id))
  abort_single-Quiet d r _ e = rw (e, abort_single) (quiet d r.id)

  release_if_ok-Quiet :
      (d : Disk) (c : RunRecord) (p : Disk × Result AbortError RunRecord)
      → Quiet d p.0 c.id
      → Quiet d (release_if_ok clock c p) c.id
  release_if_ok-Quiet d c (d', err e) q = q
  release_if_ok-Quiet d c (d', ok s) q = released-Quiet clock d d' c.machine c.id c.id q

  abbrev pub abort_target : Disk → RunRecord → Disk
  abort_target d c = release_if_ok clock c (abort_single clock now d c)

  pub abort_target-Quiet : (d : Disk) (c : RunRecord) → Quiet d (abort_target d c) c.id
  abort_target-Quiet d c =
      release_if_ok-Quiet d c (abort_single clock now d c) (abort_single-Quiet d c c.state refl)
