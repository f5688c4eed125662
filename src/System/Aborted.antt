-- ===== src/System/Aborted.antt =====
-- internal/app/lifecycle.go: what `Abort` of a build request leaves of the records, the one of the
-- request, those of its targets and those of other runs.
use vci.Base.{
  ℕ, ◌≡◌, refl, sym, ap, ◌∙◌, subst, ◌≢◌, true, false, none, some, List, arith, In, Result, ok,
  Text,
}
use vci.App.Abort.{
  abort_children, abort_record, abort_request, abort_run, has_children, of_store, request_of,
}
use vci.Model.State.{aborted, is_terminal, queued, transition}
use vci.Store.Disk.{Disk}
use vci.Store.Record.{RunRecord, StoreError}
use vci.Store.Runs.{load, transition_run}
use vci.Store.Scans.{load_children, load_each}
use vci.Store.Transitions.{Effect, kept, moved, transition_run-Effect}
use vci.System.AbortLoop.{
  abort_children-frozen, abort_children-healthy, abort_children-stays, abort_children-target,
}
use vci.System.AbortRound.{
  HasWorker, abort_target-asks, abort_target-asks_again, abort_target-frozen, abort_target-queued,
  abortable, works_on,
}
use vci.System.Aborting.{abort_target, abort_target-Quiet}
use vci.System.Cancelling.{marked}
use vci.System.LoadedTargets.{load_each-AreLoaded, load_each-In}

-- What the abortion of the build request `r` leaves: the request and its queued targets are aborted, a
-- target that a worker may be at keeps its state and is asked to cancel, unless it was before, and a
-- target that has ended stays. So does every other run.
pub record Aborts (d d' : Disk) (r : RunRecord) (now : ℕ) : Type 0 where
  pub request : load d' r.id ≡ ok (moved r aborted now)
  pub waiting :
      (c : RunRecord)
      → In c.id r.children
      → load d c.id ≡ ok c
      → c.state ≡ queued
      → load d' c.id ≡ ok (moved c aborted now)
  pub asked :
      (c : RunRecord)
      → In c.id r.children
      → load d c.id ≡ ok c
      → HasWorker c.state
      → c.cancellation_requested_at ≡ none
      → load d' c.id ≡ ok (marked c now)
  pub asked_before :
      (c : RunRecord) (t : ℕ)
      → In c.id r.children
      → load d c.id ≡ ok c
      → HasWorker c.state
      → c.cancellation_requested_at ≡ some t
      → load d' c.id ≡ ok c
  pub stayed :
      (c : RunRecord)
      → In c.id r.children
      → load d c.id ≡ ok c
      → is_terminal c.state ≡ true
      → load d' c.id ≡ ok c
  pub others : (j : Text) → (In j r.children → ⊥) → j ≢ r.id → load d' j ≡ load d j

module _ (clock now : ℕ) (d : Disk) (r : RunRecord) where
  abbrev targets : List RunRecord
  targets = load_each d r.children

  abbrev after_targets : Disk
  after_targets = abort_children clock now d targets

  abbrev after_request : Disk × Result StoreError RunRecord
  after_request = transition_run after_targets r.id aborted now

  module _ (up : d.healthy ≡ true) (loads : load d r.id ≡ ok r) (apart : In r.id r.children → ⊥)
      (may : transition r.state aborted ≡ ok tt) (goes_on : is_terminal r.state ≡ false) where
    target_unique :
        (c : RunRecord) → load d c.id ≡ ok c → (x : RunRecord) → In x targets → x.id ≡ c.id → x ≡ c
    target_unique c l x m e =
        let lx = (load_each-AreLoaded d r.children x m).0 in ground (arith, lx, l, ap (load d) e)

    outsider : (j : Text) → (In j r.children → ⊥) → load after_targets j ≡ load d j
    outsider j n =
        abort_children-stays clock now d targets j (load d j)
          (λ d' x m l.
            (abort_target-Quiet clock now d' x).others j (λ e.
              n (subst (λ i. In i r.children) (sym e) (load_each-AreLoaded d r.children x m).1))
            ∙ l)
          refl

    request_lem :
        (after_request.1 ≡ ok (moved r aborted now))
        × Effect after_targets after_request.0 r.id (moved r aborted now)
    request_lem =
        let (answer, e) =
          transition_run-Effect after_targets r.id aborted now r (outsider r.id apart ∙ loads)
            (abort_children-healthy clock now d targets ∙ up) in
        let m = abortable r now r.state refl may goes_on in
        (answer ∙ m, subst (λ x. Effect after_targets after_request.0 r.id (kept r x)) m e)

    -- What the loop leaves for a target, the request's own step leaves.
    target_then :
        (c s : RunRecord)
        → In c.id r.children
        → load after_targets c.id ≡ ok s
        → load after_request.0 c.id ≡ ok s
    target_then c s m l =
        request_lem.1.others c.id (λ q. apart (subst (λ i. In i r.children) q m)) ∙ l

    target_becomes :
        (c s : RunRecord)
        → is_terminal c.state ≡ false
        → ((d' : Disk)
            → load d' c.id ≡ ok c
            → d'.healthy ≡ true
            → load (abort_target clock now d' c) c.id ≡ ok s)
        → ((d' : Disk) → load d' c.id ≡ ok s → load (abort_target clock now d' c) c.id ≡ ok s)
        → In c.id r.children
        → load d c.id ≡ ok c
        → load after_request.0 c.id ≡ ok s
    target_becomes c s t once again m l = target_then c s m (
        abort_children-target clock now c s t once again d targets
          (load_each-In d r.children c.id c m l) (target_unique c l) l up)

    stayed_target :
        (c : RunRecord)
        → In c.id r.children
        → load d c.id ≡ ok c
        → is_terminal c.state ≡ true
        → load after_request.0 c.id ≡ ok c
    stayed_target c m l t =
        target_then c c m (abort_children-frozen clock now d targets c (target_unique c l) l t)

    queued_target :
        (c : RunRecord)
        → In c.id r.children
        → load d c.id ≡ ok c
        → c.state ≡ queued
        → load after_request.0 c.id ≡ ok (moved c aborted now)
    unfolding is_terminal
    queued_target c m l q =
        target_becomes c (moved c aborted now) (ap is_terminal q)
          (λ d' e h. abort_target-queued clock now d' c e q h)
          (λ d' e. abort_target-frozen clock now d' c (moved c aborted now) e refl) m l

    after_request-Aborts : Aborts d after_request.0 r now
    after_request-Aborts = record {
      request = request_lem.1.stored;
      waiting = queued_target;
      asked = λ c m l w n.
          target_becomes c (marked c now) (works_on c w)
            (λ d' e h. abort_target-asks clock now d' c w n e h)
            (λ d' e. abort_target-asks_again clock now d' c (marked c now) now w refl refl e) m l;
      asked_before = λ c t m l w a.
          target_becomes c c (works_on c w)
            (λ d' e h. abort_target-asks_again clock now d' c c t w refl a e)
            (λ d' e. abort_target-asks_again clock now d' c c t w refl a e) m l;
      stayed = stayed_target;
      others = λ j n k. request_lem.1.others j k ∙ outsider j n;
    }

-- `Abort` of a build request or of one of its targets, where files can be written, the request `r` loads
-- from under its own id, names at least one target and not itself, and is in a state that has not ended
-- and may become aborted. The answer is the aborted request. On the disk afterwards the request is
-- aborted at `now`; of its targets that loaded before, a queued one is aborted at `now`, a staging,
-- running or committing one is marked with a request to cancel at `now` if it had none and is unchanged
-- if it had one, and one that has ended is unchanged; every run that is neither the request nor one of
-- its targets loads as before.
pub abort_run_lem :
    (clock now : ℕ) (d : Disk) (id : Text) (q r : RunRecord)
    → load d id ≡ ok q
    → request_of d q ≡ r
    → load d r.id ≡ ok r
    → d.healthy ≡ true
    → has_children r ≡ true
    → (In r.id r.children → ⊥)
    → transition r.state aborted ≡ ok tt
    → is_terminal r.state ≡ false
    → ((abort_run clock now d id).1 ≡ ok (moved r aborted now))
      × Aborts d (abort_run clock now d id).0 r now
unfolding abort_run abort_record load_children
abort_run_lem clock now d id q r l p lr up many apart may goes_on =
    let e : abort_run clock now d id ≡ abort_request clock now d r = ground (arith, l, p, many) in
    let t : abort_request clock now d r
        ≡ ((after_request clock now d r).0, of_store (after_request clock now d r).1) =
      ground (arith, lr) in
    rw (e ∙ t) (
      ap of_store (request_lem clock now d r up lr apart may goes_on).0,
      after_request-Aborts clock now d r up lr apart may goes_on,
    )
