-- ===== src/System/AbortRound.antt =====
-- internal/app/lifecycle.go: one round of `Abort` over the targets of a build request.
-- The steps of `Abort` read no configuration.
use vci.Base.{
  ℕ, ◌≡◌, refl, sym, ap, ◌∙◌, subst, ◌⊎◌, inl, inr, true, false, none, some, [], arith, pos, Result,
  ok, err, Text, text_eq,
}
use vci.App.Abort.{abort_single, of_store, release_if_ok, release_quietly, released_after}
use vci.Config.Types.{BundleCachePolicy, Config}
use vci.Model.State.{
  RunState, aborted, can_transition, committing, is_terminal, queued, running, staging, transition,
}
use vci.Store.Disk.{Disk}
use vci.Store.Immutable.{load-Loaded}
use vci.Store.Record.{RunRecord, StoreError}
use vci.Store.Runs.{load, request_cancellation, transition_run}
use vci.Store.Transitions.{kept, moved, outcome, transition_run-Effect}
use vci.System.Aborting.{abort_target, release_quietly-load}
use vci.System.Cancelling.{marked, request_again, request_first}
use vci.System.Composites.{abort_target-History}
use vci.System.Histories.{History-frozen}

abbrev no_limits : BundleCachePolicy
no_limits = record { max_entries = pos 0; max_bytes = pos 0; admission_bytes = pos 0 }

abbrev any_config : Config
any_config = record {
  schema_version = pos 0;
  orchestrator = [];
  log_limits = record { stdout_bytes = pos 0; stderr_bytes = pos 0 };
  retention = record { max_bytes = pos 0 };
  machines = [];
  projects = [];
}

-- A record in a state that can be aborted.
pub abortable :
    (r : RunRecord) (now : ℕ) (s : RunState)
    → r.state ≡ s
    → transition s aborted ≡ ok tt
    → is_terminal s ≡ false
    → outcome r aborted now ≡ ok (moved r aborted now)
abortable r now s e t n = ground (arith, e, t, n)

-- A worker may be at the run.
abbrev pub HasWorker : RunState → Type 0
HasWorker s = (s ≡ staging) ⊎ (s ≡ running) ⊎ (s ≡ committing)

pub works_on : (c : RunRecord) → HasWorker c.state → is_terminal c.state ≡ false
unfolding is_terminal
works_on c (inl q) = ap is_terminal q
works_on c (inr (inl q)) = ap is_terminal q
works_on c (inr (inr q)) = ap is_terminal q

module _ (clock now : ℕ) where
  queued_step :
      (d : Disk) (c : RunRecord)
      → c.state ≡ queued
      → abort_single clock now d c ≡ released_after clock c (transition_run d c.id aborted now)
  unfolding abort_single
  queued_step d c q = simp (q, abort_single)

  released_twice-load :
      (c : RunRecord) (j : Text) (p : Disk × Result StoreError RunRecord)
      → load (release_if_ok clock c (released_after clock c p)) j ≡ load p.0 j
  released_twice-load c j (d, err e) = refl
  released_twice-load c j (d, ok s) =
      release_quietly-load clock (release_quietly clock d s.machine c.id) c.machine c.id j
      ∙ release_quietly-load clock d s.machine c.id j

  pub abort_target-queued :
      (d : Disk) (c : RunRecord)
      → load d c.id ≡ ok c
      → c.state ≡ queued
      → d.healthy ≡ true
      → load (abort_target clock now d c) c.id ≡ ok (moved c aborted now)
  unfolding transition is_terminal can_transition text_eq
  abort_target-queued d c l q up =
      let (answer, e) = transition_run-Effect d c.id aborted now c l up in
      subst (λ p. load (release_if_ok clock c p) c.id ≡ ok (moved c aborted now))
        (sym (queued_step d c q))
        (released_twice-load c c.id (transition_run d c.id aborted now)
          ∙ e.stored
          ∙ ap (λ x. ok (kept c x)) (abortable c now queued q refl refl))

  -- A target that has ended is not touched, whatever the record says that was loaded before.
  pub abort_target-frozen :
      (d : Disk) (c r : RunRecord)
      → load d c.id ≡ ok r
      → is_terminal r.state ≡ true
      → load (abort_target clock now d c) c.id ≡ ok r
  abort_target-frozen d c r =
      History-frozen any_config d (abort_target clock now d c) c.id r
        (abort_target-History any_config clock now d c)

  requested-load :
      (c : RunRecord) (j : Text) (p : Disk × Result StoreError RunRecord)
      → load (release_if_ok clock c (p.0, of_store p.1)) j ≡ load p.0 j
  requested-load c j (d, err e) = refl
  requested-load c j (d, ok s) = release_quietly-load clock d c.machine c.id j

  working_step :
      (d : Disk) (c : RunRecord)
      → HasWorker c.state
      → abort_single clock now d c
        ≡ ((request_cancellation d c.id now).0, of_store (request_cancellation d c.id now).1)
  unfolding abort_single
  working_step d c (inl q) = simp (q, abort_single)
  working_step d c (inr (inl q)) = simp (q, abort_single)
  working_step d c (inr (inr q)) = simp (q, abort_single)

  abort_target-working :
      (d : Disk) (c : RunRecord) (j : Text)
      → HasWorker c.state
      → load (abort_target clock now d c) j ≡ load (request_cancellation d c.id now).0 j
  abort_target-working d c j w =
      ap (λ p. load (release_if_ok clock c p) j) (working_step d c w)
      ∙ requested-load c j (request_cancellation d c.id now)

  pub abort_target-asks :
      (d : Disk) (c : RunRecord)
      → HasWorker c.state
      → c.cancellation_requested_at ≡ none
      → load d c.id ≡ ok c
      → d.healthy ≡ true
      → load (abort_target clock now d c) c.id ≡ ok (marked c now)
  abort_target-asks d c w n l up =
      abort_target-working d c c.id w
      ∙ request_first (load-Loaded d c.id c l) now (works_on c w) n up

  pub abort_target-asks_again :
      (d : Disk) (c s : RunRecord) (t : ℕ)
      → HasWorker c.state
      → s.state ≡ c.state
      → s.cancellation_requested_at ≡ some t
      → load d c.id ≡ ok s
      → load (abort_target clock now d c) c.id ≡ ok s
  abort_target-asks_again d c s t w q a l =
      abort_target-working d c c.id w
      ∙ request_again (load-Loaded d c.id s l) now (ap is_terminal q ∙ works_on c w) t a
