-- ===== src/Model/Graph.antt =====
-- internal/model/model.go: the transition diagram of `CanTransition`.
use vci.Base.{
  ℕ, ◌≤◌, ◌<◌, ◌≡◌, refl, sym, ap, subst, ◌≢◌, ◌↔◌, ◌⊎◌, inl, inr, true, false, not, arith,
  Bool-cases, ok, text_eq, text_eq_refl,
}
use vci.Model.State.{
  RunState, aborted, aggregating, can_transition, committing, failed, is_terminal, lost, next,
  other, queued, running, staging, state_eq, state_eq_refl, state_eq_sound, succeeded, transition,
  unavailable, valid,
}

-- The states in which a run may end otherwise than by success or by a command failure.
pub data CanBreak : RunState → Type 0 where
  in_staging : CanBreak staging
  in_running : CanBreak running
  in_committing : CanBreak committing

-- The edges between different states.
infix 40 ◌⟶◌
pub data ◌⟶◌ : RunState → RunState → Type 0 where
  stage : queued ⟶ staging
  start : staging ⟶ running
  commit : running ⟶ committing
  succeed : committing ⟶ succeeded
  fail_command : running ⟶ failed
  fail_commit : committing ⟶ failed
  abort_queued : queued ⟶ aborted
  skip_queued : queued ⟶ unavailable
  lose : {s : RunState} → CanBreak s → s ⟶ lost
  abort : {s : RunState} → CanBreak s → s ⟶ aborted
  skip : {s : RunState} → CanBreak s → s ⟶ unavailable
  abort_lost : lost ⟶ aborted

ruleset edges = (
  stage, start, commit, succeed, fail_command, fail_commit, abort_queued, skip_queued, lose, abort,
  skip, abort_lost, in_staging, in_running, in_committing,
)

next_sound : (a b : RunState) → next a b ≡ true → a ⟶ b
unfolding next
next_sound queued b h = grind (arith, edges)
next_sound staging b h = grind (arith, edges)
next_sound running b h = grind (arith, edges)
next_sound committing b h = grind (arith, edges)
next_sound succeeded b h = grind (arith, edges)
next_sound failed b h = grind (arith, edges)
next_sound lost b h = grind (arith, edges)
next_sound aborted b h = grind (arith, edges)
next_sound unavailable b h = grind (arith, edges)
next_sound aggregating b h = grind (arith, edges)
next_sound (other t) b h = cc

next_complete : {a b : RunState} → a ⟶ b → next a b ≡ true
unfolding next text_eq
next_complete stage = refl
next_complete start = refl
next_complete commit = refl
next_complete succeed = refl
next_complete fail_command = refl
next_complete fail_commit = refl
next_complete abort_queued = refl
next_complete skip_queued = refl
next_complete (lose in_staging) = refl
next_complete (lose in_running) = refl
next_complete (lose in_committing) = refl
next_complete (abort in_staging) = refl
next_complete (abort in_running) = refl
next_complete (abort in_committing) = refl
next_complete (skip in_staging) = refl
next_complete (skip in_running) = refl
next_complete (skip in_committing) = refl
next_complete abort_lost = refl

-- Every edge climbs.
abbrev pub rank : RunState → ℕ
rank queued = 0
rank staging = 1
rank running = 2
rank committing = 3
rank lost = 4
rank _ = 5

pub rank-climbs : {a b : RunState} → a ⟶ b → rank a < rank b
rank-climbs (lose in_staging) = omega arith
rank-climbs (lose in_running) = omega arith
rank-climbs (lose in_committing) = omega arith
rank-climbs (abort in_staging) = omega arith
rank-climbs (abort in_running) = omega arith
rank-climbs (abort in_committing) = omega arith
rank-climbs (skip in_staging) = omega arith
rank-climbs (skip in_running) = omega arith
rank-climbs (skip in_committing) = omega arith
rank-climbs _ = omega arith

pub rank_bound : (a : RunState) → rank a ≤ 5
rank_bound queued = omega arith
rank_bound _ = omega arith

edge_ends_differ : {a b : RunState} → a ⟶ b → a ≢ b
edge_ends_differ s e = omega (arith, rank-climbs s, ap rank e)

-- `from == to` is allowed exactly in the states that are not terminal.
stay_lem : (a : RunState) → can_transition a a ≡ not (is_terminal a)
unfolding can_transition is_terminal text_eq
stay_lem (other t) = ground (arith, text_eq_refl t)
stay_lem queued = refl
stay_lem _ = refl

can_transition_ne : (a b : RunState) → state_eq a b ≡ false → can_transition a b ≡ next a b
unfolding can_transition
can_transition_ne a b h = rw h

stays :
    (a b : RunState)
    → a ≡ b
    → (can_transition a b ≡ true) ↔ ((a ≡ b) × (is_terminal a ≡ false) ⊎ (a ⟶ b))
stays a b e = (
  λ h. inl (e, ground (arith, subst (λ x. can_transition a x ≡ true) (sym e) h, stay_lem a)),
  elim [
    | inl (_, live) ↦ subst (λ x. can_transition a x ≡ true) e (rw (stay_lem a, live))
    | inr s ↦ absurd (edge_ends_differ s e)
  ],
)

moves :
    (a b : RunState)
    → state_eq a b ≡ false
    → ((a ≡ b) × (is_terminal a ≡ false) ⊎ (a ⟶ b))
    → next a b ≡ true
moves a b d (inl (e, _)) = cc (state_eq_refl a, ap (state_eq a) e)
moves a b d (inr s) = next_complete s

-- `CanTransition` allows exactly the edges of the diagram, and to stay in a state that is not terminal.
pub can_transition_iff :
    (a b : RunState) → (can_transition a b ≡ true) ↔ ((a ≡ b) × (is_terminal a ≡ false) ⊎ (a ⟶ b))
can_transition_iff a b = elim (Bool-cases (state_eq a b)) [
  | inl same ↦ stays a b (state_eq_sound a b same)
  | inr differs ↦
      rw (can_transition_ne a b differs) (λ h. inr (next_sound a b h), moves a b differs)
]

-- An abort is legal in every state in which a run is live.
pub abort_always_legal :
    (a : RunState)
    → valid a ≡ true
    → is_terminal a ≡ false
    → a ≢ aggregating
    → transition a aborted ≡ ok tt
unfolding transition is_terminal valid text_eq
abort_always_legal a v t n = ground arith

pub transition-ok :
    (a b : RunState) → transition a b ≡ ok tt → (can_transition a b ≡ true) × (valid b ≡ true)
unfolding transition
transition-ok a b h = (ground arith, ground arith)

-- A legal move either stays in a state that is not terminal or follows an edge.
pub transition_moves :
    (a b : RunState) → transition a b ≡ ok tt → (a ≡ b) × (is_terminal a ≡ false) ⊎ (a ⟶ b)
transition_moves a b h = (can_transition_iff a b).0 (transition-ok a b h).0

-- Out of a terminal state a legal move leads to another state.
pub terminal_move_differs : (a b : RunState) → is_terminal a ≡ true → transition a b ≡ ok tt → a ≢ b
terminal_move_differs a b t h e = elim (transition_moves a b h) [
  | inl (_, live) ↦ cc
  | inr s ↦ edge_ends_differ s e
]
