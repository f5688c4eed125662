-- ===== src/Model/Routes.antt =====
-- internal/model/model.go: the ways of a run through the transition diagram.
use vci.Base.{ℕ, suc, ◌+◌, ◌≤◌, ◌≡◌, refl, sym, ap, ◌∙◌, ◌⊎◌, inl, inr, true, List, [], ◌∷◌, arith}
use vci.Model.Graph.{
  abort, abort_lost, commit, in_committing, in_running, in_staging, lose, rank, rank-climbs,
  rank_bound, skip, stage, start, succeed, ◌⟶◌,
}
use vci.Model.State.{
  RunState, aborted, committing, is_terminal, lost, queued, running, staging, succeeded,
}

-- A sequence of changes of state.
infix 40 ◌⟶*◌
pub data ◌⟶*◌ : RunState → RunState → Type 0 where
  here : {a : RunState} → a ⟶* a
  then : {a b c : RunState} → a ⟶ b → b ⟶* c → a ⟶* c

pub changes : {a b : RunState} → a ⟶* b → ℕ
changes here = 0
changes (then s r) = suc (changes r)

changes-rank : {a b : RunState} (r : a ⟶* b) → changes r + rank a ≤ rank b
unfolding changes
changes-rank here = omega arith
changes-rank (then s r) = omega (arith, rank-climbs s, changes-rank r)

-- A way through the diagram changes the state at most five times.
pub changes_bounded : {a b : RunState} (r : a ⟶* b) → changes r ≤ 5
changes_bounded {b = b} r = omega (arith, changes-rank r, rank_bound b)

terminal_edge : {a b : RunState} → a ⟶ b → is_terminal a ≡ true → (a ≡ lost) × (b ≡ aborted)
unfolding is_terminal
terminal_edge abort_lost t = (refl, refl)
terminal_edge (lose in_staging) t = cc
terminal_edge (lose in_running) t = cc
terminal_edge (lose in_committing) t = cc
terminal_edge (abort in_staging) t = cc
terminal_edge (abort in_running) t = cc
terminal_edge (abort in_committing) t = cc
terminal_edge (skip in_staging) t = cc
terminal_edge (skip in_running) t = cc
terminal_edge (skip in_committing) t = cc
terminal_edge stage t = cc
terminal_edge _ t = cc

stuck : {a b c : RunState} → a ⟶ b → b ⟶ c → is_terminal a ≡ true → ⊥
stuck {c = c} s s' t = omega (arith, rank-climbs s', rank_bound c, ap rank (terminal_edge s t).1)

-- From a terminal state the diagram leads nowhere else, but for a lost run that is aborted.
pub terminal_absorbs :
    {a b : RunState} → a ⟶* b → is_terminal a ≡ true → (b ≡ a) ⊎ ((a ≡ lost) × (b ≡ aborted))
terminal_absorbs here t = inl refl
terminal_absorbs (then s here) t = inr (terminal_edge s t)
terminal_absorbs (then s (then s' r)) t = absurd (stuck s s' t)

pub visited : {a b : RunState} → a ⟶* b → List RunState
visited {a} here = a ∷ []
visited {a} (then s r) = a ∷ visited r

abbrev route : RunState → List RunState
route queued = queued ∷ staging ∷ running ∷ committing ∷ succeeded ∷ []
route staging = staging ∷ running ∷ committing ∷ succeeded ∷ []
route running = running ∷ committing ∷ succeeded ∷ []
route committing = committing ∷ succeeded ∷ []
route a = a ∷ []

route-edge :
    {a b : RunState} → a ⟶ b → (is_terminal b ≡ true → b ≡ succeeded) → route a ≡ a ∷ route b
unfolding is_terminal
route-edge stage h = refl
route-edge start h = refl
route-edge commit h = refl
route-edge succeed h = refl
route-edge _ h = cc (h refl)

visited-route : {a b : RunState} (r : a ⟶* b) → b ≡ succeeded → visited r ≡ route a
unfolding visited is_terminal
visited-route here e = ground arith
visited-route {a} (then s r) e =
    ap (◌∷◌ a) (visited-route r e) ∙ sym (route-edge s (λ t. ground (arith, terminal_absorbs r t)))

-- A run that succeeds has gone from queued through staging, running and committing, once each and
-- in this order.
pub success_route :
    (r : queued ⟶* succeeded) → visited r ≡ queued ∷ staging ∷ running ∷ committing ∷ succeeded ∷ []
success_route r = visited-route r refl
