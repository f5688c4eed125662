-- ===== src/Model/State.antt =====
-- internal/model/model.go: `RunState`, `Valid`, `CanTransition`, `Transition`, `IsTerminal`.
use vci.Base.{
  ℕ, ◌≡◌, refl, Bool, true, false, not, ◌&&◌, ◌||◌, [], arith, ◌==◌, if◌then◌else◌, Text, text_eq,
  text_eq_iff, Result, ok, err,
}

-- A run state is a string in Go. `other` holds a string that is none of the ten constants.
pub data RunState : Type 0 where
  queued staging running committing succeeded failed lost aborted unavailable aggregating : RunState
  other : Text → RunState

abbrev tag : RunState → ℕ
tag queued = 0
tag staging = 1
tag running = 2
tag committing = 3
tag succeeded = 4
tag failed = 5
tag lost = 6
tag aborted = 7
tag unavailable = 8
tag aggregating = 9
tag (other t) = 10

abbrev text_of : RunState → Text
text_of (other t) = t
text_of _ = []

-- `==` on run states.
abbrev pub state_eq : RunState → RunState → Bool
state_eq a b = tag a == tag b && text_eq (text_of a) (text_of b)

unfoldable pub valid : RunState → Bool
valid (other t) = false
valid _ = true

unfoldable pub is_terminal : RunState → Bool
is_terminal succeeded = true
is_terminal failed = true
is_terminal lost = true
is_terminal aborted = true
is_terminal unavailable = true
is_terminal _ = false

-- The `switch` of `CanTransition`, for `from != to`.
unfoldable pub next : RunState → RunState → Bool
next queued to = state_eq to staging || state_eq to aborted || state_eq to unavailable
next staging to =
    state_eq to running || state_eq to lost || state_eq to aborted || state_eq to unavailable
next running to =
    state_eq to committing
    || state_eq to failed
    || state_eq to lost
    || state_eq to aborted
    || state_eq to unavailable
next committing to =
    state_eq to succeeded
    || state_eq to failed
    || state_eq to lost
    || state_eq to aborted
    || state_eq to unavailable
next lost to = state_eq to aborted
next _ to = false

unfoldable pub can_transition : RunState → RunState → Bool
unfolding next
can_transition from to =
    if state_eq from to
    then not (state_eq from succeeded)
      && not (state_eq from failed)
      && not (state_eq from lost)
      && not (state_eq from aborted)
      && not (state_eq from unavailable)
    else next from to

pub data TransitionError : Type 0 where
  invalid illegal : TransitionError

unfoldable pub transition : RunState → RunState → Result TransitionError (Unit {0})
unfolding valid can_transition
transition from to =
    if not (valid from) || not (valid to)
    then err invalid
    else if not (can_transition from to)
    then err illegal
    else ok tt

pub state_eq_refl : (a : RunState) → state_eq a a ≡ true
state_eq_refl queued = (text_eq_iff [] []).1 refl
state_eq_refl (other t) = (text_eq_iff t t).1 refl
state_eq_refl _ = (text_eq_iff [] []).1 refl

pub state_eq_sound : (a b : RunState) → state_eq a b ≡ true → a ≡ b
state_eq_sound a b h = ground (arith, text_eq_iff (text_of a) (text_of b))
