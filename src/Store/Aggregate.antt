-- ===== src/Store/Aggregate.antt =====
-- internal/store/store.go: `AggregateState`.
use vci.Base.{
  ℕ, ◌+◌, ◌≤◌, ◌<◌, ◌≡◌, refl, inl, inr, Bool, true, false, ◌&&◌, ◌||◌, Option, none, some, List,
  [], ◌∷◌, arith, ltb, ◌==◌, if◌then◌else◌, Bool-cases, length,
}
use vci.Model.State.{
  RunState, aborted, aggregating, failed, is_terminal, lost, queued, succeeded, unavailable,
}
use vci.Store.Record.{RunRecord}

pub record Tally : Type 0 where
  pub failed : ℕ
  pub lost : ℕ
  pub aborted : ℕ
  pub unavailable : ℕ
  pub terminal : ℕ

abbrev count_state : RunState → Tally → Tally
count_state failed t = record t { failed = t.failed + 1; terminal = t.terminal + 1 }
count_state lost t = record t { lost = t.lost + 1; terminal = t.terminal + 1 }
count_state aborted t = record t { aborted = t.aborted + 1; terminal = t.terminal + 1 }
count_state unavailable t = record t { unavailable = t.unavailable + 1; terminal = t.terminal + 1 }
count_state _ t = record t { terminal = t.terminal + 1 }

-- The loop; `none` is its early return.
unfoldable pub tally : Tally → List RunRecord → Option Tally
tally t [] = some t
tally t (c ∷ cs) = elim (is_terminal c.state) [
  | false ↦ none
  | true ↦ tally (count_state c.state t) cs
]

abbrev verdict : Tally → RunState × Bool
verdict t =
    if t.terminal == 0
    then (aggregating, false)
    else if ltb 0 t.failed || ltb 0 t.lost || ltb 0 t.aborted
    then (failed, false)
    else (succeeded, t.unavailable == t.terminal)

abbrev no_targets : Tally
no_targets = record { failed = 0; lost = 0; aborted = 0; unavailable = 0; terminal = 0 }

unfoldable pub aggregate_state : List RunRecord → Bool → RunState × Bool
unfolding tally
aggregate_state children parent_aborted =
    if parent_aborted
    then (aborted, false)
    else elim (tally no_targets children) [ none ↦ (aggregating, false) | some t ↦ verdict t ]

-- The targets that make a request fail.
abbrev pub is_bad : RunState → Bool
is_bad failed = true
is_bad lost = true
is_bad aborted = true
is_bad _ = false

abbrev pub is_unavailable : RunState → Bool
is_unavailable unavailable = true
is_unavailable _ = false

abbrev pub all_terminal : List RunRecord → Bool
all_terminal [] = true
all_terminal (c ∷ cs) = is_terminal c.state && all_terminal cs

abbrev pub any_bad : List RunRecord → Bool
any_bad [] = false
any_bad (c ∷ cs) = is_bad c.state || any_bad cs

abbrev pub all_unavailable : List RunRecord → Bool
all_unavailable [] = true
all_unavailable (c ∷ cs) = is_unavailable c.state && all_unavailable cs

abbrev pub nonempty : List RunRecord → Bool
nonempty [] = false
nonempty (c ∷ cs) = true

-- The documented reduction, with no counters.
abbrev pub reduction : List RunRecord → RunState × Bool
reduction cs =
    if nonempty cs && all_terminal cs
    then (if any_bad cs then (failed, false) else (succeeded, all_unavailable cs))
    else (aggregating, false)

abbrev bad_count : Tally → ℕ
bad_count t = t.failed + t.lost + t.aborted

-- The counters after the loop, were there no early return.
final : Tally → List RunRecord → Tally
final t [] = t
final t (c ∷ cs) = final (count_state c.state t) cs

tally_closed :
    (t : Tally) (cs : List RunRecord) → all_terminal cs ≡ true → tally t cs ≡ some (final t cs)
unfolding tally final
tally_closed t [] h = refl
tally_closed t (c ∷ cs) h = ground (arith, tally_closed (count_state c.state t) cs)

-- What the counters say of the targets that were counted.
record Counted (t u : Tally) (cs : List RunRecord) : Type 0 where
  total : u.terminal ≡ t.terminal + length cs
  grows : bad_count t ≤ bad_count u
  none_bad : any_bad cs ≡ false → bad_count u ≡ bad_count t
  some_bad : any_bad cs ≡ true → bad_count t < bad_count u
  bounded : u.unavailable ≤ t.unavailable + length cs
  all_down : all_unavailable cs ≡ true → u.unavailable ≡ t.unavailable + length cs
  some_up : all_unavailable cs ≡ false → u.unavailable < t.unavailable + length cs

Counted-step :
    (t u : Tally) (c : RunRecord) (s : RunState) (cs : List RunRecord)
    → c.state ≡ s
    → Counted (count_state s t) u cs
    → Counted t u (c ∷ cs)
Counted-step t u c queued cs e k = ground arith
Counted-step t u c _ cs e k = ground arith

Counted-final : (t : Tally) (cs : List RunRecord) → Counted t (final t cs) cs
unfolding final
Counted-final t [] = ground arith
Counted-final t (c ∷ cs) =
    Counted-step t _ c c.state cs refl (Counted-final (count_state c.state t) cs)

tally_open : (t : Tally) (cs : List RunRecord) → all_terminal cs ≡ false → tally t cs ≡ none
unfolding tally
tally_open t [] h = cc
tally_open t (c ∷ cs) h = ground (arith, tally_open (count_state c.state t) cs)

verdict-reduction :
    (u : Tally) (c : RunRecord) (cs : List RunRecord)
    → Counted no_targets u (c ∷ cs)
    → all_terminal (c ∷ cs) ≡ true
    → verdict u ≡ reduction (c ∷ cs)
verdict-reduction u c cs k h = ground arith

-- With no aborted parent, `AggregateState` computes the documented reduction: aggregating while a
-- target is live or there is none, failed if one failed, was lost or was aborted, and succeeded
-- otherwise, with the flag set exactly if every target was unavailable.
pub aggregate_state-eq-reduction : (cs : List RunRecord) → aggregate_state cs false ≡ reduction cs
unfolding aggregate_state
aggregate_state-eq-reduction [] = refl
aggregate_state-eq-reduction (c ∷ cs) = elim (Bool-cases (all_terminal (c ∷ cs))) [
  | inl closed ↦
      rw (tally_closed no_targets (c ∷ cs) closed)
        (verdict-reduction _ c cs (Counted-final no_targets (c ∷ cs)) closed)
  | inr live ↦ rw (tally_open no_targets (c ∷ cs) live) (ground (arith, live))
]
