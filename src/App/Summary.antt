-- ===== src/App/Summary.antt =====
-- internal/app/fanout.go, `parentSummary`: the counters of a summary and its state.
use vci.Base.{ℕ, ◌+◌, ◌≡◌, sym, ap, ◌∙◌, Bool, true, false, List, [], ◌∷◌, arith, length}
use vci.App.Fanout.{Counters, count_target, count_targets, summarize, zero_counters}
use vci.Model.State.{RunState, aborted, is_terminal, state_eq, succeeded, unavailable}
use vci.Store.Aggregate.{
  aggregate_state, aggregate_state-eq-reduction, all_terminal, any_bad, is_bad, reduction,
}
use vci.Store.Record.{RunRecord}

-- The counters after targets that are done and not bad.
abbrev AllFine : Counters → Counters → ℕ → Type 0
AllFine n n' k =
    (n'.failed ≡ n.failed)
    × (n'.lost ≡ n.lost)
    × (n'.aborted ≡ n.aborted)
    × (n'.succeeded + n'.unavailable ≡ n.succeeded + n.unavailable + k)

count_target-AllFine :
    (n : Counters) (q : RunState)
    → is_terminal q ≡ true
    → is_bad q ≡ false
    → AllFine n (count_target q n) 1
unfolding is_terminal
count_target-AllFine n succeeded t b = ground arith
count_target-AllFine n unavailable t b = ground arith
count_target-AllFine n _ t b = cc

count_targets-AllFine :
    (n : Counters) (cs : List RunRecord)
    → all_terminal cs ≡ true
    → any_bad cs ≡ false
    → AllFine n (count_targets n cs) (length cs)
unfolding count_targets
count_targets-AllFine n [] t b = ground arith
count_targets-AllFine n (c ∷ cs) t b =
    let one = count_target-AllFine n c.state (ground (arith, t)) (ground (arith, b)) in
    let rest =
      count_targets-AllFine (count_target c.state n) cs (ground (arith, t)) (ground (arith, b)) in
    ground (arith, one, rest)

reduction-succeeded :
    (cs : List RunRecord)
    → (reduction cs).0 ≡ succeeded
    → (all_terminal cs ≡ true) × (any_bad cs ≡ false)
reduction-succeeded cs h = ground arith

aggregate_state-succeeded :
    (cs : List RunRecord) (b : Bool)
    → (aggregate_state cs b).0 ≡ succeeded
    → (reduction cs).0 ≡ succeeded
unfolding aggregate_state
aggregate_state-succeeded cs true h = cc
aggregate_state-succeeded cs false h =
    ap (λ (p : RunState × Bool). p.0) (sym (aggregate_state-eq-reduction cs)) ∙ h

-- A summary that reports success has no failed, lost or aborted target, and its succeeded and its
-- unavailable targets are all that the request has.
pub summarize-succeeded :
    (parent : RunRecord) (cs : List RunRecord)
    → (summarize parent cs).state ≡ succeeded
    → ((summarize parent cs).counters.failed ≡ 0)
      × ((summarize parent cs).counters.lost ≡ 0)
      × ((summarize parent cs).counters.aborted ≡ 0)
      × ((summarize parent cs).counters.succeeded + (summarize parent cs).counters.unavailable
          ≡ length cs)
unfolding summarize
summarize-succeeded parent cs h =
    let (t, b) =
      reduction-succeeded cs (aggregate_state-succeeded cs (state_eq parent.state aborted) h) in
    ground (arith, count_targets-AllFine zero_counters cs t b)
