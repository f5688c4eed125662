-- ===== src/Examples/OfModel.antt =====
-- The theorems on the run states, the names, the claim paths and the log limit at concrete values.
use vci.Base.{◌≡◌, ◌↔◌, ◌⊎◌, true, false, ◌||◌, List, [], ◌∷◌, leb, length, take, pos, Text, codes}
use vci.Model.Graph.{can_transition_iff, ◌⟶◌}
use vci.Model.State.{aborted, can_transition, is_terminal, lost}
use vci.Process.Limit.{concat, new, write_all, write_all-limit}

can_transition_iff_example :
    (can_transition lost aborted ≡ true)
    ↔ ((lost ≡ aborted) × (is_terminal lost ≡ false) ⊎ (lost ⟶ aborted))
can_transition_iff_example = can_transition_iff lost aborted

abbrev two_chunks : List Text
two_chunks = codes "abc" ∷ codes "de" ∷ []

write_all-limit_example :
    let l = write_all (new (pos 4)) two_chunks in
    (l.out ≡ take 4 (concat two_chunks))
    × ((leb (length (concat two_chunks)) 4 || l.truncated) ≡ true)
write_all-limit_example = write_all-limit 4 two_chunks
