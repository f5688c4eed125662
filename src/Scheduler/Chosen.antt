-- ===== src/Scheduler/Chosen.antt =====
-- internal/scheduler/scheduler.go, `chooseSlot`: what it answers.
use vci.Base.{
  ℕ, ◌≤◌, ◌<◌, ◌≡◌, refl, sym, ◌∙◌, subst, inl, inr, true, none, some, List, [], ◌∷◌, arith,
  Bool-cases, count, All, count-sort_by, All-sort_by, Text, text_eq_refl, text_eq_iff, lookup,
  mem_text, IsMap,
}
use vci.Config.Defaults.{effective_capacity}
use vci.Config.Types.{Config, Machine}
use vci.Process.Limit.{new}
use vci.Scheduler.Choose.{
  Snapshot, choose_slot, compute_machine_snapshots, first_free, is_eligible, less, snapshots_of,
}

-- A snapshot that shows a machine of the inventory as it is.
abbrev pub Shows : (Text → ℕ) → List (Text × Machine) → Snapshot → Type 0
Shows active ms s =
    (x : Machine) × (lookup s.name ms ≡ some x)
    × (s.capacity ≡ effective_capacity x)
    × (s.active ≡ active s.name)

-- The same in a larger inventory, where the new key is not the snapshot's.
Shows-more :
    (active : Text → ℕ) (k : Text) (y : Machine) (ms : List (Text × Machine)) (ss : List Snapshot)
    → lookup k ms ≡ none
    → All (Shows active ms) ss
    → All (Shows active ((k, y) ∷ ms)) ss
unfolding lookup
Shows-more active k y ms [] new h = tt
Shows-more active k y ms (s ∷ ss) new ((x, e, p, q), h) =
    ((x, ground (arith, text_eq_iff k s.name), p, q), Shows-more active k y ms ss new h)

snapshots_of-Shows :
    (active : Text → ℕ) (ms : List (Text × Machine))
    → IsMap ms
    → All (Shows active ms) (snapshots_of active ms)
unfolding lookup
snapshots_of-Shows active [] m = tt
snapshots_of-Shows active ((k, x) ∷ ms) m = (
  (x, ground (arith, text_eq_refl k), refl, refl),
  Shows-more active k x ms (snapshots_of active ms) m.0 (snapshots_of-Shows active ms m.1),
)

first_free-some :
    (P : Snapshot → Type 0) (candidates : List Text) (ss : List Snapshot) (s : Snapshot)
    → All P ss
    → first_free candidates ss ≡ some s
    → P s × (is_eligible candidates s ≡ true)
unfolding first_free
first_free-some P candidates [] s h e = cc
first_free-some P candidates (x ∷ ss) s h e = elim (Bool-cases (is_eligible candidates x)) [
  | inl free ↦
      let same : x ≡ s = ground (arith, free) in
      (subst P same h.0, subst (λ y. is_eligible candidates y ≡ true) same free)
  | inr full ↦ first_free-some P candidates ss s h.1 (ground (arith, full))
]

-- The chosen slot is a candidate of the inventory with its own numbers, and has room.
pub choose_slot-some :
    (active : Text → ℕ) (cfg : Config) (candidates : List Text) (s : Snapshot)
    → IsMap cfg.machines
    → choose_slot active cfg candidates ≡ some s
    → Shows active cfg.machines s × (mem_text s.name candidates ≡ true) × (s.active < s.capacity)
unfolding choose_slot compute_machine_snapshots
choose_slot-some active cfg candidates s m e =
    let (shows, free) =
      first_free-some (Shows active cfg.machines) candidates _ s
        (All-sort_by less (Shows active cfg.machines) _ (snapshots_of-Shows active cfg.machines m))
        e in
    (shows, ground (arith, free), ground (arith, free))

first_free-none :
    (candidates : List Text) (ss : List Snapshot)
    → first_free candidates ss ≡ none
    → count (is_eligible candidates) ss ≡ 0
unfolding first_free
first_free-none candidates [] e = refl
first_free-none candidates (x ∷ ss) e = ground (arith, first_free-none candidates ss)

full_candidate :
    (active : Text → ℕ) (candidates : List Text) (ms : List (Text × Machine)) (c : Text)
    (x : Machine)
    → count (is_eligible candidates) (snapshots_of active ms) ≡ 0
    → mem_text c candidates ≡ true
    → lookup c ms ≡ some x
    → effective_capacity x ≤ active c
unfolding lookup
full_candidate active candidates [] c x n k e = cc
full_candidate active candidates ((j, y) ∷ ms) c x n k e =
    ground (arith, text_eq_iff j c, full_candidate active candidates ms c x)

-- If no slot is chosen, every candidate of the inventory is full.
pub choose_slot-none :
    (active : Text → ℕ) (cfg : Config) (candidates : List Text)
    → choose_slot active cfg candidates ≡ none
    → (c : Text) (x : Machine) → mem_text c candidates ≡ true
    → lookup c cfg.machines ≡ some x
    → effective_capacity x ≤ active c
unfolding choose_slot compute_machine_snapshots
choose_slot-none active cfg candidates e c x k l =
    full_candidate active candidates cfg.machines c x
      (sym (count-sort_by less (is_eligible candidates) (snapshots_of active cfg.machines))
        ∙ first_free-none candidates _ e)
      k l
