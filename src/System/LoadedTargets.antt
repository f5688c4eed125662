-- ===== src/System/LoadedTargets.antt =====
-- internal/store/store.go, `LoadChildren`: which records it loads.
use vci.Base.{◌≡◌, refl, sym, subst, ◌⊎◌, inl, inr, List, [], ◌∷◌, In, ok, Result-cases, Text}
use vci.Store.Disk.{Disk}
use vci.Store.Immutable.{load-Loaded}
use vci.Store.Record.{RunRecord}
use vci.Store.Runs.{load}
use vci.Store.Scans.{cons_ok, load_each}

cons_ok-In :
    (d : Disk) (id : Text) (cs : List RunRecord) (j : Text) (c : RunRecord)
    → load d j ≡ ok c
    → (id ≡ j) ⊎ In c cs
    → In c (cons_ok (load d id) cs)
cons_ok-In d id cs j c e (inl same) =
    subst (λ i. In c (cons_ok (load d i) cs)) (sym same) (rw e (inl refl))
cons_ok-In d id cs j c e (inr m) = elim (Result-cases (load d id)) [
  | inl (r, f) ↦ rw f (inr m)
  | inr (x, f) ↦ rw f m
]

-- The targets that load are among the loaded ones, and each of those is a target as it loads.
pub load_each-In :
    (d : Disk) (ids : List Text) (j : Text) (c : RunRecord)
    → In j ids
    → load d j ≡ ok c
    → In c (load_each d ids)
unfolding load_each
load_each-In d [] j c m e = absurd m
load_each-In d (id ∷ ids) j c (inl same) e = cons_ok-In d id (load_each d ids) j c e (inl same)
load_each-In d (id ∷ ids) j c (inr m) e =
    cons_ok-In d id (load_each d ids) j c e (inr (load_each-In d ids j c m e))

abbrev pub AreLoaded : Disk → List Text → List RunRecord → Type 0
AreLoaded d ids cs = (c : RunRecord) → In c cs → (load d c.id ≡ ok c) × In c.id ids

load_own : (d : Disk) (id : Text) (c : RunRecord) → load d id ≡ ok c → c.id ≡ id
load_own d id c e = (load-Loaded d id c e).own_id

AreLoaded-cons :
    (d : Disk) (id : Text) (ids : List Text) (r : RunRecord) (cs : List RunRecord)
    → load d id ≡ ok r
    → AreLoaded d ids cs
    → AreLoaded d (id ∷ ids) (r ∷ cs)
AreLoaded-cons d id ids r cs e h c (inl same) =
    let own = load_own d id r e in
    subst (λ x. (load d x.id ≡ ok x) × In x.id (id ∷ ids)) same
      (subst (λ j. load d j ≡ ok r) (sym own) e, inl (sym own))
AreLoaded-cons d id ids r cs e h c (inr m) = ((h c m).0, inr (h c m).1)

pub load_each-AreLoaded : (d : Disk) (ids : List Text) → AreLoaded d ids (load_each d ids)
unfolding load_each
load_each-AreLoaded d [] = λ c m. absurd m
load_each-AreLoaded d (id ∷ ids) = elim (Result-cases (load d id)) [
  | inl (r, e) ↦
      rw (e, load_each) (AreLoaded-cons d id ids r (load_each d ids) e (load_each-AreLoaded d ids))
  | inr (x, e) ↦
      rw (e, load_each)
        (λ c m. ((load_each-AreLoaded d ids c m).0, inr (load_each-AreLoaded d ids c m).1))
]
