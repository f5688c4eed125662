-- ===== src/App/Atomic.antt =====
-- internal/app/build.go, `stageFanout`: the records of runs when an admission fails.
use vci.Base.{
  ◌≡◌, refl, sym, ◌∙◌, subst, inl, inr, true, false, ◌||◌, Option, none, some, List, [], ◌∷◌, ◌++◌,
  arith, Bool-cases, All, Result, ok, err, Result-cases, Text, text_eq, text_eq_iff, mem_text,
}
use vci.App.Saves.{load-rollback_runs, save-healthy, save-load_other, save_refused}
use vci.App.Stage.{
  Request, StageError, new_child, new_parent, rollback_runs, save_new, stage_each, stage_fanout,
  stage_parent,
}
use vci.Model.Names.{valid_name, valid_run_id, valid_run_id-valid_name}
use vci.Store.Disk.{Disk}
use vci.Store.Record.{RunRecord, StoreError, new_run, new_run_from_id, not_exist}
use vci.Store.Runs.{load, save}

-- While the targets are staged: `d` differs from `d0` in the runs that were created, and in no other.
record Staged (d0 d : Disk) (created : List Text) : Type 0 where
  up : d.healthy ≡ true
  names : All (λ id. valid_name id ≡ true) created
  others : (j : Text) → mem_text j created ≡ false → load d j ≡ load d0 j
  new : (j : Text) → mem_text j created ≡ true → load d0 j ≡ err not_exist

Staged-rolled :
    (d0 d : Disk) (created : List Text) (j : Text)
    → Staged d0 d created
    → valid_run_id j ≡ true
    → load (rollback_runs d created) j ≡ load d0 j
Staged-rolled d0 d created j s v = elim (Bool-cases (mem_text j created)) [
  | inl m ↦ ground (arith, m, load-rollback_runs d created j s.names s.up v, s.new j m)
  | inr n ↦ ground (arith, n, load-rollback_runs d created j s.names s.up v, s.others j n)
]

mem_text-snoc :
    (j id : Text) (ids : List Text) → mem_text j (ids ++ id ∷ []) ≡ (mem_text j ids || text_eq id j)
unfolding mem_text
mem_text-snoc j id [] = ground arith
mem_text-snoc j id (k ∷ ids) = ground (arith, mem_text-snoc j id ids)

names-snoc :
    (ids : List Text) (id : Text)
    → All (λ k. valid_name k ≡ true) ids
    → valid_name id ≡ true
    → All (λ k. valid_name k ≡ true) (ids ++ id ∷ [])
names-snoc [] id h v = (v, tt)
names-snoc (k ∷ ids) id h v = (h.0, names-snoc ids id h.1 v)

Staged-save :
    (d0 d : Disk) (created : List Text) (r : RunRecord)
    → Staged d0 d created
    → valid_name r.id ≡ true
    → load d0 r.id ≡ err not_exist
    → Staged d0 (save d r).0 (created ++ r.id ∷ [])
Staged-save d0 d created r s v fresh = record {
  up = save-healthy d r ∙ s.up;
  names = names-snoc created r.id s.names v;
  others = λ j n. ground (
    arith,
    n,
    mem_text-snoc j r.id created,
    text_eq_iff r.id j,
    save-load_other d r j,
    s.others j,
  );
  new = λ j m. ground (arith, m, mem_text-snoc j r.id created, text_eq_iff r.id j, s.new j, fresh);
}

-- The identifiers of the supply belong to no run.
abbrev pub AreFresh : Disk → List (Option Text) → Type 0
AreFresh d [] = Unit
AreFresh d (none ∷ ids) = AreFresh d ids
AreFresh d (some id ∷ ids) = (load d id ≡ err not_exist) × AreFresh d ids

module _ (digest : Text → Text) (snapshot : Text → Text) (q : Request) (d0 : Disk) where
  new_child-id :
      (id m : Text) (r : RunRecord)
      → new_child digest snapshot q id m ≡ ok r
      → (r.id ≡ id) × (valid_name id ≡ true)
  unfolding new_child new_run_from_id new_run
  new_child-id id m r h =
      let v : valid_run_id id ≡ true = ground arith in
      (ground (arith, h, v), valid_run_id-valid_name id v)

  save_new_refused :
      (d : Disk) (x : Result StoreError RunRecord) (e : StoreError)
      → (save_new digest snapshot q d x).1 ≡ err e
      → (save_new digest snapshot q d x).0 ≡ d
  unfolding save_new
  save_new_refused d (err y) e h = refl
  save_new_refused d (ok r) e h = elim (Result-cases (save d r).1) [
    | inl (u, good) ↦ ground (arith, h, good)
    | inr (y, refused) ↦ save_refused d r y refused
  ]

  stage_parent_failed :
      (d : Disk) (created : List Text) (e : StageError) (j : Text)
      → Staged d0 d created
      → valid_run_id j ≡ true
      → (stage_parent digest snapshot q d created).1 ≡ err e
      → load (stage_parent digest snapshot q d created).0 j ≡ load d0 j
  unfolding stage_parent
  stage_parent_failed d created e j s v h =
      let x = new_parent digest snapshot q created in
      elim (Result-cases (save_new digest snapshot q d x).1) [
        | inl (r, good) ↦ absurd (ground (arith, h, good))
        | inr (y, refused) ↦
            rw (refused, stage_parent, save_new_refused d x y refused)
              (Staged-rolled d0 d created j s v)
      ]

  -- A target that is saved keeps the bookkeeping.
  child_saved :
      (d : Disk) (created : List Text) (id m : Text) (r : RunRecord)
      → Staged d0 d created
      → load d0 id ≡ err not_exist
      → (save_new digest snapshot q d (new_child digest snapshot q id m)).1 ≡ ok r
      → Staged d0
          (save_new digest snapshot q d (new_child digest snapshot q id m)).0
          (created ++ id ∷ [])
  unfolding save_new
  child_saved d created id m r s fresh h = elim (Result-cases (new_child digest snapshot q id m)) [
    | inr (y, none_made) ↦ absurd (ground (arith, h, none_made))
    | inl (c, made) ↦
        let (own, v) = new_child-id id m c made in
        rw (made, save_new)
          (subst (λ k. Staged d0 (save d c).0 (created ++ k ∷ [])) own
            (Staged-save d0 d created c s (subst (λ k. valid_name k ≡ true) (sym own) v)
              (subst (λ k. load d0 k ≡ err not_exist) (sym own) fresh)))
  ]

  stage_each_failed :
      (ms : List Text) (ids : List (Option Text)) (d : Disk) (created : List Text) (e : StageError)
      (j : Text)
      → AreFresh d0 ids
      → Staged d0 d created
      → valid_run_id j ≡ true
      → (stage_each digest snapshot q d created ms ids).1 ≡ err e
      → load (stage_each digest snapshot q d created ms ids).0 j ≡ load d0 j
  unfolding stage_each
  stage_each_failed [] ids d created e j f s v h = stage_parent_failed d created e j s v h
  stage_each_failed (m ∷ ms) [] d created e j f s v h = Staged-rolled d0 d created j s v
  stage_each_failed (m ∷ ms) (none ∷ ids) d created e j f s v h = Staged-rolled d0 d created j s v
  stage_each_failed (m ∷ ms) (some id ∷ ids) d created e j f s v h =
      let x = new_child digest snapshot q id m in
      let d' = (save_new digest snapshot q d x).0 in
      elim (Result-cases (save_new digest snapshot q d x).1) [
        | inr (y, refused) ↦
            rw (refused, stage_each, save_new_refused d x y refused)
              (Staged-rolled d0 d created j s v)
        | inl (r, saved) ↦
            rw (saved, stage_each)
              (stage_each_failed ms ids d' (created ++ id ∷ []) e j f.1
                (child_saved d created id m r s f.0 saved) v (rw (saved, stage_each) at h))
      ]

-- If `stageFanout` fails, every run loads as before, or fails to load as before: no target of the
-- request is left. The drawn identifiers are new, and files can be written.
pub failed_stage_fanout :
    (digest snapshot : Text → Text) (q : Request) (d : Disk) (ids : List (Option Text))
    (e : StageError) (j : Text)
    → AreFresh d ids
    → d.healthy ≡ true
    → valid_run_id j ≡ true
    → (stage_fanout digest snapshot q d ids).1 ≡ err e
    → load (stage_fanout digest snapshot q d ids).0 j ≡ load d j
unfolding stage_fanout mem_text
failed_stage_fanout digest snapshot q d ids e j f up v h =
    stage_each_failed digest snapshot q d q.project.machines ids d [] e j f
      (record { up = up; names = tt; others = λ k n. refl; new = λ k m. cc }) v h
