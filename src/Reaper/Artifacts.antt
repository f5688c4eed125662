-- ===== src/Reaper/Artifacts.antt =====
-- internal/reaper/reaper.go, `ReapArtifacts`: what it removes and what it leaves.
use vci.Base.{
  ℕ, ◌+◌, ◌≡◌, refl, sym, ap, ◌∙◌, inl, inr, true, false, not, Option, List, [], ◌∷◌, arith,
  Bool-cases, Option-cases, In, Text, text_eq, text_eq_sound, text_eq_refl,
}
use vci.Reaper.Dirs.{
  Cleared, artifacts_due, clear_each, has_artifacts, reap_artifacts, remove_artifacts,
}
use vci.Store.Disk.{Disk, find_dir, find_dir-put_dir}
use vci.Store.Runs.{load}
use vci.Store.Scans.{run_ids}

find_dir-remove_artifacts :
    (d : Disk) (id j : Text)
    → text_eq id j ≡ false
    → find_dir j (remove_artifacts d id).runs ≡ find_dir j d.runs
unfolding remove_artifacts
find_dir-remove_artifacts d id j ne = elim (Option-cases (find_dir id d.runs)) [
  | inl e ↦ rw e refl
  | inr (dir, e) ↦ rw (e, find_dir-put_dir id j (record dir { artifacts = false }) d.runs, ne) refl
]

load-remove_artifacts : (d : Disk) (id j : Text) → load (remove_artifacts d id) j ≡ load d j
unfolding remove_artifacts load
load-remove_artifacts d id j = elim (Option-cases (find_dir id d.runs)) [
  | inl e ↦ rw e refl
  | inr (dir, e) ↦ elim (Bool-cases (text_eq id j)) [
    | inl same ↦
        let e' = ap (λ k. find_dir k d.runs) (sym (text_eq_sound id j same)) ∙ e in
        rw (e, load, find_dir-put_dir id j (record dir { artifacts = false }) d.runs, same, e') refl
    | inr ne ↦
        rw (e, load, find_dir-put_dir id j (record dir { artifacts = false }) d.runs, ne) refl
  ]
]

healthy-remove_artifacts : (d : Disk) (id : Text) → (remove_artifacts d id).healthy ≡ d.healthy
unfolding remove_artifacts
healthy-remove_artifacts d id = elim (Option-cases (find_dir id d.runs)) [
  | inl e ↦ rw e refl
  | inr (dir, e) ↦ rw e refl
]

has_artifacts-removed :
    (d : Disk) (id : Text) → has_artifacts (find_dir id (remove_artifacts d id).runs) ≡ false
unfolding remove_artifacts
has_artifacts-removed d id = elim (Option-cases (find_dir id d.runs)) [
  | inl e ↦ rw (e, remove_artifacts, e) refl
  | inr (dir, e) ↦
      rw (e, find_dir-put_dir id id (record dir { artifacts = false }) d.runs, text_eq_refl id) refl
]

module _ (now : ℕ) (modified : Text → Option ℕ) where
  due-removed :
      (d : Disk) (id : Text) → artifacts_due now modified (remove_artifacts d id) id ≡ false
  unfolding artifacts_due
  due-removed d id = ground (arith, has_artifacts-removed d id)

  due-other :
      (d : Disk) (id j : Text)
      → text_eq id j ≡ false
      → artifacts_due now modified (remove_artifacts d id) j ≡ artifacts_due now modified d j
  unfolding artifacts_due
  due-other d id j ne = rw (load-remove_artifacts d id j, find_dir-remove_artifacts d id j ne) refl

  -- What the loop has done to a disk, over a list of runs.
  pub record Clears (d : Disk) (ids : List Text) (c : Cleared) : Type 0 where
    pub loads : (j : Text) → load c.disk j ≡ load d j
    pub others :
        (j : Text)
        → artifacts_due now modified d j ≡ false
        → find_dir j c.disk.runs ≡ find_dir j d.runs
    pub done :
        d.healthy ≡ true
        → (c.failed ≡ false) × ((j : Text) → In j ids → artifacts_due now modified c.disk j ≡ false)

  still_not_due :
      (d : Disk) (ids : List Text) (c : Cleared) (j : Text)
      → Clears d ids c
      → artifacts_due now modified d j ≡ false
      → artifacts_due now modified c.disk j ≡ false
  unfolding artifacts_due
  still_not_due d ids c j k h = rw (k.loads j, k.others j h) h

  distinct :
      (d : Disk) (id j : Text)
      → artifacts_due now modified d id ≡ true
      → artifacts_due now modified d j ≡ false
      → text_eq id j ≡ false
  distinct d id j h n = elim (Bool-cases (text_eq id j)) [
    | inl same ↦ absurd (cc (h, n, ap (artifacts_due now modified d) (text_eq_sound id j same)))
    | inr ne ↦ ne
  ]

  clear_each-Clears :
      (d : Disk) (n : ℕ) (ids : List Text) → Clears d ids (clear_each now modified d n ids)
  unfolding clear_each
  clear_each-Clears d n [] = record {
    loads = λ j. refl;
    others = λ j h. refl;
    done = λ h. (refl, λ j i. absurd i);
  }
  clear_each-Clears d n (id ∷ ids) = elim (Bool-cases (artifacts_due now modified d id)) [
    | inr not_due ↦
        let k = clear_each-Clears d n ids in
        rw (clear_each, not_due)
          (record {
            loads = k.loads;
            others = k.others;
            done = λ h. (
              (k.done h).0,
              λ j i. elim i [
                | inl e ↦
                    still_not_due d ids (clear_each now modified d n ids) j k
                      (ap (artifacts_due now modified d) (sym e) ∙ not_due)
                | inr i' ↦ (k.done h).1 j i'
              ],
            );
          })
    | inl is_due ↦ elim (Bool-cases (not d.healthy)) [
      | inl sick ↦
          rw (clear_each, is_due, sick)
            (record {
              loads = λ j. refl;
              others = λ j h. refl;
              done = λ h. absurd (ground (arith, h, sick));
            })
      | inr fine ↦
          let e = remove_artifacts d id in
          let k = clear_each-Clears e (n + 1) ids in
          rw (clear_each, is_due, fine)
            (record {
              loads = λ j. k.loads j ∙ load-remove_artifacts d id j;
              others = λ j h.
                  let ne = distinct d id j is_due h in
                  k.others j (due-other d id j ne ∙ h) ∙ find_dir-remove_artifacts d id j ne;
              done = λ h.
                  let w = k.done (healthy-remove_artifacts d id ∙ h) in
                  (
                    w.0,
                    λ j i. elim i [
                      | inl eq ↦
                          still_not_due e ids (clear_each now modified e (n + 1) ids) j k
                            (ap (artifacts_due now modified e) (sym eq) ∙ due-removed d id)
                      | inr i' ↦ w.1 j i'
                    ],
                  );
            })
    ]
  ]

  -- The cleaning of artifacts changes no run record, and nothing at all in the directory of a run unless
  -- the run is lost or aborted, for more than thirty minutes, and has artifacts. Where files can be
  -- removed, no such directory is left.
  pub reap_artifacts-Clears : (d : Disk) → Clears d (run_ids d.runs) (reap_artifacts now modified d)
  unfolding reap_artifacts
  reap_artifacts-Clears d = clear_each-Clears d 0 (run_ids d.runs)
