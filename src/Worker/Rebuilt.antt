-- ===== src/Worker/Rebuilt.antt =====
-- internal/cli/internal_reconstruct.go: what a successful reconstruction has done.
use vci.Base.{
  ℕ, ◌≡◌, refl, sym, inl, inr, Bool, true, false, Option, none, some, List, [], ◌∷◌, ◌++◌, map,
  if◌then◌else◌, Bool-cases, if_either, drop, ok, err, Result-cases, Text, codes, text_eq,
  has_prefix, is_empty,
}
use vci.Config.Strings.{trim_space}
use vci.Worker.Archive.{
  Archive, Member, extract_member, make_dirs, remove_all, safe_join, write_file,
}
use vci.Worker.Clean.{join_path}
use vci.Worker.Commands.{parent_of}
use vci.Worker.Flags.{Options, Resolved}
use vci.Worker.Paths.{archive_unreadable}
use vci.Worker.Reconstruct.{
  Payload, ReconstructError, Steps, WorkStep, World, admission, admission_steps, admit_bundle,
  after, apply_local_changes, apply_patch, apply_patches, attempt, cached_imports, check_out,
  checkout, copy_failed, copy_tree, evict_lru_in, extract_changes, file, git, git_failed, git_step,
  import_bundles, in_payload, no_bundle, no_changes, no_head, payload_dir, payload_import, rebuild,
  refused, seeded, touch, touch_failed,
}
use mathlib.Core.List.{append_assoc}

abbrev Ends : WorkStep → Steps → Type 0
Ends x r = (before : List WorkStep) × (r.0 ≡ before ++ x ∷ [])

-- If the steps succeed, then the fact holds and the step is the last one.
abbrev Delivers : Type 0 → WorkStep → Steps → Type 0
Delivers F x r = r.1 ≡ ok tt → F × Ends x r

Delivers-after :
    (F : Type 0) (x : WorkStep) (done : List WorkStep) (r : Steps)
    → Delivers F x r
    → Delivers F x (after done r)
Delivers-after F x done r d h =
    let (f, e) = d h in (f, (done ++ e.0, rw e.1 (sym (append_assoc done e.0 (x ∷ [])))))

Delivers-failed :
    (F : Type 0) (x : WorkStep) (l : List WorkStep) (e : ReconstructError) → Delivers F x (l, err e)
Delivers-failed F x l e h = cc h

Delivers-attempt :
    (F : Type 0) (x s : WorkStep) (works : Bool) (e : ReconstructError) (r : Steps)
    → (works ≡ true → Delivers F x r)
    → Delivers F x (attempt s works e r)
Delivers-attempt F x s true e r d = Delivers-after F x (s ∷ []) r (d refl)
Delivers-attempt F x s false e r d = Delivers-failed F x (s ∷ []) e

Delivers-git_step :
    (F : Type 0) (x : WorkStep) (w : World) (dir : Text) (args : List Text) (r : Steps)
    → (w.git_works dir args ≡ true → Delivers F x r)
    → Delivers F x (git_step w dir args r)
Delivers-git_step F x w dir args r d =
    Delivers-attempt F x (git dir args) (w.git_works dir args) git_failed r d

module _ (w : World) (F : Type 0) (x : WorkStep) where
  Delivers-patches :
      (dir : Text) (readable : Bool) (ms : List Member) (r : Steps)
      → Delivers F x r
      → Delivers F x (apply_patches w dir readable ms r)
  unfolding apply_patches
  Delivers-patches dir true [] r d = d
  Delivers-patches dir false [] r d = Delivers-failed F x [] (refused archive_unreadable)
  Delivers-patches dir readable (m ∷ ms) r d =
      let ih = Delivers-patches dir readable ms r d in
      let later = apply_patches w dir readable ms r in
      let patch = in_payload dir (codes "patch") in
      let args = apply_patch patch in
      if_either (Delivers F x) (text_eq m.name (codes "patch"))
        (after (file (write_file patch 420 m.content) ∷ []) (git_step w dir args later)) later
        (Delivers-after F x (file (write_file patch 420 m.content) ∷ []) (git_step w dir args later)
          (Delivers-git_step F x w dir args later (λ _. ih)))
        ih

  Delivers-changes :
      (dir : Text) (readable : Bool) (ms : List Member) (r : Steps)
      → Delivers F x r
      → Delivers F x (extract_changes dir readable ms r)
  unfolding extract_changes
  Delivers-changes dir true [] r d = d
  Delivers-changes dir false [] r d = Delivers-failed F x [] (refused archive_unreadable)
  Delivers-changes dir readable (m ∷ ms) r d =
      let ih = Delivers-changes dir readable ms r d in
      elim (Bool-cases (has_prefix (codes "f/") m.name)) [
        | inr other ↦ rw other ih
        | inl under ↦ elim (Result-cases (safe_join dir (drop 2 m.name))) [
          | inr (e, f) ↦ rw (under, f) (Delivers-failed F x [] (refused e))
          | inl (t, f) ↦
              rw (under, f)
                (Delivers-after F x (map file (extract_member m t))
                  (extract_changes dir readable ms r) ih)
        ]
      ]

  Delivers-local_changes :
      (dir : Text) (a : Option Archive) (r : Steps)
      → Delivers F x r
      → Delivers F x (apply_local_changes w dir a r)
  unfolding apply_local_changes
  Delivers-local_changes dir none r d = Delivers-failed F x [] no_changes
  Delivers-local_changes dir (some a) r d =
      Delivers-patches dir a.readable a.members (extract_changes dir a.readable a.members r)
        (Delivers-changes dir a.readable a.members r d)

  Delivers-admit_bundle :
      (entry bundle : Text) (o : Options) (size : Option ℕ) (r : Steps)
      → Delivers F x r
      → Delivers F x (admit_bundle entry bundle o size r)
  unfolding admit_bundle
  Delivers-admit_bundle entry bundle o none r d =
      Delivers-failed F x (file (make_dirs entry) ∷ []) no_bundle
  Delivers-admit_bundle entry bundle o (some n) r d =
      Delivers-after F x (admission_steps entry bundle o) r d

  Delivers-admission :
      (q : Resolved) (o : Options) (p : Payload) (r : Steps)
      → Delivers F x r
      → Delivers F x (admission q o p r)
  unfolding admission
  Delivers-admission q o p r d =
      let evict = evict_lru_in (parent_of q.cache_entry) o.max_entries o.max_bytes in
      if_either (Delivers F x) o.admit _ _
        (Delivers-admit_bundle q.cache_entry (in_payload q.work_dir (codes "bundle")) o p.bundle
          (if o.evict then after (evict ∷ []) r else r)
          (if_either (Delivers F x) o.evict _ _ (Delivers-after F x (evict ∷ []) r d) d))
        d

  Delivers-import :
      (q : Resolved) (o : Options) (p : Payload) (r : Steps)
      → Delivers F x r
      → Delivers F x (import_bundles w q o p r)
  unfolding import_bundles
  Delivers-import q o p r d =
      let recency = touch (join_path q.cache_entry (codes "meta.json")) in
      if_either (Delivers F x) o.use_cached _ _
        (Delivers-after F x (cached_imports q.work_dir q.cache_entry p.bundle)
          (attempt recency w.entry_touched touch_failed r)
          (Delivers-attempt F x recency w.entry_touched touch_failed r (λ _. d)))
        (Delivers-after F x (payload_import q.work_dir) r d)

-- A head was submitted and could be checked out.
abbrev pub CheckedOut : World → Text → Option Text → Type 0
CheckedOut w dir none = ⊥
CheckedOut w dir (some text) =
    (is_empty (trim_space text) ≡ false) × (w.git_works dir (checkout (trim_space text)) ≡ true)

Delivers-check_out :
    (w : World) (x : WorkStep) (dir : Text) (head : Option Text) (r : Steps)
    → Delivers Unit x r
    → Delivers (CheckedOut w dir head) x (check_out w dir head r)
unfolding check_out
Delivers-check_out w x dir none r d = Delivers-failed ⊥ x [] no_head
Delivers-check_out w x dir (some text) r d = elim (Bool-cases (is_empty (trim_space text))) [
  | inl e ↦ rw e (λ h. cc h)
  | inr e ↦
      let args = checkout (trim_space text) in
      let checked =
        Delivers-git_step (w.git_works dir args ≡ true) x w dir args r (λ g h. (g, (d h).1)) in
      rw e (λ h. ((refl, (checked h).0), (checked h).1))
]

Delivers-seeded :
    (F : Type 0) (x : WorkStep) (w : World) (q : Resolved) (o : Options) (r : Steps)
    → Delivers F x r
    → Delivers F x (seeded w q o r)
Delivers-seeded F x w q o r d =
    let copy = copy_tree q.seed q.work_dir in
    if_either (Delivers F x) o.no_seed r (attempt copy w.seed_copies copy_failed r) d
      (Delivers-attempt F x copy w.seed_copies copy_failed r (λ _. d))

abbrev pub unpack_removal : Resolved → WorkStep
unpack_removal q = file (remove_all (payload_dir q.work_dir))

-- A reconstruction that succeeds has checked out the submitted head, which is not blank, and its last
-- step removes the payload.
pub rebuild_lem :
    (w : World) (q : Resolved) (o : Options) (p : Payload)
    → (rebuild w q o p).1 ≡ ok tt
    → CheckedOut w q.work_dir p.head
      × ((before : List WorkStep) × ((rebuild w q o p).0 ≡ before ++ unpack_removal q ∷ []))
unfolding rebuild
rebuild_lem w q o p h =
    let x = unpack_removal q in
    let F = CheckedOut w q.work_dir p.head in
    let last : Steps = (x ∷ [], ok tt) in
    let init = codes "init" ∷ codes "-q" ∷ [] in
    let r1 = admission q o p last in
    let r2 = apply_local_changes w q.work_dir p.changes r1 in
    let r3 = check_out w q.work_dir p.head r2 in
    let r4 = import_bundles w q o p r3 in
    let d1 = Delivers-admission w Unit x q o p last (λ _. (tt, ([], refl))) in
    let d2 = Delivers-local_changes w Unit x q.work_dir p.changes r1 d1 in
    let d3 = Delivers-check_out w x q.work_dir p.head r2 d2 in
    let d4 = Delivers-import w F x q o p r3 d3 in
    let d5 = Delivers-git_step F x w q.work_dir init r4 (λ _. d4) in
    Delivers-seeded F x w q o (git_step w q.work_dir init r4) d5 h
