-- ===== src/Worker/Reconstruct.antt =====
-- internal/cli/internal_reconstruct.go: `internalReconstruct` after its arguments are read, `admitBundle`
-- and `applyLocalChanges`. The steps are listed in order. Git, the copy of the seed and what the extracted
-- payload holds are parameters; the other steps succeed.
use vci.Base.{
  ℕ, Bool, false, not, Option, none, some, List, [], ◌∷◌, ◌++◌, map, ltb, if◌then◌else◌, drop,
  Result, ok, err, Text, codes, text_eq, has_prefix, is_empty,
}
use vci.Config.Strings.{trim_space}
use vci.Worker.Archive.{
  Archive, FileOp, Member, Trace, extract_member, extract_tar, make_dirs, remove_all, safe_join,
  write_file,
}
use vci.Worker.Clean.{join_path}
use vci.Worker.Commands.{parent_of}
use vci.Worker.Flags.{Options, Resolved, check_options, no_options, parse_flags}
use vci.Worker.Paths.{WorkerError, archive_unreadable, no_archive}

pub data WorkStep : Type 0 where
  file : FileOp → WorkStep
  copy_tree : Text → Text → WorkStep
  git : Text → List Text → WorkStep
  touch : Text → WorkStep
  write_meta : Text → ℕ → ℕ → WorkStep
  copy_file : Text → Text → WorkStep
  mark_complete : Text → WorkStep
  evict_lru_in : Text → ℕ → ℕ → WorkStep

pub data ReconstructError : Type 0 where
  refused : WorkerError → ReconstructError
  copy_failed git_failed touch_failed no_head empty_head no_changes no_bundle : ReconstructError

-- `bundle` is the size of the bundle in the payload, where there is one; the local changes are the members
-- of lc.tar, with the status of its end.
pub record Payload : Type 0 where
  pub bundle : Option ℕ
  pub head : Option Text
  pub changes : Option Archive

pub record World : Type 0 where
  pub git_works : Text → List Text → Bool
  pub seed_copies : Bool
  pub entry_touched : Bool

abbrev pub Steps : Type 0
Steps = List WorkStep × Result ReconstructError (Unit {0})

-- Steps that cannot fail, and then the rest.
abbrev pub after : List WorkStep → Steps → Steps
after done (more, r) = (done ++ more, r)

-- A step that may fail; nothing follows it then.
abbrev pub attempt : WorkStep → Bool → ReconstructError → Steps → Steps
attempt s works e rest = if works then after (s ∷ []) rest else (s ∷ [], err e)

abbrev pub all_done : Steps
all_done = ([], ok tt)

abbrev pub payload_dir : Text → Text
payload_dir work_dir = join_path work_dir (codes ".vci-payload")

abbrev pub in_payload : Text → Text → Text
in_payload work_dir name = join_path (payload_dir work_dir) name

abbrev pub admission_steps : Text → Text → Options → List WorkStep
admission_steps entry bundle o =
    file (make_dirs entry)
    ∷ copy_file bundle (join_path entry (codes "bundle"))
    ∷ write_meta (join_path entry (codes "meta.json")) o.bundle_bytes o.last_used
    ∷ mark_complete (join_path entry (codes "complete"))
    ∷ []

-- The streamed bundle must be there; the marker is written last.
unfoldable pub admit_bundle : Text → Text → Options → Option ℕ → Steps → Steps
admit_bundle entry bundle o none rest = (file (make_dirs entry) ∷ [], err no_bundle)
admit_bundle entry bundle o (some n) rest = after (admission_steps entry bundle o) rest

abbrev pub git_step : World → Text → List Text → Steps → Steps
git_step w dir args rest = attempt (git dir args) (w.git_works dir args) git_failed rest

abbrev pub apply_patch : Text → List Text
apply_patch patch = codes "apply" ∷ codes "--binary" ∷ codes "--whitespace=nowarn" ∷ patch ∷ []

-- The first pass over the changes: every member with the name `patch` is applied.
unfoldable pub apply_patches : World → Text → Bool → List Member → Steps → Steps
apply_patches w work_dir readable [] rest =
    if readable then rest else ([], err (refused archive_unreadable))
apply_patches w work_dir readable (m ∷ ms) rest =
    let later = apply_patches w work_dir readable ms rest in
    let patch = in_payload work_dir (codes "patch") in
    if text_eq m.name (codes "patch")
    then after (file (write_file patch 420 m.content) ∷ [])
        (git_step w work_dir (apply_patch patch) later)
    else later

-- The second pass: every member under `f/` is extracted below the work directory.
unfoldable pub extract_changes : Text → Bool → List Member → Steps → Steps
unfolding safe_join extract_member
extract_changes work_dir readable [] rest =
    if readable then rest else ([], err (refused archive_unreadable))
extract_changes work_dir readable (m ∷ ms) rest =
    let later = extract_changes work_dir readable ms rest in
    if not (has_prefix (codes "f/") m.name)
    then later
    else elim (safe_join work_dir (drop 2 m.name)) [
      | err e ↦ ([], err (refused e))
      | ok target ↦ after (map file (extract_member m target)) later
    ]

unfoldable pub apply_local_changes : World → Text → Option Archive → Steps → Steps
unfolding apply_patches extract_changes
apply_local_changes w work_dir none rest = ([], err no_changes)
apply_local_changes w work_dir (some a) rest =
    apply_patches w work_dir a.readable a.members
      (extract_changes work_dir a.readable a.members rest)

abbrev pub unbundle : Text → List Text
unbundle path = codes "bundle" ∷ codes "unbundle" ∷ path ∷ []

abbrev pub payload_import : Text → List WorkStep
payload_import work_dir = git work_dir (unbundle (in_payload work_dir (codes "bundle"))) ∷ []

abbrev has_content : Option ℕ → Bool
has_content none = false
has_content (some n) = ltb 0 n

abbrev pub cached_imports : Text → Text → Option ℕ → List WorkStep
cached_imports work_dir entry bundle =
    git work_dir (unbundle (join_path entry (codes "bundle")))
    ∷ (if has_content bundle then payload_import work_dir else [])

-- The imports of bundles may fail; with the cached bundle the recency of its entry is refreshed.
unfoldable pub import_bundles : World → Resolved → Options → Payload → Steps → Steps
import_bundles w q o p rest =
    if o.use_cached
    then after (cached_imports q.work_dir q.cache_entry p.bundle) (
        attempt (touch (join_path q.cache_entry (codes "meta.json"))) w.entry_touched touch_failed
          rest)
    else after (payload_import q.work_dir) rest

abbrev pub checkout : Text → List Text
checkout head = codes "checkout" ∷ codes "-q" ∷ head ∷ []

unfoldable pub check_out : World → Text → Option Text → Steps → Steps
check_out w work_dir none rest = ([], err no_head)
check_out w work_dir (some text) rest =
    let head = trim_space text in
    if is_empty head then ([], err empty_head) else git_step w work_dir (checkout head) rest

unfoldable pub admission : Resolved → Options → Payload → Steps → Steps
unfolding admit_bundle
admission q o p rest =
    if o.admit
    then admit_bundle q.cache_entry (in_payload q.work_dir (codes "bundle")) o p.bundle (
        if o.evict
        then after (evict_lru_in (parent_of q.cache_entry) o.max_entries o.max_bytes ∷ []) rest
        else rest)
    else rest

abbrev pub seeded : World → Resolved → Options → Steps → Steps
seeded w q o rest =
    if o.no_seed then rest else attempt (copy_tree q.seed q.work_dir) w.seed_copies copy_failed rest

abbrev unpacked : Trace → Steps → Steps
unpacked (ops, err e) rest = (map file ops, err (refused e))
unpacked (ops, ok _) rest = after (map file ops) rest

-- The steps after the payload is unpacked.
unfoldable pub rebuild : World → Resolved → Options → Payload → Steps
rebuild w q o p =
    let init = codes "init" ∷ codes "-q" ∷ [] in
    seeded w q o (
      attempt (git q.work_dir init) (w.git_works q.work_dir init) git_failed (
        import_bundles w q o p (
          check_out w q.work_dir p.head (
            apply_local_changes w q.work_dir p.changes
              (admission q o p (file (remove_all (payload_dir q.work_dir)) ∷ [], ok tt))))))

unfoldable pub read_arguments :
    (Text → Option ℕ) → Option Text → List Text → Result WorkerError (Options × Resolved)
read_arguments parse_time home args = elim (parse_flags parse_time no_options args) [
  | err e ↦ err e
  | ok o ↦ elim (check_options home o) [ err e ↦ err e | ok q ↦ ok (o, q) ]
]

unfoldable pub internal_reconstruct :
    World → (Text → Option ℕ) → Option Text → List Text → Option Archive → Payload → Steps
unfolding rebuild extract_tar read_arguments
internal_reconstruct w parse_time home args stdin p = elim (read_arguments parse_time home args) [
  | err e ↦ ([], err (refused e))
  | ok (o, q) ↦ elim stdin [
    | none ↦ ([], err (refused no_archive))
    | some a ↦
        after (file (make_dirs q.work_dir) ∷ file (make_dirs (payload_dir q.work_dir)) ∷ [])
          (unpacked (extract_tar a (payload_dir q.work_dir)) (rebuild w q o p))
  ]
]
