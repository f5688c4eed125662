-- ===== src/Worker/Archive.antt =====
-- internal/cli/internal.go: `safeJoin`, `extractTar`, `extractMember` and `internalStage`. The operations
-- on the file system are listed in the order in which they are made, and succeed.
use vci.Base.{
  ℕ, Bool, true, false, ◌||◌, Option, none, some, List, [], ◌∷◌, ◌++◌, if◌then◌else◌, Result, ok,
  err, Text, codes, text_eq, has_prefix, is_empty,
}
use vci.Config.Strings.{dot_dot}
use vci.Worker.Clean.{clean, is_abs, join_path}
use vci.Worker.Paths.{
  WorkerError, archive_unreadable, bad_member, member_escapes, no_archive, resolve_worker_work_dir,
}

pub data MemberKind : Type 0 where
  directory regular symlink hard_link special : MemberKind

pub record Member : Type 0 where
  pub name : Text
  pub kind : MemberKind
  pub link_name : Text
  pub mode : ℕ
  pub content : Text

-- The members up to the end, or up to the place where the archive cannot be read.
pub record Archive : Type 0 where
  pub members : List Member
  pub readable : Bool

pub data FileOp : Type 0 where
  remove_all make_dirs make_parents_of : Text → FileOp
  write_file : Text → ℕ → Text → FileOp
  set_mode : Text → ℕ → FileOp
  -- the target of the link, and where it is made
  make_symlink : Text → Text → FileOp
  make_link : Text → Text → FileOp

abbrev pub Trace : Type 0
Trace = List FileOp × Result WorkerError (Unit {0})

unfoldable pub safe_join : Text → Text → Result WorkerError Text
safe_join root name =
    if is_empty name || is_abs name
    then err bad_member
    else (let c = clean name in
        if text_eq c dot_dot || has_prefix (codes "../") c
        then err member_escapes
        else ok (join_path root c))

unfoldable pub extract_member : Member → Text → List FileOp
extract_member m target = elim m.kind [
  | directory ↦ make_dirs target ∷ []
  | regular ↦
      make_parents_of target ∷ write_file target m.mode m.content ∷ set_mode target m.mode ∷ []
  | symlink ↦ make_parents_of target ∷ remove_all target ∷ make_symlink m.link_name target ∷ []
  | hard_link ↦ []
  | special ↦ []
]

abbrev is_hard_link : MemberKind → Bool
is_hard_link hard_link = true
is_hard_link _ = false

abbrev make_hard_link : Text → Result WorkerError Text → Result WorkerError (List FileOp)
make_hard_link target (err e) = err e
make_hard_link target (ok old) = ok (make_parents_of target ∷ make_link old target ∷ [])

unfoldable pub extract_one : Text → Member → Result WorkerError (List FileOp)
unfolding safe_join extract_member
extract_one root m = elim (safe_join root m.name) [
  | err e ↦ err e
  | ok target ↦
      if is_hard_link m.kind
      then make_hard_link target (safe_join root m.link_name)
      else ok (extract_member m target)
]

abbrev pub and_then : List FileOp → Trace → Trace
and_then ops (more, r) = (ops ++ more, r)

unfoldable pub extract_members : Text → Bool → List Member → Trace
unfolding extract_one
extract_members root readable [] = ([], if readable then ok tt else err archive_unreadable)
extract_members root readable (m ∷ ms) =
    let rest = extract_members root readable ms in
    elim (extract_one root m) [ err e ↦ ([], err e) | ok ops ↦ and_then ops rest ]

unfoldable pub extract_tar : Archive → Text → Trace
unfolding extract_members
extract_tar a root = extract_members root a.readable a.members

unfoldable pub internal_stage : Option Text → Text → Option Archive → Trace
unfolding extract_tar
internal_stage home work_dir stdin = elim (resolve_worker_work_dir home work_dir) [
  | err e ↦ ([], err e)
  | ok dir ↦ elim stdin [
    | none ↦ ([], err no_archive)
    | some a ↦ and_then (remove_all dir ∷ make_dirs dir ∷ []) (extract_tar a dir)
  ]
]
