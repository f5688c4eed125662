-- ===== src/Source/Input.antt =====
-- internal/source/select.go: `ValidateInput`. `lstat` stands for the look at a file below the root.
use vci.Base.{
  Bool, true, not, ◌&&◌, ◌||◌, Option, List, [], ◌∷◌, ◌++◌, if◌then◌else◌, sort_by, Result, ok, err,
  ◌>>=◌, ◌>>◌, Text, codes, text_eq, text_lt, has_prefix, is_empty, mem_text,
}
use vci.Source.Select.{
  SourceError, canonical_entry, ends_with, file_vs_dir_collision, is_strict_ancestor,
}

pub record InputRepository : Type 0 where
  pub root : Text
  pub prefix : Text
  pub files : List Text

pub record SourceInput : Type 0 where
  pub root : Text
  pub project_name : Text
  pub files : List Text
  pub repositories : List InputRepository
  pub lfs_files : List Text

abbrev pub prepended : Text → Result SourceError (List Text) → Result SourceError (List Text)
prepended c (err e) = err e
prepended c (ok cs) = ok (c ∷ cs)

-- The loop that cleans the entries, keeps those that a test lets pass and skips what was seen.
unfoldable pub clean_entries :
    Text → (Text → Bool) → List Text → List Text → Result SourceError (List Text)
clean_entries root keeps seen [] = ok []
clean_entries root keeps seen (p ∷ ps) = elim (canonical_entry root p) [
  | err e ↦ err e
  | ok c ↦
      let skipping = clean_entries root keeps seen ps in
      let keeping = prepended c (clean_entries root keeps (c ∷ seen) ps) in
      if not (keeps c) || mem_text c seen then skipping else keeping
]

abbrev pub every : Text → Bool
every c = true

unfoldable pub check_pair : (Text → Option Bool) → Text → Text → Result SourceError (Unit {0})
check_pair lstat p q =
    if text_eq q p
    then ok tt
    else if is_strict_ancestor p q || is_strict_ancestor q p
    then file_vs_dir_collision lstat p q
    else ok tt

abbrev pub for_each :
    (Text → Result SourceError (Unit {0})) → List Text → Result SourceError (Unit {0})
for_each check [] = ok tt
for_each check (p ∷ ps) = check p >> for_each check ps

unfoldable pub check_collisions : (Text → Option Bool) → List Text → Result SourceError (Unit {0})
unfolding check_pair
check_collisions lstat files = for_each (λ p. for_each (check_pair lstat p) files) files

abbrev pub with_slash : Text → Text
with_slash prefix =
    if not (is_empty prefix) && not (ends_with prefix (codes "/"))
    then prefix ++ codes "/"
    else prefix

abbrev pub below_prefix : Text → Text → Bool
below_prefix prefix c = is_empty prefix || has_prefix prefix c

unfoldable pub clean_repository : Text → InputRepository → Result SourceError InputRepository
unfolding clean_entries
clean_repository root r =
    clean_entries root (below_prefix (with_slash r.prefix)) [] r.files >>= λ files.
    ok (record r { files = sort_by text_lt files })

unfoldable pub clean_repositories :
    Text → List InputRepository → Result SourceError (List InputRepository)
unfolding clean_repository
clean_repositories root [] = ok []
clean_repositories root (r ∷ rs) = clean_repository root r >>= λ cleaned.
    clean_repositories root rs >>= λ rest. ok (cleaned ∷ rest)

-- `root` is the absolute path of the input's root.
unfoldable pub validate_input :
    (Text → Option Bool) → Text → SourceInput → Result SourceError SourceInput
validate_input lstat root input = clean_entries root every [] input.files >>= λ files.
    check_collisions lstat (sort_by text_lt files)
    >> (clean_repositories root input.repositories >>= λ repositories.
        clean_entries root every [] input.lfs_files >>= λ lfs. ok (record input {
          files = sort_by text_lt files;
          repositories = repositories;
          lfs_files = lfs;
        }))
