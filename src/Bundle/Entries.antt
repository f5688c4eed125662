-- ===== src/Bundle/Entries.antt =====
-- internal/bundlecache/cache.go: active claims, the last use and the list of entries.
use vci.Base.{
  ℕ, Bool, false, not, ◌&&◌, Option, none, some, List, [], ◌∷◌, ◌++◌, if◌then◌else◌, keep, sort_by,
  Result, ok, err, ◌>>=◌, ◌>>◌, absent, damaged, holds, Text, text_eq, text_lt,
}
use vci.Bundle.Cache.{
  CacheDir, CacheError, CacheRoot, Entry, Marker, ProjectDir, bad_claim_id, bad_meta, bad_project,
  check_entry, find_entry, no_entry, no_meta, project_dir, put_entry, valid_segment,
}

abbrev other_marker : Text → Marker → Bool
other_marker id m = not (text_eq m.name id)

abbrev pub check_claim_id : Text → Text → Text → Result CacheError (Unit {0})
check_claim_id project base id =
    check_entry project base >> (if valid_segment id then ok tt else err bad_claim_id)

unfoldable pub acquire_active_claim :
    CacheRoot → Text → Text → Text → ℕ → CacheRoot × Result CacheError (Unit {0})
acquire_active_claim root project base id now = elim (check_claim_id project base id) [
  | err e ↦ (root, err e)
  | ok _ ↦ elim (find_entry root project base) [
    | none ↦ (root, err no_entry)
    | some e ↦ (
      put_entry root project base (record e {
        claims =
            keep (other_marker id) e.claims
            ++ record { name = id; is_dir = false; modified = now } ∷ [];
      }),
      ok tt,
    )
  ]
]

unfoldable pub release_active_claim :
    CacheRoot → Text → Text → Text → CacheRoot × Result CacheError (Unit {0})
release_active_claim root project base id = elim (check_claim_id project base id) [
  | err e ↦ (root, err e)
  | ok _ ↦ elim (find_entry root project base) [
    | none ↦ (root, ok tt)
    | some e ↦
        (put_entry root project base (record e { claims = keep (other_marker id) e.claims }), ok tt)
  ]
]

-- The rewrite of meta.json.
abbrev touched : CacheDir → ℕ → Result CacheError CacheDir
touched e now = elim e.meta [
  | absent ↦ err no_meta
  | damaged ↦ err bad_meta
  | holds m ↦ ok (record e { meta = holds (record m { last_used = now }); meta_modified = now })
]

abbrev find_or_error : Option CacheDir → Result CacheError CacheDir
find_or_error none = err no_meta
find_or_error (some e) = ok e

unfoldable pub update_last_use :
    CacheRoot → Text → Text → ℕ → CacheRoot × Result CacheError (Unit {0})
update_last_use root project base now =
    elim (check_entry project base
      >> (find_or_error (find_entry root project base) >>= λ e. touched e now)) [
        | err e ↦ (root, err e)
        | ok e ↦ (put_entry root project base e, ok tt)
      ]

-- The entry that `List` makes of a directory, if it does not skip it.
abbrev pub entry_of : Text → CacheDir → Option Entry
entry_of base e = if not (valid_segment base && e.complete) then none else elim e.meta [
  | holds m ↦ some (record { base = base; bytes = m.bytes; last_used = m.last_used })
  | _ ↦ none
]

abbrev cons_entry : Option Entry → List Entry → List Entry
cons_entry none es = es
cons_entry (some e) es = e ∷ es

unfoldable pub complete_entries : ProjectDir → List Entry
complete_entries [] = []
complete_entries ((base, e) ∷ rest) = cons_entry (entry_of base e) (complete_entries rest)

abbrev by_base : Entry → Entry → Bool
by_base a b = text_lt a.base b.base

unfoldable pub list_entries : CacheRoot → Text → Result CacheError (List Entry)
list_entries root project =
    if not (valid_segment project)
    then err bad_project
    else ok (sort_by by_base (complete_entries (project_dir root project)))
