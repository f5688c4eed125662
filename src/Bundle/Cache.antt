-- ===== src/Bundle/Cache.antt =====
-- internal/bundlecache/cache.go: the entries on disk, admission, claims, the list of entries. A bundle
-- is the list of its bytes; what is in the cache besides entry directories is not modelled, nor are
-- failures of the file system. The modification times that a write leaves are the time of the call.
use vci.Base.{
  ℕ, zero, suc, Bool, true, false, not, ◌&&◌, Option, none, some, List, [], ◌∷◌, ltb, if◌then◌else◌,
  length, all, ℤ, is_positive, magnitude, Result, ok, err, ◌>>◌, File, absent, holds, Text, codes,
  text_eq, is_empty, lookup,
}
use vci.Model.Names.{is_name_char}

pub record Meta : Type 0 where
  pub bytes : ℕ
  pub last_used : ℕ

-- A file of the directory claims.
pub record Marker : Type 0 where
  pub name : Text
  pub is_dir : Bool
  pub modified : ℕ

-- <root>/v1/<project>/<base>. `meta_modified` is the time of meta.json where there is one.
pub record CacheDir : Type 0 where
  pub bundle : Option Text
  pub meta : File Meta
  pub meta_modified : ℕ
  pub complete : Bool
  pub claims : List Marker
  pub dir_modified : ℕ

-- The directory of one project, and the cache root.
abbrev pub ProjectDir : Type 0
ProjectDir = List (Text × CacheDir)

abbrev pub CacheRoot : Type 0
CacheRoot = List (Text × ProjectDir)

pub record Policy : Type 0 where
  pub max_entries : ℤ
  pub max_bytes : ℤ
  pub admission_bytes : ℤ

pub record Entry : Type 0 where
  pub base : Text
  pub bytes : ℕ
  pub last_used : ℕ

pub data CacheError : Type 0 where
  bad_project bad_base bad_claim_id no_entry no_meta bad_meta : CacheError

-- The characters that `validSegment` lets pass exclude both separators.
unfoldable pub valid_segment : Text → Bool
valid_segment s =
    not (is_empty s)
    && not (text_eq s (codes "."))
    && not (text_eq s (codes ".."))
    && all is_name_char s

abbrev pub check_entry : Text → Text → Result CacheError (Unit {0})
check_entry project base =
    if not (valid_segment project)
    then err bad_project
    else if not (valid_segment base)
    then err bad_base
    else ok tt

unfoldable pub put {ℓ} : {A : Type ℓ} → Text → A → List (Text × A) → List (Text × A)
put k a [] = (k, a) ∷ []
put k a ((j, b) ∷ rest) = if text_eq j k then (j, a) ∷ rest else (j, b) ∷ put k a rest

abbrev pub or_nil : {A : Type 0} → Option (List A) → List A
or_nil none = []
or_nil (some xs) = xs

abbrev pub project_dir : CacheRoot → Text → ProjectDir
project_dir root project = or_nil (lookup project root)

abbrev pub find_entry : CacheRoot → Text → Text → Option CacheDir
find_entry root project base = lookup base (project_dir root project)

abbrev pub put_entry : CacheRoot → Text → Text → CacheDir → CacheRoot
put_entry root project base e = put project (put base e (project_dir root project)) root

abbrev pub is_complete : Option CacheDir → Bool
is_complete none = false
is_complete (some e) = e.complete

unfoldable pub is_hit : CacheRoot → Text → Text → Result CacheError Bool
is_hit root project base =
    check_entry project base >> ok (is_complete (find_entry root project base))

abbrev fresh : ℕ → CacheDir
fresh now = record {
  bundle = none;
  meta = absent;
  meta_modified = 0;
  complete = false;
  claims = [];
  dir_modified = now;
}

-- `os.MkdirAll`
abbrev pub or_fresh : ℕ → Option CacheDir → CacheDir
or_fresh now none = fresh now
or_fresh now (some e) = e

-- The four steps of an admission, of which the first `n` are done.
unfoldable pub admit_steps : ℕ → Text → ℕ → CacheDir → CacheDir
admit_steps zero bundle now e = e
admit_steps (suc zero) bundle now e = e
admit_steps (suc (suc zero)) bundle now e = record e { bundle = some bundle }
admit_steps (suc (suc (suc zero))) bundle now e = record e {
  bundle = some bundle;
  meta = holds (record { bytes = length bundle; last_used = now });
  meta_modified = now;
}
admit_steps (suc (suc (suc (suc n)))) bundle now e = record e {
  bundle = some bundle;
  meta = holds (record { bytes = length bundle; last_used = now });
  meta_modified = now;
  complete = true;
}

-- What an admission that is interrupted before its step `n` leaves.
unfoldable pub interrupted_admit : ℕ → CacheRoot → Text → Text → Text → ℕ → CacheRoot
interrupted_admit zero root project base bundle now = root
interrupted_admit (suc n) root project base bundle now =
    put_entry root project base
      (admit_steps (suc n) bundle now (or_fresh now (find_entry root project base)))

abbrev pub below_admission : Policy → Text → Bool
below_admission p bundle =
    is_positive p.admission_bytes && ltb (length bundle) (magnitude p.admission_bytes)

unfoldable pub admit :
    CacheRoot → Text → Text → Text → Policy → ℕ → CacheRoot × Result CacheError Bool
admit root project base bundle policy now = elim (check_entry project base) [
  | err e ↦ (root, err e)
  | ok _ ↦
      if below_admission policy bundle
      then (root, ok false)
      else (interrupted_admit 4 root project base bundle now, ok true)
]
