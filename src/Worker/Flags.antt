-- ===== src/Worker/Flags.antt =====
-- internal/cli/internal_reconstruct.go: the arguments of `internal-reconstruct`. `parse_time` stands for
-- `time.Parse`.
use vci.Base.{
  ℕ, Bool, true, false, ◌&&◌, ◌||◌, Option, none, some, List, [], ◌∷◌, ◌++◌, if◌then◌else◌, Result,
  ok, err, ◌>>=◌, Text, codes, text_eq, is_empty,
}
use vci.Worker.Decimal.{parse_count}
use vci.Worker.Paths.{
  WorkerError, bad_bundle_bytes, bad_limit, bad_time, bad_usage, flag_needs_cache,
  flag_value_missing, no_seed_path, resolve_worker_cache_entry, resolve_worker_seed,
  resolve_worker_work_dir,
}

pub record Options : Type 0 where
  pub entry : Text
  pub use_cached : Bool
  pub admit : Bool
  pub evict : Bool
  pub no_seed : Bool
  pub bundle_bytes : ℕ
  pub last_used : ℕ
  pub max_entries : ℕ
  pub max_bytes : ℕ
  pub positionals : List Text

abbrev pub no_options : Options
no_options = record {
  entry = [];
  use_cached = false;
  admit = false;
  evict = false;
  no_seed = false;
  bundle_bytes = 0;
  last_used = 0;
  max_entries = 0;
  max_bytes = 0;
  positionals = [];
}

pub data Flag : Type 0 where
  flag_no_seed flag_use_cached flag_cache flag_admit flag_evict operand : Flag

unfoldable pub flag_of : Text → Flag
flag_of a =
    if text_eq a (codes "--no-seed")
    then flag_no_seed
    else if text_eq a (codes "--use-cached")
    then flag_use_cached
    else if text_eq a (codes "--cache")
    then flag_cache
    else if text_eq a (codes "--admit")
    then flag_admit
    else if text_eq a (codes "--evict")
    then flag_evict
    else operand

-- A flag without values, or an operand.
abbrev pub plain_flag : Flag → Text → Options → Options
plain_flag flag_no_seed a o = record o { no_seed = true }
plain_flag flag_use_cached a o = record o { use_cached = true }
plain_flag operand a o = record o { positionals = o.positionals ++ a ∷ [] }
plain_flag _ a o = o

abbrev pub admitted : Options → Option ℕ → Option ℕ → Result WorkerError Options
admitted o none t = err bad_bundle_bytes
admitted o (some n) none = err bad_time
admitted o (some n) (some t) = ok (record o { bundle_bytes = n; last_used = t; admit = true })

abbrev pub evicting : Options → Option ℕ → Option ℕ → Result WorkerError Options
evicting o none b = err bad_limit
evicting o (some n) none = err bad_limit
evicting o (some n) (some b) = ok (record o { max_entries = n; max_bytes = b; evict = true })

-- A result, and how the loop goes on from it.
abbrev pub go_on :
    Result WorkerError Options → (Options → Result WorkerError Options) → Result WorkerError Options
go_on (err e) f = err e
go_on (ok o) f = f o

-- The loop over the arguments; a flag that wants more values than there are is an error.
unfoldable pub parse_flags : (Text → Option ℕ) → Options → List Text → Result WorkerError Options
unfolding flag_of
parse_flags parse_time o [] = ok o
parse_flags parse_time o (a ∷ []) = elim (flag_of a) [
  | flag_cache ↦ err flag_value_missing
  | flag_admit ↦ err flag_value_missing
  | flag_evict ↦ err flag_value_missing
  | f ↦ ok (plain_flag f a o)
]
parse_flags parse_time o (a ∷ b ∷ []) = elim (flag_of a) [
  | flag_cache ↦ ok (record o { entry = b })
  | flag_admit ↦ err flag_value_missing
  | flag_evict ↦ err flag_value_missing
  | f ↦ parse_flags parse_time (plain_flag f a o) (b ∷ [])
]
parse_flags parse_time o (a ∷ b ∷ c ∷ rest) = elim (flag_of a) [
  | flag_cache ↦ parse_flags parse_time (record o { entry = b }) (c ∷ rest)
  | flag_admit ↦
      go_on (admitted o (parse_count b) (parse_time c)) (λ x. parse_flags parse_time x rest)
  | flag_evict ↦
      go_on (evicting o (parse_count b) (parse_count c)) (λ x. parse_flags parse_time x rest)
  | f ↦ parse_flags parse_time (plain_flag f a o) (b ∷ c ∷ rest)
]

-- What the checks after the loop leave: the directories to work on.
pub record Resolved : Type 0 where
  pub work_dir : Text
  pub seed : Text
  pub cache_entry : Text

abbrev one_or_two : List Text → Option (Text × Text)
one_or_two (a ∷ []) = some (a, [])
one_or_two (a ∷ b ∷ []) = some (a, b)
one_or_two _ = none

abbrev unless_empty : Text → Result WorkerError Text → Result WorkerError Text
unless_empty t r = if is_empty t then ok t else r

unfoldable pub check_options : Option Text → Options → Result WorkerError Resolved
check_options home o = elim (one_or_two o.positionals) [
  | none ↦ err bad_usage
  | some (first_operand, seed) ↦ do
    dir ← resolve_worker_work_dir home first_operand
    tree ←
        if o.no_seed
        then ok seed
        else if is_empty seed
        then err no_seed_path
        else resolve_worker_seed home seed
    entry ← unless_empty o.entry (resolve_worker_cache_entry home o.entry)
    if is_empty entry && (o.use_cached || o.admit || o.evict)
        then err flag_needs_cache
        else ok (record { work_dir = dir; seed = tree; cache_entry = entry })
]
