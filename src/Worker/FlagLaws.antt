-- ===== src/Worker/FlagLaws.antt =====
-- The arguments that internal/host/ssh.go composes for a reconstruction without a seed, read by
-- internal/cli/internal_reconstruct.go.
use vci.Base.{
  ℕ, ◌≤◌, ◌≡◌, refl, Bool, true, false, ◌&&◌, ◌||◌, Option, some, [], ◌∷◌, arith, if◌then◌else◌, ok,
  Text, codes, text_eq, has_prefix,
}
use vci.Bundle.Cache.{admit}
use vci.Host.Cache.{NoSeedCache, cache_arguments, max_int}
use vci.Worker.Decimal.{show_decimal}
use vci.Worker.Flags.{Options, flag_of, no_options, operand, parse_flags}
use vci.Worker.Reaps.{parse_count-show_decimal}

-- A path that does not begin with a hyphen is no flag.
flag_of-operand : (p : Text) → has_prefix (codes "-") p ≡ false → flag_of p ≡ operand
unfolding flag_of has_prefix text_eq
flag_of-operand [] h = refl
flag_of-operand (c ∷ cs) h = ground arith

module _ (parse_time : Text → Option ℕ) (root project base entry now : Text)
    (bytes entries size t : ℕ) where
  -- What the coordinator is asked for, by its three switches.
  abbrev pub asked : Bool → Bool → Bool → NoSeedCache
  asked use_cached admit evict = record {
    root = root;
    project = project;
    base = base;
    use_cached = use_cached;
    admit = admit;
    evict = evict;
    max_entries = show_decimal entries;
    max_bytes = show_decimal size;
    bundle_bytes = show_decimal bytes;
    now = now;
  }

  -- What the worker should do then: eviction is a part of an admission.
  abbrev pub understood : Text → Bool → Bool → Bool → Options
  understood work_dir use_cached admit evict = record {
    entry = if use_cached || admit then entry else [];
    use_cached = use_cached;
    admit = admit;
    evict = admit && evict;
    no_seed = true;
    bundle_bytes = if admit then bytes else 0;
    last_used = if admit then t else 0;
    max_entries = if admit && evict then entries else 0;
    max_bytes = if admit && evict then size else 0;
    positionals = work_dir ∷ [];
  }

  -- The worker reads the switches and the numbers that the coordinator was asked for, in each of their
  -- combinations, if the numbers are in the range of an int, the time can be read and the work directory does not look
  -- like a flag.
  pub parse_flags-cache_arguments :
      (use_cached admit evict : Bool) (work_dir : Text)
      → has_prefix (codes "-") work_dir ≡ false
      → parse_time now ≡ some t
      → bytes ≤ max_int
      → entries ≤ max_int
      → size ≤ max_int
      → parse_flags parse_time no_options
          (work_dir ∷ codes "--no-seed" ∷ cache_arguments (asked use_cached admit evict) entry)
        ≡ ok (understood work_dir use_cached admit evict)
  unfolding parse_flags cache_arguments text_eq
  parse_flags-cache_arguments false false e w h ht hb hn hs =
      rw (parse_flags, flag_of-operand w h) refl
  parse_flags-cache_arguments true false e w h ht hb hn hs =
      rw (parse_flags, flag_of-operand w h) refl
  parse_flags-cache_arguments false true false w h ht hb hn hs =
      rw (parse_flags, flag_of-operand w h, parse_count-show_decimal bytes hb, ht) refl
  parse_flags-cache_arguments true true false w h ht hb hn hs =
      rw (parse_flags, flag_of-operand w h, parse_count-show_decimal bytes hb, ht) refl
  parse_flags-cache_arguments false true true w h ht hb hn hs =
      rw
        (
          parse_flags,
          flag_of-operand w h,
          parse_count-show_decimal bytes hb,
          ht,
          parse_count-show_decimal entries hn,
          parse_count-show_decimal size hs,
        )
        refl
  parse_flags-cache_arguments true true true w h ht hb hn hs =
      rw
        (
          parse_flags,
          flag_of-operand w h,
          parse_count-show_decimal bytes hb,
          ht,
          parse_count-show_decimal entries hn,
          parse_count-show_decimal size hs,
        )
        refl
