-- ===== src/Examples/OfBundle.antt =====
-- The theorems on the bundle cache at a concrete one.
use vci.Base.{
  ℕ, ◌<◌, ◌≡◌, refl, true, false, not, some, List, [], ◌∷◌, arith, if◌then◌else◌, pos, ok, holds,
  Text, codes, text_eq, lookup,
}
use vci.Bundle.Admission.{Stored, admit_lem, interrupted_admit-is_hit}
use vci.Bundle.Cache.{
  CacheDir, Entry, Marker, Policy, ProjectDir, admit, below_admission, check_entry,
  interrupted_admit, is_hit, valid_segment,
}
use vci.Bundle.Evict.{
  active_claims, evict_entries, evict_loop, remove_entry, total_bytes, within_limits,
}
use vci.Bundle.Eviction.{evict_entries-claimed}
use vci.Model.Names.{is_name_char}

abbrev entry_with : ℕ → List Marker → CacheDir
entry_with used claims = record {
  bundle = some (codes "bundle");
  meta = holds (record { bytes = 6; last_used = used });
  meta_modified = used;
  complete = true;
  claims = claims;
  dir_modified = used;
}

abbrev in_use : Marker
in_use = record { name = codes "c1"; is_dir = false; modified = 1 }

-- The oldest entry is in use.
abbrev three_entries : ProjectDir
three_entries =
    (codes "a", entry_with 1 (in_use ∷ []))
    ∷ (codes "b", entry_with 3 [])
    ∷ (codes "c", entry_with 2 [])
    ∷ []

abbrev at_most_two : Policy
at_most_two = record { max_entries = pos 2; max_bytes = pos 0; admission_bytes = pos 4 }

abbrev entries_of_three : List Entry
entries_of_three =
    record { base = codes "a"; bytes = 6; last_used = 1 }
    ∷ record { base = codes "b"; bytes = 6; last_used = 3 }
    ∷ record { base = codes "c"; bytes = 6; last_used = 2 }
    ∷ []

a_is_claimed : 0 < active_claims three_entries (codes "a")
unfolding active_claims valid_segment lookup text_eq is_name_char
a_is_claimed = omega arith

evict_entries-claimed_example :
    lookup (codes "a") (evict_entries at_most_two three_entries entries_of_three).dir
    ≡ lookup (codes "a") three_entries
evict_entries-claimed_example =
    evict_entries-claimed at_most_two three_entries entries_of_three (codes "a") a_is_claimed

-- The older one of the two entries without claims is removed.
evict_test :
    (evict_entries at_most_two three_entries entries_of_three).left
    ≡ record { base = codes "a"; bytes = 6; last_used = 1 }
      ∷ record { base = codes "b"; bytes = 6; last_used = 3 }
      ∷ []
unfolding evict_entries evict_loop within_limits total_bytes active_claims valid_segment lookup
    text_eq is_name_char remove_entry
evict_test = refl

abbrev project : Text
project = codes "p"

not_yet : is_hit [] project (codes "a") ≡ ok false
unfolding is_hit valid_segment text_eq is_name_char lookup
not_yet = refl

interrupted_admit-is_hit_example :
    is_hit (interrupted_admit 3 [] project (codes "a") (codes "bundle") 5) project (codes "a")
    ≡ ok false
interrupted_admit-is_hit_example =
    interrupted_admit-is_hit 3 [] project (codes "a") (codes "bundle") 5 (omega arith) not_yet

names_valid : check_entry project (codes "a") ≡ ok tt
unfolding valid_segment text_eq is_name_char
names_valid = refl

admit_lem_example :
    let p = admit [] project (codes "a") (codes "bundle") at_most_two 5 in
    (p.1 ≡ ok (not (below_admission at_most_two (codes "bundle"))))
    × (if below_admission at_most_two (codes "bundle")
        then p.0 ≡ []
        else Stored project (codes "a") (codes "bundle") 5 p.0)
admit_lem_example = admit_lem [] project (codes "a") (codes "bundle") at_most_two 5 names_valid

-- An admission that was interrupted long ago, and an entry in use.
abbrev old_partial : CacheDir
old_partial = record (entry_with 1 []) { complete = false }

abbrev partial_and_full : ProjectDir
partial_and_full = (codes "a", old_partial) ∷ (codes "b", entry_with 1 (in_use ∷ [])) ∷ []
