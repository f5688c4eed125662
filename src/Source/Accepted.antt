-- ===== src/Source/Accepted.antt =====
-- internal/source/select.go, `ValidateInput`: the files of an accepted input.
use vci.Base.{
  ◌≡◌, refl, sym, ap, ◌∙◌, subst, ◌⊎◌, inl, inr, Bool, true, false, not, ◌||◌, Option, List, [],
  ◌∷◌, arith, Bool-cases, drop, keep, All, In, sort_by, Ordered, In-sort_by, ok, Result-cases, Text,
  text_eq, text_eq_sound, text_lt, mem_text,
}
use vci.Process.Limit.{new}
use vci.Source.Input.{
  SourceInput, check_collisions, clean_entries, clean_repositories, every, validate_input,
}
use vci.Source.Order.{Before, Distinct, sort_by-Before, text_eq_sym}
use vci.Source.Select.{canonical_entry}

abbrev Unseen : List Text → List Text → Type 0
Unseen seen cs = All (λ c. mem_text c seen ≡ false) cs

Unseen-cons :
    (c : Text) (seen cs : List Text)
    → Unseen (c ∷ seen) cs
    → (mem_text c cs ≡ false) × Unseen seen cs
unfolding mem_text
Unseen-cons c seen [] h = (refl, tt)
Unseen-cons c seen (d ∷ cs) h =
    let (m, u) = Unseen-cons c seen cs h.1 in
    (ground (arith, text_eq_sym c d, m, h.0), (ground (arith, h.0), u))

-- What the loop answers holds each entry once, and nothing that was seen before.
clean_entries-Distinct :
    (root : Text) (keeps : Text → Bool) (seen ps cs : List Text)
    → clean_entries root keeps seen ps ≡ ok cs
    → Distinct cs × Unseen seen cs
unfolding clean_entries
clean_entries-Distinct root keeps seen [] cs h =
    let e : [] ≡ cs = ground (arith, h) in subst (λ l. Distinct l × Unseen seen l) e (tt, tt)
clean_entries-Distinct root keeps seen (p ∷ ps) cs h =
    elim (Result-cases (canonical_entry root p)) [
      | inr (e, f) ↦ absurd (ground (arith, f, h))
      | inl (c, f) ↦ elim (Bool-cases (not (keeps c) || mem_text c seen)) [
        | inl drop ↦ clean_entries-Distinct root keeps seen ps cs (ground (arith, f, drop, h))
        | inr keep ↦ elim (Result-cases (clean_entries root keeps (c ∷ seen) ps)) [
          | inr (e, g) ↦ absurd (ground (arith, f, keep, g, h))
          | inl (rest, g) ↦
              let (d, u) = clean_entries-Distinct root keeps (c ∷ seen) ps rest g in
              let (m, v) = Unseen-cons c seen rest u in
              let e : c ∷ rest ≡ cs = ground (arith, f, keep, g, h) in
              let new : mem_text c seen ≡ false = ground (arith, keep) in
              subst (λ l. Distinct l × Unseen seen l) e ((m, d), (new, v))
        ]
      ]
    ]

-- Where an entry of the input is found again.
abbrev Kept : Text → Text → List Text → List Text → Type 0
Kept root p seen cs =
    (c : Text) × (canonical_entry root p ≡ ok c) × ((mem_text c seen ≡ true) ⊎ In c cs)

seen_or_kept :
    (c d : Text) (seen rest : List Text)
    → (mem_text d (c ∷ seen) ≡ true) ⊎ In d rest
    → (mem_text d seen ≡ true) ⊎ In d (c ∷ rest)
unfolding mem_text
seen_or_kept c d seen rest (inr i) = inr (inr i)
seen_or_kept c d seen rest (inl m) = elim (Bool-cases (text_eq c d)) [
  | inl same ↦ inr (inl (text_eq_sound c d same))
  | inr differs ↦ inl (ground (arith, m, differs))
]

clean_entries-Kept :
    (root : Text) (seen ps cs : List Text) (q : Text)
    → clean_entries root every seen ps ≡ ok cs
    → In q ps
    → Kept root q seen cs
unfolding clean_entries
clean_entries-Kept root seen [] cs q h i = absurd i
clean_entries-Kept root seen (p ∷ ps) cs q h i = elim (Result-cases (canonical_entry root p)) [
  | inr (e, f) ↦ absurd (ground (arith, f, h))
  | inl (c, f) ↦ elim (Bool-cases (mem_text c seen)) [
    | inl old ↦
        let rest : clean_entries root every seen ps ≡ ok cs = ground (arith, f, old, h) in
        elim i [
          | inl same ↦ (c, ap (canonical_entry root) (sym same) ∙ f, inl old)
          | inr later ↦ clean_entries-Kept root seen ps cs q rest later
        ]
    | inr new ↦ elim (Result-cases (clean_entries root every (c ∷ seen) ps)) [
      | inr (e, g) ↦ absurd (ground (arith, f, new, g, h))
      | inl (rest, g) ↦
          let e : c ∷ rest ≡ cs = ground (arith, f, new, g, h) in
          elim i [
            | inl same ↦
                (c, ap (canonical_entry root) (sym same) ∙ f, inr (subst (In c) e (inl refl)))
            | inr later ↦
                let (d, fd, w) = clean_entries-Kept root (c ∷ seen) ps rest q g later in
                (
                  d,
                  fd,
                  subst (λ l. (mem_text d seen ≡ true) ⊎ In d l) e (seen_or_kept c d seen rest w),
                )
          ]
    ]
  ]
]

-- The files of an accepted input are those that the loop kept, sorted.
validate_input-files :
    (lstat : Text → Option Bool) (root : Text) (input out : SourceInput)
    → validate_input lstat root input ≡ ok out
    → (cs : List Text) × (clean_entries root every [] input.files ≡ ok cs)
      × (out.files ≡ sort_by text_lt cs)
unfolding validate_input
validate_input-files lstat root input out h =
    elim (Result-cases (clean_entries root every [] input.files)) [
      | inr (e, f) ↦ absurd (ground (arith, f, h))
      | inl (cs, f) ↦ elim (Result-cases (check_collisions lstat (sort_by text_lt cs))) [
        | inr (e, g) ↦ absurd (ground (arith, f, g, h))
        | inl (u, g) ↦ elim (Result-cases (clean_repositories root input.repositories)) [
          | inr (e, k) ↦ absurd (ground (arith, f, g, k, h))
          | inl (rs, k) ↦ elim (Result-cases (clean_entries root every [] input.lfs_files)) [
            | inr (e, l) ↦ absurd (ground (arith, f, g, k, l, h))
            | inl (lfs, l) ↦ (cs, f, ground (arith, f, g, k, l, h))
          ]
        ]
      ]
    ]

nothing_seen : (c : Text) → mem_text c [] ≡ true → ⊥
unfolding mem_text
nothing_seen c m = cc m

-- The files of an accepted input stand in strict order, each once, and every file that was submitted is
-- among them in its canonical form; in particular none of them was refused.
pub validate_input_lem :
    (lstat : Text → Option Bool) (root : Text) (input out : SourceInput) (p : Text)
    → validate_input lstat root input ≡ ok out
    → In p input.files
    → Ordered Before out.files × ((c : Text) × (canonical_entry root p ≡ ok c) × In c out.files)
validate_input_lem lstat root input out p h i =
    let (cs, f, e) = validate_input-files lstat root input out h in
    let (d, u) = clean_entries-Distinct root every [] input.files cs f in
    let (c, g, w) = clean_entries-Kept root [] input.files cs p f i in
    let found : In c cs = elim w [ inl m ↦ absurd (nothing_seen c m) | inr k ↦ k ] in
    (
      subst (Ordered Before) (sym e) (sort_by-Before cs d),
      (c, g, subst (In c) (sym e) (In-sort_by text_lt c cs found)),
    )
