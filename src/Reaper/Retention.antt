-- ===== src/Reaper/Retention.antt =====
-- internal/reaper/capacity.go: `Enforce`, where no removal fails. The sums of sizes are not bounded here.
use vci.Base.{
  ℕ, ◌+◌, ◌-◌, ◌≤◌, ◌<◌, ◌≡◌, refl, sym, ap, ◌∙◌, ◌⊎◌, inl, inr, Bool, true, false, not, ◌&&◌, List,
  [], ◌∷◌, ◌++◌, arith, ltb, leb, if◌then◌else◌, leb→le, Bool-cases, length, ℤ, pos, negsuc,
  is_negative, magnitude, insert_by, sort_by, Text,
}
use vci.App.Collected.{total}

pub record Blob : Type 0 where
  pub path : Text
  pub size : ℕ
  pub modified : ℕ

-- The blobs that are left, and the report.
pub record Enforced : Type 0 where
  pub left : List Blob
  pub removed_bytes : ℕ
  pub removed_entries : ℕ

abbrev pub is_before : Blob → Blob → Bool
is_before a b = ltb a.modified b.modified

unfoldable pub total_size : List Blob → ℕ
total_size [] = 0
total_size (b ∷ bs) = b.size + total_size bs

-- `total <= max`
abbrev pub fits_in : ℕ → ℤ → Bool
fits_in total max = not (is_negative max) && leb total (magnitude max)

-- The loop. Every blob that is met is part of `total`, so that the subtraction does not stop at 0.
unfoldable pub enforce_loop : ℤ → ℕ → Enforced → List Blob → Enforced
enforce_loop max total r [] = record r { left = [] }
enforce_loop max total r (b ∷ bs) =
    let next =
      enforce_loop max (total - b.size)
        (record r {
          removed_bytes = r.removed_bytes + b.size;
          removed_entries = r.removed_entries + 1;
        })
        bs in
    if fits_in total max then record r { left = b ∷ bs } else next

unfoldable pub enforce : ℤ → List Blob → Enforced
enforce max bs =
    enforce_loop max (total_size bs) (record { left = []; removed_bytes = 0; removed_entries = 0 })
      (sort_by is_before bs)

total_size-insert :
    (b : Blob) (bs : List Blob) → total_size (insert_by is_before b bs) ≡ b.size + total_size bs
unfolding total_size
total_size-insert b [] = refl
total_size-insert b (x ∷ bs) = ground (arith, total_size-insert b bs)

total_size-sort : (bs : List Blob) → total_size (sort_by is_before bs) ≡ total_size bs
unfolding total_size
total_size-sort [] = refl
total_size-sort (b ∷ bs) =
    omega (arith, total_size-insert b (sort_by is_before bs), total_size-sort bs)

-- What the limit says of a number of bytes; a negative limit lets nothing fit.
abbrev pub Fits : ℤ → ℕ → Type 0
Fits (pos m) n = n ≤ m
Fits (negsuc m) n = ⊥

abbrev pub Exceeds : ℤ → ℕ → Type 0
Exceeds (pos m) n = m < n
Exceeds (negsuc m) n = Unit

fits_in-Fits : (max : ℤ) (n : ℕ) → fits_in n max ≡ true → Fits max n
fits_in-Fits (pos m) n h = leb→le n m h
fits_in-Fits (negsuc m) n h = cc h

fits_in-Exceeds : (max : ℤ) (n : ℕ) → fits_in n max ≡ false → Exceeds max n
fits_in-Exceeds (pos m) n h = ground (arith, h)
fits_in-Exceeds (negsuc m) n h = tt

-- Each of the removed blobs was too much: with it and all that follow it the limit is exceeded.
abbrev pub Needed : ℤ → List Blob → List Blob → Type 0
Needed max [] left = Unit
Needed max (b ∷ gone) left = Exceeds max (b.size + total_size (gone ++ left)) × Needed max gone left

-- What the loop has done: every removal was needed, what is left follows the removed blobs, it fits or
-- is empty, and the report counts the removed ones.
pub record Enforces (max : ℤ) (bs : List Blob) (r0 r : Enforced) : Type 0 where
  pub gone : List Blob
  pub order : bs ≡ gone ++ r.left
  pub needed : Needed max gone r.left
  pub fits : Fits max (total_size r.left) ⊎ (r.left ≡ [])
  pub bytes : r.removed_bytes ≡ r0.removed_bytes + total_size gone
  pub entries : r.removed_entries ≡ r0.removed_entries + length gone

enforce_loop-Enforces :
    (max : ℤ) (total : ℕ) (r : Enforced) (bs : List Blob)
    → total ≡ total_size bs
    → Enforces max bs r (enforce_loop max total r bs)
unfolding enforce_loop total_size
enforce_loop-Enforces max total r [] e = record {
  gone = [];
  order = refl;
  needed = tt;
  fits = inr refl;
  bytes = omega arith;
  entries = omega arith;
}
enforce_loop-Enforces max total r (b ∷ bs) e = elim (Bool-cases (fits_in total max)) [
  | inl small ↦ rw small (record {
    gone = [];
    order = refl;
    needed = tt;
    fits = inl (fits_in-Fits max _ (ap (λ n. fits_in n max) (sym e) ∙ small));
    bytes = omega arith;
    entries = omega arith;
  })
  | inr over ↦
      let h =
        enforce_loop-Enforces max (total - b.size)
          (record r {
            removed_bytes = r.removed_bytes + b.size;
            removed_entries = r.removed_entries + 1;
          })
          bs (omega (arith, e)) in
      rw over (record {
        gone = b ∷ h.gone;
        order = ap (◌∷◌ b) h.order;
        needed = (
          fits_in-Exceeds max _ (
              ap (λ n. fits_in n max) (ap (λ x. b.size + total_size x) (sym h.order) ∙ sym e)
              ∙ over),
          h.needed,
        );
        fits = h.fits;
        bytes = omega (arith, h.bytes);
        entries = omega (arith, h.entries);
      })
]

-- `Enforce` removes a first part of the blobs in the order of their modification times and reports its
-- length and size. Each removal was needed: with the blob and all that follow it the limit is exceeded.
-- Afterwards the rest fits into the limit, or nothing is left.
pub enforce-Enforces :
    (max : ℤ) (bs : List Blob)
    → Enforces max
        (sort_by is_before bs)
        (record { left = []; removed_bytes = 0; removed_entries = 0 })
        (enforce max bs)
unfolding enforce
enforce-Enforces max bs = enforce_loop-Enforces max _ _ _ (sym (total_size-sort bs))
