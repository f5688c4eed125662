-- ===== src/Source/Order.antt =====
-- Different texts in the order of Go strings are sorted strictly.
use vci.Base.{
  ◌≡◌, refl, ◌∙◌, inl, inr, true, false, ◌||◌, List, [], ◌∷◌, arith, Bool-cases, All, insert_by,
  sort_by, Ordered, sort_by-Ordered, Text, text_eq, text_eq_iff, text_lt, mem_text,
}

text_lt_trans : (a b c : Text) → text_lt b a ≡ false → text_lt c b ≡ false → text_lt c a ≡ false
unfolding text_lt
text_lt_trans [] b c h k = refl
text_lt_trans (x ∷ a) [] c h k = cc
text_lt_trans (x ∷ a) (y ∷ b) [] h k = cc
text_lt_trans (x ∷ a) (y ∷ b) (z ∷ c) h k = ground (arith, text_lt_trans a b c)

text_lt-total : (a b : Text) → text_lt b a ≡ false → text_eq a b ≡ false → text_lt a b ≡ true
unfolding text_lt text_eq
text_lt-total [] [] h k = cc
text_lt-total [] (y ∷ b) h k = refl
text_lt-total (x ∷ a) [] h k = cc
text_lt-total (x ∷ a) (y ∷ b) h k = ground (arith, text_lt-total a b)

abbrev pub Distinct : List Text → Type 0
Distinct [] = Unit
Distinct (x ∷ xs) = (mem_text x xs ≡ false) × Distinct xs

pub text_eq_sym : (a b : Text) → text_eq a b ≡ text_eq b a
text_eq_sym a b = ground (arith, text_eq_iff a b, text_eq_iff b a)

mem_text-insert_by :
    (d a : Text) (xs : List Text)
    → mem_text d (insert_by text_lt a xs) ≡ (text_eq a d || mem_text d xs)
unfolding mem_text
mem_text-insert_by d a [] = refl
mem_text-insert_by d a (x ∷ xs) = ground (arith, mem_text-insert_by d a xs)

Distinct-insert_by :
    (a : Text) (xs : List Text)
    → mem_text a xs ≡ false
    → Distinct xs
    → Distinct (insert_by text_lt a xs)
unfolding mem_text
Distinct-insert_by a [] m d = (refl, tt)
Distinct-insert_by a (x ∷ xs) m d = elim (Bool-cases (text_lt x a)) [
  | inr later ↦ rw later (m, d)
  | inl sooner ↦ rw sooner (
    ground (arith, mem_text-insert_by x a xs, text_eq_sym a x, m, d.0),
    Distinct-insert_by a xs (ground (arith, m)) d.1,
  )
]

mem_text-sort_by : (d : Text) (xs : List Text) → mem_text d (sort_by text_lt xs) ≡ mem_text d xs
unfolding mem_text
mem_text-sort_by d [] = refl
mem_text-sort_by d (x ∷ xs) =
    ground (arith, mem_text-insert_by d x (sort_by text_lt xs), mem_text-sort_by d xs)

Distinct-sort_by : (xs : List Text) → Distinct xs → Distinct (sort_by text_lt xs)
Distinct-sort_by [] d = tt
Distinct-sort_by (x ∷ xs) d =
    Distinct-insert_by x (sort_by text_lt xs) (mem_text-sort_by x xs ∙ d.0)
      (Distinct-sort_by xs d.1)

abbrev NotAfter : Text → Text → Type 0
NotAfter a b = text_lt b a ≡ false

abbrev pub Before : Text → Text → Type 0
Before a b = text_lt a b ≡ true

text_lt-asym : (a b : Text) → text_lt a b ≡ true → text_lt b a ≡ false
unfolding text_lt
text_lt-asym [] [] h = cc
text_lt-asym [] (y ∷ b) h = refl
text_lt-asym (x ∷ a) [] h = cc
text_lt-asym (x ∷ a) (y ∷ b) h = ground (arith, text_lt-asym a b)

All-Before :
    (x : Text) (xs : List Text) → mem_text x xs ≡ false → All (NotAfter x) xs → All (Before x) xs
unfolding mem_text
All-Before x [] m h = tt
All-Before x (y ∷ xs) m h = (
  text_lt-total x y h.0 (ground (arith, text_eq_sym x y)),
  All-Before x xs (ground (arith, m)) h.1,
)

Ordered-Before : (xs : List Text) → Distinct xs → Ordered NotAfter xs → Ordered Before xs
Ordered-Before [] d o = tt
Ordered-Before (x ∷ xs) d o = (All-Before x xs d.0 o.0, Ordered-Before xs d.1 o.1)

All-Unit : (xs : List Text) → All (λ x. Unit {0}) xs
All-Unit [] = tt
All-Unit (x ∷ xs) = (tt, All-Unit xs)

-- Different texts are sorted strictly.
pub sort_by-Before : (xs : List Text) → Distinct xs → Ordered Before (sort_by text_lt xs)
sort_by-Before xs d = Ordered-Before (sort_by text_lt xs) (Distinct-sort_by xs d) (
    sort_by-Ordered text_lt NotAfter (λ x. Unit {0}) text_lt-asym (λ a b h. h)
      (λ a b c ga gb gc h k. text_lt_trans a b c h k) xs (All-Unit xs))
