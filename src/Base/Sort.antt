-- ===== src/Base/Sort.antt =====
-- Sorting by a Boolean comparison, as `sort.Slice` does. Equal elements keep the order that insertion
-- gives them.
use mathlib.Core.Path.{◌≡◌, refl, subst}
use mathlib.Core.Bool.{Bool, true, false}
use mathlib.Core.List.{List, [], ◌∷◌, Perm}
use mathlib.Core.List.Perm
use mathlib.Core.Logic.{inl, inr}
use native.Mathlib.Omega.{arith}
use vci.Base.Tests.{if◌then◌else◌, Bool-cases, if_either}
use vci.Base.Lists.{count, All, In}

module _ {A : Type 0} (less : A → A → Bool) where
  abbrev pub insert_by : A → List A → List A
  insert_by a [] = a ∷ []
  insert_by a (x ∷ xs) = let rest = insert_by a xs in if less x a then x ∷ rest else a ∷ x ∷ xs

  abbrev pub sort_by : List A → List A
  sort_by [] = []
  sort_by (x ∷ xs) = insert_by x (sort_by xs)

  pub count-insert_by :
      (p : A → Bool) (a : A) (xs : List A) → count p (insert_by a xs) ≡ count p (a ∷ xs)
  count-insert_by p a [] = refl
  count-insert_by p a (x ∷ xs) = ground (arith, count-insert_by p a xs)

  pub count-sort_by : (p : A → Bool) (xs : List A) → count p (sort_by xs) ≡ count p xs
  count-sort_by p [] = refl
  count-sort_by p (x ∷ xs) = ground (arith, count-insert_by p x (sort_by xs), count-sort_by p xs)

  pub insert_by-perm : (a : A) (xs : List A) → Perm (insert_by a xs) (a ∷ xs)
  insert_by-perm a [] = Perm.refl (a ∷ [])
  insert_by-perm a (x ∷ xs) = elim (Bool-cases (less x a)) [
    | inl smaller ↦ rw smaller (Perm.trans (Perm.cons x (insert_by-perm a xs)) (Perm.swap a x xs))
    | inr larger ↦ rw larger (Perm.refl (a ∷ x ∷ xs))
  ]

  pub sort_by-perm : (xs : List A) → Perm (sort_by xs) xs
  sort_by-perm [] = Perm.refl []
  sort_by-perm (x ∷ xs) = Perm.trans (insert_by-perm x (sort_by xs)) (Perm.cons x (sort_by-perm xs))

  pub All-insert_by :
      (P : A → Type 0) (a : A) (xs : List A) → P a → All P xs → All P (insert_by a xs)
  All-insert_by P a [] pa h = (pa, tt)
  All-insert_by P a (x ∷ xs) pa h =
      if_either (All P) (less x a) _ _ (h.0, All-insert_by P a xs pa h.1) (pa, h)

  pub All-sort_by : (P : A → Type 0) (xs : List A) → All P xs → All P (sort_by xs)
  All-sort_by P [] h = tt
  All-sort_by P (x ∷ xs) h = All-insert_by P x (sort_by xs) h.0 (All-sort_by P xs h.1)

-- Each element is related to all that come after it.
abbrev pub Ordered : {A : Type 0} → (A → A → Type 0) → List A → Type 0
Ordered R [] = Unit
Ordered R (x ∷ xs) = All (R x) xs × Ordered R xs

-- A relation that a comparison decides one way or the other, and that is transitive among the elements
-- in question, orders the sorted list.
module _ {A : Type 0} (less : A → A → Bool) (R : A → A → Type 0) (Good : A → Type 0)
    (lower : (a b : A) → less a b ≡ true → R a b) (upper : (a b : A) → less b a ≡ false → R a b)
    (trans : (a b c : A) → Good a → Good b → Good c → R a b → R b c → R a c) where
  All-trans :
      (a b : A) (xs : List A) → Good a → Good b → All Good xs → R a b → All (R b) xs → All (R a) xs
  All-trans a b [] ga gb g r h = tt
  All-trans a b (x ∷ xs) ga gb g r h =
      (trans a b x ga gb g.0 r h.0, All-trans a b xs ga gb g.1 r h.1)

  insert_by-Ordered :
      (a : A) (xs : List A) → Good a → All Good xs → Ordered R xs → Ordered R (insert_by less a xs)
  insert_by-Ordered a [] ga g o = (tt, tt)
  insert_by-Ordered a (x ∷ xs) ga g o = elim (Bool-cases (less x a)) [
    | inl smaller ↦
        rw smaller
          (All-insert_by less (R x) a xs (lower x a smaller) o.0, insert_by-Ordered a xs ga g.1 o.1)
    | inr larger ↦
        rw larger ((upper a x larger, All-trans a x xs ga g.0 g.1 (upper a x larger) o.0), o)
  ]

  pub sort_by-Ordered : (xs : List A) → All Good xs → Ordered R (sort_by less xs)
  sort_by-Ordered [] g = tt
  sort_by-Ordered (x ∷ xs) g =
      insert_by-Ordered x (sort_by less xs) g.0 (All-sort_by less Good xs g.1)
        (sort_by-Ordered xs g.1)

In-insert_by :
    {A : Type 0} (less : A → A → Bool) (t a : A) (xs : List A)
    → In t (a ∷ xs)
    → In t (insert_by less a xs)
In-insert_by less t a [] h = h
In-insert_by less t a (x ∷ xs) h = elim (Bool-cases (less x a)) [
  | inr larger ↦ rw larger h
  | inl smaller ↦ rw smaller (elim h [
    | inl e ↦ inr (In-insert_by less t a xs (inl e))
    | inr k ↦ elim k [ inl e ↦ inl e | inr m ↦ inr (In-insert_by less t a xs (inr m)) ]
  ])
]

-- Nothing is lost in sorting.
pub In-sort_by :
    {A : Type 0} (less : A → A → Bool) (t : A) (xs : List A) → In t xs → In t (sort_by less xs)
In-sort_by less t [] h = h
In-sort_by less t (x ∷ xs) (inl e) = In-insert_by less t x (sort_by less xs) (inl e)
In-sort_by less t (x ∷ xs) (inr h) =
    In-insert_by less t x (sort_by less xs) (inr (In-sort_by less t xs h))

pub In-All : {A : Type 0} (P : A → Type 0) (t : A) (xs : List A) → All P xs → In t xs → P t
In-All P t [] g h = absurd h
In-All P t (x ∷ xs) g (inl e) = subst P e g.0
In-All P t (x ∷ xs) g (inr h) = In-All P t xs g.1 h
