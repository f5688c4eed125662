-- ===== src/Base/Bytes.antt =====
-- Go strings as lists of bytes: equality, order, prefixes and the character classes of the regular
-- expressions. `codes` writes a literal.
use Prim.Native.Nat.{ℕ}
use Prim.Native.Char.{code}
use Prim.Native.String.{String}
use mathlib.Core.Path.{◌≡◌, refl}
use mathlib.Core.Logic.{◌↔◌}
use mathlib.Core.Bool.{Bool, true, false, ◌&&◌, ◌||◌}
use mathlib.Core.List.{List, [], ◌∷◌}
use mathlib.Core.Option.{Option, none, some}
use native.Mathlib.Omega.{arith}
use vci.Base.Tests.{ltb, ◌==◌, if◌then◌else◌}

abbrev pub Text : Type 0
Text = List ℕ

abbrev pub codes : String → Text
codes String.[] = []
codes (String.◌∷◌ c s) = code c ∷ codes s

unfoldable pub text_eq : Text → Text → Bool
text_eq [] [] = true
text_eq [] (y ∷ ys) = false
text_eq (x ∷ xs) [] = false
text_eq (x ∷ xs) (y ∷ ys) = x == y && text_eq xs ys

pub text_eq_sound : (s t : Text) → text_eq s t ≡ true → s ≡ t
unfolding text_eq
text_eq_sound [] [] h = refl
text_eq_sound [] (y ∷ ys) h = cc
text_eq_sound (x ∷ xs) [] h = cc
text_eq_sound (x ∷ xs) (y ∷ ys) h = ground (arith, text_eq_sound xs ys)

pub text_eq_refl : (s : Text) → text_eq s s ≡ true
unfolding text_eq
text_eq_refl [] = refl
text_eq_refl (x ∷ xs) = ground (arith, text_eq_refl xs)

pub text_eq_iff : (s t : Text) → (text_eq s t ≡ true) ↔ (s ≡ t)
text_eq_iff s t = (text_eq_sound s t, λ e. ground (arith, text_eq_refl s))

-- `s < t` on Go strings: byte by byte.
unfoldable pub text_lt : Text → Text → Bool
text_lt s [] = false
text_lt [] (y ∷ ys) = true
text_lt (x ∷ xs) (y ∷ ys) = ltb x y || (x == y && text_lt xs ys)

unfoldable pub has_prefix : Text → Text → Bool
has_prefix [] s = true
has_prefix (p ∷ ps) [] = false
has_prefix (p ∷ ps) (c ∷ s) = p == c && has_prefix ps s

unfoldable pub has_suffix : Text → Text → Bool
unfolding text_eq
has_suffix p [] = text_eq p []
has_suffix p (c ∷ s) = text_eq p (c ∷ s) || has_suffix p s

abbrev pub is_empty : Text → Bool
is_empty [] = true
is_empty (c ∷ s) = false

-- A map with string keys as a list of pairs: the first pair with the key counts.
unfoldable pub lookup {ℓ} : {A : Type ℓ} → Text → List (Text × A) → Option A
lookup k [] = none
lookup k ((j, a) ∷ rest) = if text_eq j k then some a else lookup k rest

-- `m[k] = a` and `delete(m, k)`.
unfoldable pub set_key : {A : Type 0} → Text → A → List (Text × A) → List (Text × A)
set_key k a [] = (k, a) ∷ []
set_key k a ((j, x) ∷ rest) =
    let later = set_key k a rest in if text_eq j k then (k, a) ∷ rest else (j, x) ∷ later

unfoldable pub delete_key : {A : Type 0} → Text → List (Text × A) → List (Text × A)
delete_key k [] = []
delete_key k ((j, x) ∷ rest) =
    let later = delete_key k rest in if text_eq j k then later else (j, x) ∷ later

unfoldable pub mem_text : Text → List Text → Bool
mem_text k [] = false
mem_text k (j ∷ rest) = text_eq j k || mem_text k rest

-- Each key once, as in a Go map.
abbrev pub IsMap : {A : Type 0} → List (Text × A) → Type 0
IsMap [] = Unit
IsMap ((k, a) ∷ rest) = (lookup k rest ≡ none) × IsMap rest
