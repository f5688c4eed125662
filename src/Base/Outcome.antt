-- ===== src/Base/Outcome.antt =====
-- Errors as values, and what a read of a file can find.
use mathlib.Core.Path.{◌≡◌, refl}
use mathlib.Core.Logic.{◌⊎◌, inl, inr}

-- A Go result `(A, error)`, with the errors `E` of the component.
pub data Result (E A : Type 0) : Type 0 where
  ok : A → Result E A
  err : E → Result E A

infixl 5 ◌>>=◌ ◌>>◌
abbrev pub ◌>>=◌ : {E A B : Type 0} → Result E A → (A → Result E B) → Result E B
ok a >>= f = f a
err e >>= f = err e

abbrev pub ◌>>◌ : {E B : Type 0} → Result E (Unit {0}) → Result E B → Result E B
m >> k = m >>= λ _. k

-- A file that holds one JSON value. `damaged` stands for any content that cannot be read or decoded.
pub data File (A : Type 0) : Type 0 where
  absent : File A
  damaged : File A
  holds : A → File A

pub Result-cases :
    {E A : Type 0} (x : Result E A) → ((a : A) × (x ≡ ok a)) ⊎ ((e : E) × (x ≡ err e))
Result-cases (ok a) = inl (a, refl)
Result-cases (err e) = inr (e, refl)
