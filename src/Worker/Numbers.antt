-- ===== src/Worker/Numbers.antt =====
-- The decimal digits of a number, read back.
use vci.Base.{
  ℕ, zero, suc, ◌+◌, ◌-◌, ◌*◌, ◌<◌, ◌≡◌, refl, inl, inr, Bool, true, false, [], ◌∷◌, ◌++◌, arith,
  ltb, Bool-cases, all, Text, is_empty,
}
use vci.Host.Cache.{decimal_value, is_decimal}
use vci.Host.Reports.{IsDecimal}
use vci.Worker.Decimal.{show_decimal, show_digits}
use Prim.Native.Nat.{◌/◌, ◌%◌}

decimal_value-snoc :
    (n : ℕ) (ds : Text) (c : ℕ)
    → decimal_value n (ds ++ c ∷ []) ≡ decimal_value n ds * 10 + (c - b'0')
unfolding decimal_value
decimal_value-snoc n [] c = refl
decimal_value-snoc n (d ∷ ds) c = decimal_value-snoc (n * 10 + (d - b'0')) ds c

all-snoc :
    (p : ℕ → Bool) (ds : Text) (c : ℕ) → all p ds ≡ true → p c ≡ true → all p (ds ++ c ∷ []) ≡ true
all-snoc p [] c h k = rw k refl
all-snoc p (d ∷ ds) c h k = ground (arith, all-snoc p ds c)

is_empty-snoc : (ds : Text) (c : ℕ) → is_empty (ds ++ c ∷ []) ≡ false
is_empty-snoc [] c = refl
is_empty-snoc (d ∷ ds) c = refl

digit_lem : (d : ℕ) → d < 10 → (is_decimal (d + b'0') ≡ true) × (d + b'0' - b'0' ≡ d)
unfolding is_decimal
digit_lem d h = (ground arith, omega arith)

show_digits-IsDecimal : (fuel n : ℕ) → n < fuel → IsDecimal (show_digits fuel n) n
unfolding show_digits decimal_value
show_digits-IsDecimal zero n h = absurd (omega arith)
show_digits-IsDecimal (suc fuel) n h = elim (Bool-cases (ltb n 10)) [
  | inl small ↦ rw small (refl, ground (arith, digit_lem n), omega arith)
  | inr large ↦
      let (a, b, c) = show_digits-IsDecimal fuel (n / 10) (ground arith) in
      let ds = show_digits fuel (n / 10) in
      let d : n % 10 < 10 = omega arith in
      rw large (
        is_empty-snoc ds (n % 10 + b'0'),
        all-snoc is_decimal ds (n % 10 + b'0') b (digit_lem (n % 10) d).0,
        omega (arith, decimal_value-snoc 0 ds (n % 10 + b'0'), c),
      )
]

pub show_decimal-IsDecimal : (n : ℕ) → IsDecimal (show_decimal n) n
unfolding show_decimal
show_decimal-IsDecimal n = show_digits-IsDecimal (suc n) n (omega arith)
