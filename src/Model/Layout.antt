-- ===== src/Model/Layout.antt =====
-- internal/model/model.go: the paths of `Layout`. `filepath.Join` of a clean root and of valid names is
-- the names joined by `/`.
use vci.Base.{
  ℕ, ◌≡◌, refl, ap, true, false, Option, none, some, [], ◌∷◌, ◌++◌, arith, if◌then◌else◌, length,
  length-append, Text, codes,
}
use vci.Model.Names.{has_slash, valid_name, valid_name_one_segment, valid_run_id}
use mathlib.Core.List.{append_assoc}

pub record Layout : Type 0 where
  pub root : Text

abbrev join : Text → Text → Text
join a b = a ++ b'/' ∷ b

unfoldable pub state_dir : Layout → Text
state_dir l = join l.root (codes "state")

unfoldable pub runs_dir : Layout → Text
unfolding state_dir
runs_dir l = join (state_dir l) (codes "runs")

unfoldable pub machine_claims_dir : Layout → Text
unfolding state_dir
machine_claims_dir l = join (state_dir l) (codes "machine-claims")

unfoldable pub machine_claim_path : Layout → Text → Text → Text
unfolding machine_claims_dir
machine_claim_path l machine run_id =
    join (join (machine_claims_dir l) machine) (run_id ++ codes ".json")

-- `none` is the error of an invalid name.
unfoldable pub run_dir : Layout → Text → Option Text
unfolding runs_dir
run_dir l id = if valid_name id then some (join (runs_dir l) id) else none

pub append_cancel : (xs ys zs : Text) → xs ++ ys ≡ xs ++ zs → ys ≡ zs
append_cancel [] ys zs h = h
append_cancel (x ∷ xs) ys zs h = append_cancel xs ys zs (cc h)

-- The first separator splits a path in one way.
pub split_at_slash :
    (a b c d : Text)
    → has_slash a ≡ false
    → has_slash b ≡ false
    → a ++ b'/' ∷ c ≡ b ++ b'/' ∷ d
    → (a ≡ b) × (c ≡ d)
unfolding has_slash
split_at_slash [] [] c d h k e = (refl, cc)
split_at_slash [] (y ∷ b) c d h k e = ground arith
split_at_slash (x ∷ a) [] c d h k e = ground arith
split_at_slash (x ∷ a) (y ∷ b) c d h k e = ground (arith, split_at_slash a b c d)

tail_eq : {x y : ℕ} {xs ys : Text} → x ∷ xs ≡ y ∷ ys → xs ≡ ys
tail_eq e = cc e

append_cancel_right : (xs ys zs : Text) → xs ++ zs ≡ ys ++ zs → xs ≡ ys
append_cancel_right [] [] zs e = refl
append_cancel_right [] (y ∷ ys) zs e = absurd (omega (arith, ap length e, length-append ys zs))
append_cancel_right (x ∷ xs) [] zs e = absurd (omega (arith, ap length e, length-append xs zs))
append_cancel_right (x ∷ xs) (y ∷ ys) zs e = ground (arith, append_cancel_right xs ys zs)

valid_name_no_slash : (s : Text) → valid_name s ≡ true → has_slash s ≡ false
valid_name_no_slash s h = (valid_name_one_segment s h).4

join_injective :
    (dir a b c d : Text)
    → has_slash a ≡ false
    → has_slash b ≡ false
    → join (join dir a) c ≡ join (join dir b) d
    → (a ≡ b) × (c ≡ d)
join_injective dir a b c d ha hb e =
    split_at_slash a b c d ha hb
      (tail_eq (append_cancel dir _ _ (rw (append_assoc, append_assoc) at e)))

-- Two reservations of valid names share a claim file only if they are for one machine and one run.
pub machine_claim_path_injective :
    (l : Layout) (m n i j : Text)
    → valid_name m ≡ true
    → valid_name n ≡ true
    → valid_run_id i ≡ true
    → valid_run_id j ≡ true
    → machine_claim_path l m i ≡ machine_claim_path l n j
    → (m ≡ n) × (i ≡ j)
unfolding machine_claim_path
machine_claim_path_injective l m n i j hm hn hi hj e = (parts.0, append_cancel_right i j _ parts.1)
  where
    parts : (m ≡ n) × (i ++ codes ".json" ≡ j ++ codes ".json")
    parts =
        join_injective (machine_claims_dir l) m n _ _ (valid_name_no_slash m hm)
          (valid_name_no_slash n hn) e
