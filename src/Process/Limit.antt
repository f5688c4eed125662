-- ===== src/Process/Limit.antt =====
-- internal/process/process.go: `LimitWriter`, which bounds a log stream. The writer below it takes
-- all that it is given.
use vci.Base.{
  ℕ, zero, suc, ◌+◌, ◌-◌, ◌≤◌, ◌<◌, ◌≡◌, refl, sym, ap, ◌∙◌, inl, inr, Bool, true, false, not, ◌&&◌,
  ◌||◌, List, [], ◌∷◌, ◌++◌, arith, ltb, leb, if◌then◌else◌, leb→le, Bool-cases, length,
  length-append, take, length-take, take_all, take-append, all, ℤ, pos, is_negative, magnitude,
  Text,
}
use mathlib.Core.List.{append_assoc, append-nil}

pub record LimitWriter : Type 0 where
  pub out : Text
  pub max : ℤ
  pub n : ℕ
  pub truncated : Bool

-- The second half of `Write`: `allowed` is what fits of `p`.
unfoldable pub write_allowed : LimitWriter → Text → Text → LimitWriter
write_allowed l p allowed = record l {
  out = l.out ++ allowed;
  n = l.n + length allowed;
  truncated = l.truncated || ltb (length allowed) (length p);
}

-- `Write`, of the whole slice `p`.
unfoldable pub write : LimitWriter → Text → LimitWriter
write l p =
    if not (is_negative l.max) && leb (magnitude l.max) l.n
    then record l { truncated = true }
    else write_allowed l p (
        if not (is_negative l.max) && ltb (magnitude l.max - l.n) (length p)
        then take (magnitude l.max - l.n) p
        else p)

pub new : ℤ → LimitWriter
new max = record { out = []; max = max; n = 0; truncated = false }

pub write_all : LimitWriter → List Text → LimitWriter
write_all l [] = l
write_all l (p ∷ ps) = write_all (write l p) ps

pub concat : List Text → Text
concat [] = []
concat (p ∷ ps) = p ++ concat ps

-- What one write leaves: `all` is what was written before it.
record Bounded (max : ℕ) (l : LimitWriter) (all : Text) : Type 0 where
  limit : l.max ≡ pos max
  counted : l.n ≡ length l.out
  prefix : l.out ≡ take max all
  flagged : max < length all → l.truncated ≡ true

take-nil : (n : ℕ) → take {A = ℕ} n [] ≡ []
take-nil zero = refl
take-nil (suc n) = refl

new-Bounded : (max : ℕ) → Bounded max (new (pos max)) []
unfolding new
new-Bounded max = record {
  limit = refl;
  counted = refl;
  prefix = sym (take-nil max);
  flagged = λ h. absurd (omega arith);
}

write_full :
    (max : ℕ) (l : LimitWriter) (p : Text)
    → l.max ≡ pos max
    → max ≤ l.n
    → write l p ≡ record l { truncated = true }
unfolding write
write_full max l p e h = ground arith

-- Where there is room, what is written is what fits.
write_room :
    (max : ℕ) (l : LimitWriter) (p : Text) (k : ℕ)
    → l.max ≡ pos max
    → l.n ≡ k
    → k < max
    → write l p ≡ write_allowed l p (take (max - k) p)
unfolding write
write_room max l p k e same h = ground (arith, take_all (max - k) p)

module _ (max : ℕ) (l : LimitWriter) (all p : Text) (b : Bounded max l all) where
  full-Bounded : max ≤ length all → Bounded max (record l { truncated = true }) (all ++ p)
  full-Bounded h = record {
    limit = b.limit;
    counted = b.counted;
    prefix =
        let none_left : max - length all ≡ 0 = omega arith in
        rw (take-append, none_left, append-nil) b.prefix;
    flagged = λ _. refl;
  }

  room-Bounded :
      length all < max → Bounded max (write_allowed l p (take (max - length all) p)) (all ++ p)
  unfolding write_allowed
  room-Bounded h = record {
    limit = b.limit;
    counted = omega (arith, b.counted, length-append l.out (take (max - length all) p));
    prefix = rw (take-append, b.prefix);
    flagged = λ over. ground (arith, over, length-append all p, length-take (max - length all) p);
  }

  written : l.n ≡ length (take max all)
  written = b.counted ∙ ap length b.prefix

  write-Bounded : Bounded max (write l p) (all ++ p)
  write-Bounded = elim (Bool-cases (leb max (length all))) [
    | inl full ↦
        rw
          (write_full max l p b.limit
            (omega (arith, written, length-take max all (leb→le _ _ full))))
          (full-Bounded (leb→le _ _ full))
    | inr room ↦
        let short : length all < max = ground (arith, room) in
        let same : l.n ≡ length all = written ∙ ap length (take_all max all (omega arith)) in
        rw (write_room max l p (length all) b.limit same short) (room-Bounded short)
  ]

write_all-Bounded :
    (max : ℕ) (l : LimitWriter) (all : Text) (ps : List Text)
    → Bounded max l all
    → Bounded max (write_all l ps) (all ++ concat ps)
unfolding write_all concat
write_all-Bounded max l all [] b = rw append-nil b
write_all-Bounded max l all (p ∷ ps) b =
    rw (← append_assoc)
      (write_all-Bounded max (write l p) (all ++ p) ps (write-Bounded max l all p b))

-- Whatever the writes, the log holds the first `max` bytes of what was written, and either that is all
-- of it or the flag is set.
pub write_all-limit :
    (max : ℕ) (ps : List Text)
    → let l = write_all (new (pos max)) ps in
      (l.out ≡ take max (concat ps)) × ((leb (length (concat ps)) max || l.truncated) ≡ true)
write_all-limit max ps =
    let b = write_all-Bounded max (new (pos max)) [] ps (new-Bounded max) in
    (b.prefix, ground (arith, b.flagged))
