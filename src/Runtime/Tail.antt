-- ===== src/Runtime/Tail.antt =====
-- internal/runtime/docker.go, `stderrRecorder`: what it keeps.
use vci.Base.{
  ℕ, zero, suc, ◌+◌, ◌-◌, ◌≤◌, ◌<◌, ◌≡◌, refl, sym, ap, ◌∙◌, inl, inr, List, [], ◌∷◌, ◌++◌, arith,
  ltb, leb, if◌then◌else◌, Bool-cases, length, length-append, take, drop, all, Text,
}
use vci.Runtime.Execute.{Recorder, record_all, record_bytes, record_write}
use mathlib.Core.List.{append_assoc, append-nil}

take-drop : (n : ℕ) (xs : Text) → take n xs ++ drop n xs ≡ xs
take-drop zero xs = refl
take-drop (suc n) [] = refl
take-drop (suc n) (x ∷ xs) = ap (◌∷◌ x) (take-drop n xs)

length-drop : (n : ℕ) (xs : Text) → length (drop n xs) ≡ length xs - n
length-drop zero xs = omega arith
length-drop (suc n) [] = omega arith
length-drop (suc n) (x ∷ xs) = omega (arith, length-drop n xs)

-- What the writer behind the recorder has taken.
abbrev pub taken : List (Text × ℕ) → Text
taken [] = []
taken ((p, n) ∷ ws) = take n p ++ taken ws

-- The recorder holds the end of `all`, as much of it as `max` bytes.
pub record Tail (max : ℕ) (all : Text) (r : Recorder) : Type 0 where
  pub front : Text
  pub whole : front ++ r.buf ≡ all
  pub limit : r.max ≡ max
  pub size : length r.buf ≡ (if leb (length all) max then length all else max)

module _ (max : ℕ) (all p : Text) (r : Recorder) (t : Tail max all r) where
  sizes : length t.front + length r.buf ≡ length all
  sizes = sym (length-append t.front r.buf) ∙ ap length t.whole

  long-Tail :
      max < length (r.buf ++ p)
      → Tail max (all ++ p) (record r { buf = drop (length (r.buf ++ p) - r.max) (r.buf ++ p) })
  long-Tail h = record {
    front = t.front ++ take (length (r.buf ++ p) - r.max) (r.buf ++ p);
    whole =
        append_assoc t.front (take (length (r.buf ++ p) - r.max) (r.buf ++ p)) _
        ∙ ap (λ x. t.front ++ x) (take-drop (length (r.buf ++ p) - r.max) (r.buf ++ p))
        ∙ sym (append_assoc t.front r.buf p)
        ∙ ap (λ x. x ++ p) t.whole;
    limit = t.limit;
    size = ground (
      arith,
      h,
      sizes,
      length-drop (length (r.buf ++ p) - r.max) (r.buf ++ p),
      length-append r.buf p,
      length-append all p,
    );
  }

  short-Tail : length (r.buf ++ p) ≤ max → Tail max (all ++ p) (record r { buf = r.buf ++ p })
  short-Tail h = record {
    front = t.front;
    whole = sym (append_assoc t.front r.buf p) ∙ ap (λ x. x ++ p) t.whole;
    limit = t.limit;
    size = ground (arith, h, sizes, t.size, length-append r.buf p, length-append all p);
  }

  record_bytes-Tail : Tail max (all ++ p) (record_bytes r p)
  unfolding record_bytes
  record_bytes-Tail = elim (Bool-cases (ltb r.max (length (r.buf ++ p)))) [
    | inl long ↦ rw (record_bytes, long) (long-Tail (ground (arith, long, t.limit)))
    | inr short ↦ rw (record_bytes, short) (short-Tail (ground (arith, short, t.limit)))
  ]

record_write-Tail :
    (max : ℕ) (all : Text) (r : Recorder) (w : Text × ℕ)
    → Tail max all r
    → Tail max (all ++ take w.1 w.0) (record_write r w)
unfolding record_write
record_write-Tail max all r (p, zero) t = rw append-nil t
record_write-Tail max all r (p, suc n) t = record_bytes-Tail max all (take (suc n) p) r t

record_all-Tail :
    (max : ℕ) (all : Text) (r : Recorder) (ws : List (Text × ℕ))
    → Tail max all r
    → Tail max (all ++ taken ws) (record_all r ws)
unfolding record_all
record_all-Tail max all r [] t = rw append-nil t
record_all-Tail max all r ((p, n) ∷ ws) t = rw (← append_assoc) (
    record_all-Tail max (all ++ take n p) (record_write r (p, n)) ws
      (record_write-Tail max all r (p, n) t))

-- However the writes are cut into pieces, the recorder of stderr holds the last bytes that were written:
-- all of them if there are at most `max`, and else the last `max`.
pub record_all_lem :
    (max : ℕ) (ws : List (Text × ℕ))
    → Tail max (taken ws) (record_all (record { buf = []; max = max }) ws)
record_all_lem max ws =
    record_all-Tail max [] (record { buf = []; max = max }) ws
      (record { front = []; whole = refl; limit = refl; size = ground arith })
