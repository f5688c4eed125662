-- ===== src/Worker/Joining.antt =====
-- internal/cli/internal.go, `safeJoin`: where an archive member can end up.
use vci.Base.{
  ◌≡◌, refl, sym, ap, ◌∙◌, ◌⊎◌, inl, inr, Bool, true, false, ◌||◌, List, [], ◌∷◌, ◌++◌, arith,
  Bool-cases, All, ok, Text, codes, text_eq, text_eq_sound, has_prefix, is_empty,
}
use vci.Config.Strings.{dot_dot, split_path}
use vci.Worker.Archive.{safe_join}
use vci.Worker.Clean.{
  clean, clean_onto, clean_push, clean_segments, climb, dot, is_abs, join_path, join_segments,
  or_dot,
}
use vci.Worker.Segments.{
  IsNormal, NoSlash, NoSlash-split_path, clean_onto-IsNormal, split_path-join,
  split_path-join_before,
}
use mathlib.Core.List.{reverse, reverse-cons, reverse-reverse, append-nil}

abbrev IsUp : Text → Type 0
IsUp t = text_eq t dot_dot ≡ true

-- The segments of a cleaned relative path, the last one first: `..` stands at its front only.
abbrev IsRelative : List Text → Type 0
IsRelative [] = Unit
IsRelative (t ∷ ts) = (IsNormal t × IsRelative ts) ⊎ (IsUp t × All IsUp ts)

normal_not_up : {A : Type 0} (t : Text) → IsNormal t → IsUp t → A
normal_not_up t n u = absurd (cc (n.2))

IsRelative-climb : (ts : List Text) → IsRelative ts → IsRelative (climb false ts)
unfolding text_eq
IsRelative-climb [] h = inr (refl, tt)
IsRelative-climb (t ∷ ts) (inl (n, h)) = rw (n.2) h
IsRelative-climb (t ∷ ts) (inr (u, h)) = rw u (inr (refl, (u, h)))

IsRelative-push :
    (ts : List Text) (s : Text) → NoSlash s → IsRelative ts → IsRelative (clean_push false ts s)
unfolding clean_push
IsRelative-push ts s n h = elim (Bool-cases (is_empty s)) [
  | inl e ↦ rw e h
  | inr e ↦ elim (Bool-cases (text_eq s dot)) [
    | inl d ↦ rw (e, d) h
    | inr d ↦ elim (Bool-cases (text_eq s dot_dot)) [
      | inl u ↦ rw (e, d, u) (IsRelative-climb ts h)
      | inr u ↦ rw (e, d, u) (inl ((e, d, u, n), h))
    ]
  ]
]

IsRelative-clean_onto :
    (ts ss : List Text) → All NoSlash ss → IsRelative ts → IsRelative (clean_onto false ts ss)
unfolding clean_onto
IsRelative-clean_onto ts [] n h = h
IsRelative-clean_onto ts (s ∷ ss) n h =
    IsRelative-clean_onto (clean_push false ts s) ss n.1 (IsRelative-push ts s n.0 h)

All-snoc : (P : Text → Type 0) (ss : List Text) (s : Text) → All P ss → P s → All P (ss ++ s ∷ [])
All-snoc P [] s h p = (p, tt)
All-snoc P (t ∷ ss) s h p = (h.0, All-snoc P ss s h.1 p)

All-reverse : (P : Text → Type 0) (ss : List Text) → All P ss → All P (reverse ss)
All-reverse P [] h = tt
All-reverse P (s ∷ ss) h =
    rw (reverse-cons s ss) (All-snoc P (reverse ss) s (All-reverse P ss h.1) h.0)

abbrev StartsUp : List Text → Type 0
StartsUp [] = ⊥
StartsUp (s ∷ ss) = IsUp s

StartsUp-snoc : (ss : List Text) (s : Text) → StartsUp ss → StartsUp (ss ++ s ∷ [])
StartsUp-snoc [] s h = absurd h
StartsUp-snoc (t ∷ ss) s h = h

StartsUp-ups : (ss : List Text) (s : Text) → All IsUp ss → IsUp s → StartsUp (ss ++ s ∷ [])
StartsUp-ups [] s h u = u
StartsUp-ups (t ∷ ss) s h u = h.0

-- A cleaned relative path leaves its directory by its first segment or not at all.
IsRelative-cases :
    (ts : List Text) → IsRelative ts → All IsNormal (reverse ts) ⊎ StartsUp (reverse ts)
IsRelative-cases [] h = inl tt
IsRelative-cases (t ∷ ts) (inl (n, h)) = elim (IsRelative-cases ts h) [
  | inl a ↦ inl (rw (reverse-cons t ts) (All-snoc IsNormal (reverse ts) t a n))
  | inr u ↦ inr (rw (reverse-cons t ts) (StartsUp-snoc (reverse ts) t u))
]
IsRelative-cases (t ∷ ts) (inr (u, h)) =
    inr (rw (reverse-cons t ts) (StartsUp-ups (reverse ts) t (All-reverse IsUp ts h) u))

-- Such a path is refused.
unfoldable pub escapes : Text → Bool
escapes c = text_eq c dot_dot || has_prefix (codes "../") c

escapes-StartsUp : (s : Text) (ss : List Text) → IsUp s → escapes (join_segments (s ∷ ss)) ≡ true
unfolding escapes join_segments has_prefix text_eq
escapes-StartsUp s [] u = rw u refl
escapes-StartsUp s (t ∷ ss) u = rw (text_eq_sound s dot_dot u) refl

pub clean_relative :
    (p : Text) → is_empty p ≡ false → is_abs p ≡ false → clean p ≡ or_dot (clean_segments p)
unfolding clean
clean_relative p e a = rw (e, a) refl

clean_segments-cases :
    (p : Text) → is_abs p ≡ false → All IsNormal (clean_segments p) ⊎ StartsUp (clean_segments p)
unfolding clean_segments
clean_segments-cases p a = rw a (
    IsRelative-cases (clean_onto false [] (split_path p))
      (IsRelative-clean_onto [] (split_path p) (NoSlash-split_path p) tt))

escapes-or_dot : (ss : List Text) → StartsUp ss → escapes (or_dot ss) ≡ true
escapes-or_dot [] u = absurd u
escapes-or_dot (s ∷ ss) u = escapes-StartsUp s ss u

-- The cleaned name of a member that is not refused has normal segments.
pub clean_segments-IsNormal :
    (p : Text)
    → is_empty p ≡ false
    → is_abs p ≡ false
    → escapes (clean p) ≡ false
    → All IsNormal (clean_segments p)
clean_segments-IsNormal p e a x = elim (clean_segments-cases p a) [
  | inl normal ↦ normal
  | inr up ↦ absurd (cc (x, clean_relative p e a, escapes-or_dot (clean_segments p) up))
]

All-append : (ss ns : List Text) → All IsNormal ss → All IsNormal ns → All IsNormal (ss ++ ns)
All-append [] ns h k = k
All-append (s ∷ ss) ns h k = (h.0, All-append ss ns h.1 k)

All-NoSlash : (ss : List Text) → All IsNormal ss → All NoSlash ss
All-NoSlash [] h = tt
All-NoSlash (s ∷ ss) h = (h.0.3, All-NoSlash ss h.1)

reverse_twice : (ss : List Text) → reverse (reverse ss ++ []) ≡ ss
reverse_twice ss = ap reverse (append-nil (reverse ss)) ∙ reverse-reverse ss

normal_stays : (ss : List Text) → All IsNormal ss → reverse (clean_onto true [] ss) ≡ ss
unfolding clean_onto
normal_stays ss h =
    ap (λ l. reverse (clean_onto true [] l)) (sym (append-nil ss))
    ∙ ap reverse (clean_onto-IsNormal true [] ss [] h)
    ∙ reverse_twice ss

dot_skipped :
    (ss : List Text) → All IsNormal ss → reverse (clean_onto true [] (ss ++ dot ∷ [])) ≡ ss
unfolding clean_onto text_eq
dot_skipped ss h = ap reverse (clean_onto-IsNormal true [] ss (dot ∷ []) h) ∙ reverse_twice ss

split_path-dot : split_path dot ≡ dot ∷ []
unfolding split_path
split_path-dot = refl

-- The segments of a directory with what comes below it.
segments_below :
    (s : Text) (ss ns : List Text)
    → All IsNormal (s ∷ ss)
    → All IsNormal ns
    → reverse (clean_onto true [] (split_path (join_segments (s ∷ ss) ++ b'/' ∷ or_dot ns)))
      ≡ (s ∷ ss) ++ ns
segments_below s ss [] h k =
    let split = split_path-join_before s ss dot (All-NoSlash (s ∷ ss) h) in
    ap (λ l. reverse (clean_onto true [] l)) split
    ∙ ap (λ l. reverse (clean_onto true [] ((s ∷ ss) ++ l))) split_path-dot
    ∙ dot_skipped (s ∷ ss) h
    ∙ sym (append-nil (s ∷ ss))
segments_below s ss (n ∷ ns) h k =
    let split = split_path-join_before s ss (join_segments (n ∷ ns)) (All-NoSlash (s ∷ ss) h) in
    ap (λ l. reverse (clean_onto true [] l))
      (split ∙ ap (λ l. (s ∷ ss) ++ l) (split_path-join n ns (All-NoSlash (n ∷ ns) k)))
    ∙ normal_stays ((s ∷ ss) ++ (n ∷ ns)) (All-append (s ∷ ss) (n ∷ ns) h k)

clean_below :
    (s : Text) (ss ns : List Text)
    → All IsNormal (s ∷ ss)
    → All IsNormal ns
    → clean ((b'/' ∷ join_segments (s ∷ ss)) ++ b'/' ∷ or_dot ns)
      ≡ b'/' ∷ join_segments ((s ∷ ss) ++ ns)
unfolding clean clean_segments is_abs has_prefix clean_onto split_path
clean_below s ss ns h k = ap (λ l. b'/' ∷ join_segments l) (segments_below s ss ns h k)

or_dot-not_empty : (ns : List Text) → All IsNormal ns → is_empty (or_dot ns) ≡ false
unfolding join_segments
or_dot-not_empty [] k = refl
or_dot-not_empty ([] ∷ []) k = k.0.0
or_dot-not_empty ((c ∷ n) ∷ []) k = refl
or_dot-not_empty ([] ∷ m ∷ ns) k = refl
or_dot-not_empty ((c ∷ n) ∷ m ∷ ns) k = refl

pub join_path-below :
    (s : Text) (ss ns : List Text)
    → All IsNormal (s ∷ ss)
    → All IsNormal ns
    → join_path (b'/' ∷ join_segments (s ∷ ss)) (or_dot ns) ≡ b'/' ∷ join_segments ((s ∷ ss) ++ ns)
unfolding join_path
join_path-below s ss ns h k = rw (or_dot-not_empty ns k) (clean_below s ss ns h k)

-- An archive member is extracted at the root or below it: the path that `safeJoin` answers has the
-- segments of the root and behind them segments none of which is empty, `.` or `..`, for a root that is
-- absolute and clean.
pub safe_join_inside :
    (s : Text) (ss : List Text) (name target : Text)
    → All IsNormal (s ∷ ss)
    → safe_join (b'/' ∷ join_segments (s ∷ ss)) name ≡ ok target
    → (ns : List Text) × All IsNormal ns × (target ≡ b'/' ∷ join_segments ((s ∷ ss) ++ ns))
unfolding safe_join escapes
safe_join_inside s ss name target h e = elim (Bool-cases (is_empty name)) [
  | inl x ↦ absurd (ground (arith, x, e))
  | inr x ↦ elim (Bool-cases (is_abs name)) [
    | inl a ↦ absurd (ground (arith, x, a, e))
    | inr a ↦ elim (Bool-cases (escapes (clean name))) [
      | inl out ↦ absurd (ground (arith, x, a, out, e))
      | inr stays ↦
          let ns = clean_segments name in
          let normal = clean_segments-IsNormal name x a stays in
          let whole = join_path-below s ss ns h normal in
          let answer : join_path (b'/' ∷ join_segments (s ∷ ss)) (clean name) ≡ target =
            ground (arith, x, a, stays, e) in
          (
            ns,
            normal,
            sym answer
                ∙ ap (join_path (b'/' ∷ join_segments (s ∷ ss))) (clean_relative name x a)
                ∙ whole,
          )
    ]
  ]
]
