-- ===== src/Host/Quoting.antt =====
-- What `shellQuote` writes, read back by a shell.
use vci.Base.{
  ℕ, ◌≡◌, refl, ap, ◌∙◌, inl, inr, false, some, [], ◌∷◌, ◌++◌, arith, ◌==◌, ==_iff, Bool-cases,
  Text,
}
use vci.Host.Shell.{escape_quotes, shell_quote}
use vci.Host.Words.{
  Reading, after_backslash, backslash, begin, between, class_of, emit, in_quotes, in_word,
  next_mode, push, quote, read_on, read_on-cons,
}
use mathlib.Core.List.{append_assoc}

abbrev pub prepend : Text → Reading → Reading
prepend v (w, ws, cs) = (v ++ w, ws, cs)

class-quote : class_of b'\'' ≡ quote
unfolding class_of
class-quote = refl

class-backslash : class_of b'\\' ≡ backslash
unfolding class_of
class-backslash = refl

-- `\''` inside of a word stands for one quote and opens the quotes again.
read_on-escaped_quote :
    (s : Text) (r : Reading)
    → read_on in_quotes s ≡ some r
    → read_on in_quotes (b'\'' ∷ b'\\' ∷ b'\'' ∷ b'\'' ∷ s) ≡ some (push b'\'' r)
unfolding next_mode emit
read_on-escaped_quote s r h = read_on-cons in_quotes b'\'' _ _ (
    read_on-cons in_word b'\\' _ _
      (read_on-cons after_backslash b'\'' _ _ (read_on-cons in_word b'\'' _ _ h)))

next_mode-kept : (c : ℕ) → (c == b'\'') ≡ false → next_mode in_quotes c ≡ in_quotes
unfolding next_mode
next_mode-kept c h = ground arith

emit-kept : (c : ℕ) (r : Reading) → (c == b'\'') ≡ false → emit in_quotes c r ≡ push c r
unfolding emit
emit-kept c r h = ground arith

-- Any other character in the quotes stands for itself.
read_on-kept :
    (c : ℕ) (s : Text) (r : Reading)
    → (c == b'\'') ≡ false
    → read_on in_quotes s ≡ some r
    → read_on in_quotes (c ∷ s) ≡ some (push c r)
read_on-kept c s r k h =
    read_on-cons in_quotes c s r (rw (next_mode-kept c k) h) ∙ ap some (emit-kept c r k)

read_on-escape_quotes :
    (v s : Text) (r : Reading)
    → read_on in_quotes s ≡ some r
    → read_on in_quotes (escape_quotes v ++ s) ≡ some (prepend v r)
unfolding escape_quotes next_mode emit
read_on-escape_quotes [] s r h = h
read_on-escape_quotes (c ∷ v) s r h = elim (Bool-cases (c == b'\'')) [
  | inl q ↦
      let ih = read_on-escape_quotes v s r h in
      let e : c ≡ b'\'' = (==_iff c b'\'').0 q in
      rw q (rw e (read_on-escaped_quote (escape_quotes v ++ s) (prepend v r) ih))
  | inr k ↦
      rw k (read_on-kept c (escape_quotes v ++ s) (prepend v r) k (read_on-escape_quotes v s r h))
]

-- A quoted value is one word, the value itself, whatever characters it holds; `in_word` is what
-- stands right before it, such as the `=` of an assignment.
pub read_on-shell_quote_in :
    (v s : Text) (r : Reading)
    → read_on in_word s ≡ some r
    → read_on in_word (shell_quote v ++ s) ≡ some (prepend v r)
unfolding shell_quote next_mode emit
read_on-shell_quote_in v s r h = rw (append_assoc) (
    read_on-cons in_word b'\'' _ _
      (read_on-escape_quotes v (b'\'' ∷ s) r (read_on-cons in_quotes b'\'' _ _ h)))

pub read_on-shell_quote :
    (v s : Text) (r : Reading)
    → read_on in_word s ≡ some r
    → read_on between (shell_quote v ++ s) ≡ some (begin (prepend v r))
unfolding shell_quote next_mode emit
read_on-shell_quote v s r h = rw (append_assoc) (
    read_on-cons between b'\'' _ _
      (read_on-escape_quotes v (b'\'' ∷ s) r (read_on-cons in_quotes b'\'' _ _ h)))
