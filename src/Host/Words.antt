-- ===== src/Host/Words.antt =====
-- How a POSIX shell reads a line into commands and words, as far as no expansion takes part: blanks,
-- single quotes, the backslash and `&&`. A line with any other character that the shell could treat
-- specially is not read at all, nor is a word that begins with `~`.
use vci.Base.{
  ℕ, ◌≡◌, Bool, true, false, ◌||◌, Option, none, some, List, [], ◌∷◌, ◌==◌, if◌then◌else◌, Text,
}
use vci.Model.Names.{is_alnum}

pub data CharClass : Type 0 where
  blank quote backslash ampersand tilde plain special : CharClass

unfoldable pub class_of : ℕ → CharClass
unfolding is_alnum
class_of c =
    if c == b' '
    then blank
    else if c == b'\''
    then quote
    else if c == b'\\'
    then backslash
    else if c == b'&'
    then ampersand
    else if c == b'~'
    then tilde
    else if is_alnum c
        || c == b'_'
        || c == b'.'
        || c == b'/'
        || c == b':'
        || c == b'@'
        || c == b'-'
        || c == b'='
    then plain
    else special

pub data Mode : Type 0 where
  between in_word in_quotes after_backslash after_ampersand unread : Mode

-- What stands outside of quotes; the flag says whether a word may begin with a tilde.
abbrev pub unquoted : Bool → CharClass → Mode
unquoted t blank = between
unquoted t quote = in_quotes
unquoted t backslash = after_backslash
unquoted t ampersand = after_ampersand
unquoted true tilde = in_word
unquoted false tilde = unread
unquoted t plain = in_word
unquoted t special = unread

unfoldable pub next_mode : Mode → ℕ → Mode
unfolding class_of
next_mode between c = unquoted false (class_of c)
next_mode in_word c = unquoted true (class_of c)
next_mode in_quotes c = if c == b'\'' then in_word else in_quotes
next_mode after_backslash c = if c == 10 then unread else in_word
next_mode after_ampersand c = if c == b'&' then between else unread
next_mode unread c = unread

-- The rest of a word, the words after it and the commands after its own.
abbrev pub Reading : Type 0
Reading = Text × List Text × List (List Text)

abbrev pub push : ℕ → Reading → Reading
push c (w, ws, cs) = (c ∷ w, ws, cs)

abbrev pub begin : Reading → Reading
begin (w, ws, cs) = ([], w ∷ ws, cs)

abbrev pub next_command : Reading → Reading
next_command (w, ws, cs) = ([], [], ws ∷ cs)

abbrev pub first : ℕ → CharClass → Reading → Reading
first c quote r = begin r
first c backslash r = begin r
first c plain r = begin (push c r)
first c _ r = r

abbrev pub further : ℕ → CharClass → Reading → Reading
further c plain r = push c r
further c tilde r = push c r
further c _ r = r

-- What a character adds to what is read after it.
unfoldable pub emit : Mode → ℕ → Reading → Reading
unfolding class_of
emit between c r = first c (class_of c) r
emit in_word c r = further c (class_of c) r
emit in_quotes c r = if c == b'\'' then r else push c r
emit after_backslash c r = push c r
emit after_ampersand c r = next_command r
emit unread c r = r

abbrev pub emitted : Mode → ℕ → Option Reading → Option Reading
emitted m c none = none
emitted m c (some r) = some (emit m c r)

unfoldable pub read_on : Mode → Text → Option Reading
unfolding next_mode emit
read_on between [] = some ([], [], [])
read_on in_word [] = some ([], [], [])
read_on _ [] = none
read_on m (c ∷ cs) = emitted m c (read_on (next_mode m c) cs)

abbrev pub all_commands : Reading → List (List Text)
all_commands (w, ws, cs) = ws ∷ cs

-- The commands of a line that are joined by `&&`, each with its words.
unfoldable pub shell_commands : Text → Option (List (List Text))
unfolding read_on
shell_commands s = elim (read_on between s) [ none ↦ none | some r ↦ some (all_commands r) ]

-- The commands after a first word, where that word is the last of its own command.
abbrev pub later_commands : Reading → Option (List (List Text))
later_commands ([], [], cs) = some cs
later_commands _ = none

unfoldable pub following_commands : Text → Option (List (List Text))
unfolding read_on
following_commands s = elim (read_on in_word s) [ none ↦ none | some r ↦ later_commands r ]

-- One character, when what follows it is read.
pub read_on-cons :
    (m : Mode) (c : ℕ) (cs : Text) (r : Reading)
    → read_on (next_mode m c) cs ≡ some r
    → read_on m (c ∷ cs) ≡ some (emit m c r)
unfolding read_on
read_on-cons between c cs r h = rw h
read_on-cons in_word c cs r h = rw h
read_on-cons in_quotes c cs r h = rw h
read_on-cons after_backslash c cs r h = rw h
read_on-cons after_ampersand c cs r h = rw h
read_on-cons unread c cs r h = rw h
