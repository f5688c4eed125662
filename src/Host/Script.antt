-- ===== src/Host/Script.antt =====
-- The script that `composeShell` writes for a POSIX worker, read back by a shell.
use vci.Base.{
  ℕ, ◌≡◌, refl, ap, ◌∙◌, inl, inr, true, false, ◌&&◌, some, List, [], ◌∷◌, ◌++◌, arith, ◌==◌,
  if◌then◌else◌, &&_parts, Bool-cases, all, All, ok, Text, codes, has_prefix, is_empty,
}
use vci.Config.Strings.{contains}
use vci.Host.Paths.{validate_remote_path}
use vci.Host.Quoting.{prepend, read_on-shell_quote, read_on-shell_quote_in}
use vci.Host.Shell.{
  Env, argument_word, argument_words, command_steps, exports, is_shell_safe, preamble, remote_word,
  shell_quote, shell_safe, sorted_keys, value_of,
}
use vci.Host.Windows.{compose_shell, is_windows_os}
use vci.Host.Words.{
  Reading, begin, between, class_of, emit, following_commands, in_word, next_mode, plain, push,
  read_on, read_on-cons, tilde,
}
use vci.Model.Names.{is_alnum}
use vci.Model.State.{valid}
use mathlib.Core.List.{append_assoc, append-nil}

-- The word stands in the script as it is: it is not the shell-safe word with the work directory that
-- begins with `~`, which `remoteWord` roots at the login home.
abbrev pub IsLiteral : Text → Text → Type 0
IsLiteral work_dir arg =
    (contains arg work_dir && shell_safe arg && has_prefix (codes "~") arg) ≡ false

class_of-is_shell_safe :
    (c : ℕ) → is_shell_safe c ≡ true → class_of c ≡ (if c == b'~' then tilde else plain)
unfolding is_shell_safe class_of is_alnum
class_of-is_shell_safe c h = ground arith

next_mode-is_shell_safe : (c : ℕ) → is_shell_safe c ≡ true → next_mode in_word c ≡ in_word
unfolding next_mode
next_mode-is_shell_safe c h = ground (arith, class_of-is_shell_safe c h)

emit-is_shell_safe : (c : ℕ) (r : Reading) → is_shell_safe c ≡ true → emit in_word c r ≡ push c r
unfolding emit
emit-is_shell_safe c r h = ground (arith, class_of-is_shell_safe c h)

-- Shell-safe characters inside of a word stand for themselves.
read_on-is_shell_safe :
    (v s : Text) (r : Reading)
    → all is_shell_safe v ≡ true
    → read_on in_word s ≡ some r
    → read_on in_word (v ++ s) ≡ some (prepend v r)
read_on-is_shell_safe [] s r safe h = h
read_on-is_shell_safe (c ∷ v) s r safe h =
    let (a, b) = &&_parts (is_shell_safe c) (all is_shell_safe v) safe in
    read_on-cons in_word c (v ++ s) (prepend v r)
      (rw (next_mode-is_shell_safe c a) (read_on-is_shell_safe v s r b h))
    ∙ ap some (emit-is_shell_safe c (prepend v r) a)

next_mode-first :
    (c : ℕ) → is_shell_safe c ≡ true → (c == b'~') ≡ false → next_mode between c ≡ in_word
unfolding next_mode
next_mode-first c h t = ground (arith, class_of-is_shell_safe c h)

emit-first :
    (c : ℕ) (r : Reading)
    → is_shell_safe c ≡ true
    → (c == b'~') ≡ false
    → emit between c r ≡ begin (push c r)
unfolding emit
emit-first c r h t = ground (arith, class_of-is_shell_safe c h)

-- At the start of a word too, unless the first is a tilde.
pub read_on-shell_safe :
    (v s : Text) (r : Reading)
    → shell_safe v ≡ true
    → has_prefix (codes "~") v ≡ false
    → read_on in_word s ≡ some r
    → read_on between (v ++ s) ≡ some (begin (prepend v r))
unfolding shell_safe has_prefix
read_on-shell_safe [] s r safe t h = cc
read_on-shell_safe (c ∷ v) s r safe t h =
    let (a, b) = &&_parts (is_shell_safe c) (all is_shell_safe v) safe in
    let k : (c == b'~') ≡ false = ground arith in
    read_on-cons between c (v ++ s) (prepend v r)
      (rw (next_mode-first c a k) (read_on-is_shell_safe v s r b h))
    ∙ ap some (emit-first c (prepend v r) a k)

remote_word-literal : (arg : Text) → has_prefix (codes "~") arg ≡ false → remote_word arg ≡ arg
unfolding remote_word
remote_word-literal arg t = rw t

-- A literal word of the command is read as the argument itself.
read_on-argument_word :
    (work_dir arg s : Text) (r : Reading)
    → IsLiteral work_dir arg
    → read_on in_word s ≡ some r
    → read_on between (argument_word work_dir arg ++ s) ≡ some (begin (prepend arg r))
unfolding argument_word
read_on-argument_word work_dir arg s r literal h =
    elim (Bool-cases (contains arg work_dir && shell_safe arg)) [
      | inr f ↦ rw f (read_on-shell_quote arg s r h)
      | inl p ↦
          let safe : shell_safe arg ≡ true = (&&_parts (contains arg work_dir) _ p).1 in
          let t : has_prefix (codes "~") arg ≡ false = ground arith in
          rw p (rw (remote_word-literal arg t) (read_on-shell_safe arg s r safe t h))
    ]

read_on-end : read_on in_word [] ≡ some ([], [], [])
unfolding read_on
read_on-end = refl

read_on-space :
    (s : Text) (r : Reading) → read_on between s ≡ some r → read_on in_word (b' ' ∷ s) ≡ some r
unfolding next_mode emit
read_on-space s r h = read_on-cons in_word b' ' s r h

read_on-argument_words :
    (work_dir arg : Text) (args : List Text)
    → All (IsLiteral work_dir) (arg ∷ args)
    → read_on between (argument_words work_dir (arg ∷ args)) ≡ some ([], arg ∷ args, [])
unfolding argument_words
read_on-argument_words work_dir arg [] h =
    let e = read_on-argument_word work_dir arg [] ([], [], []) h.0 read_on-end in
    rw (append-nil (argument_word work_dir arg), append-nil arg) at e
read_on-argument_words work_dir arg (a ∷ args) h =
    let ih = read_on-argument_words work_dir a args h.1 in
    let e =
      read_on-argument_word work_dir arg (b' ' ∷ argument_words work_dir (a ∷ args))
        ([], a ∷ args, []) h.0
        (read_on-space (argument_words work_dir (a ∷ args)) ([], a ∷ args, []) ih) in
    rw (append-nil arg) at e

-- The commands that the environment is exported by, in the order of the keys.
abbrev pub export_commands : Env → List Text → List (List Text)
export_commands env [] = []
export_commands env (k ∷ ks) =
    let rest = export_commands env ks in
    if is_empty k then rest else (codes "export" ∷ (k ++ b'=' ∷ value_of env k) ∷ []) ∷ rest

read_on-export :
    (k v s : Text) (cs : List (List Text))
    → read_on in_word s ≡ some ([], [], cs)
    → read_on in_word (codes " && export " ++ (shell_quote k ++ b'=' ∷ (shell_quote v ++ s)))
      ≡ some ([], [], (codes "export" ∷ (k ++ b'=' ∷ v) ∷ []) ∷ cs)
unfolding read_on next_mode emit
read_on-export k v s cs h =
    let at_value = read_on-shell_quote_in v s ([], [], cs) h in
    let at_equals =
      read_on-cons in_word b'=' (shell_quote v ++ s) (prepend v ([], [], cs)) at_value in
    let at_key =
      read_on-shell_quote k (b'=' ∷ shell_quote v ++ s) (b'=' ∷ v ++ [], [], cs) at_equals in
    rw (at_key, append-nil v) refl

read_on-exports :
    (env : Env) (ks : List Text) (s : Text) (cs : List (List Text))
    → read_on in_word s ≡ some ([], [], cs)
    → read_on in_word (exports env ks ++ s) ≡ some ([], [], export_commands env ks ++ cs)
unfolding exports
read_on-exports env [] s cs h = h
read_on-exports env (k ∷ ks) s cs h = elim (Bool-cases (is_empty k)) [
  | inl e ↦ rw e (read_on-exports env ks s cs h)
  | inr e ↦ rw e (
      simp append_assoc (
        read_on-export k (value_of env k) (exports env ks ++ s) (export_commands env ks ++ cs)
          (read_on-exports env ks s cs h)))
]

read_on-exec :
    (s : Text) (argv : List Text)
    → read_on between s ≡ some ([], argv, [])
    → read_on in_word (codes " && exec " ++ s) ≡ some ([], [], (codes "exec" ∷ argv) ∷ [])
unfolding read_on next_mode emit
read_on-exec s argv h = rw h

following_commands-read_on :
    (s : Text) (cs : List (List Text))
    → read_on in_word s ≡ some ([], [], cs)
    → following_commands s ≡ some cs
unfolding following_commands
following_commands-read_on s cs h = rw (following_commands, h) refl

-- For a POSIX worker and a valid work directory the script is the preamble with further commands behind
-- it: one export for each variable with a key, in the order of the keys and with its exact value, and
-- then the command with exactly its arguments and no other, whatever characters they hold. No argument
-- may be the shell-safe path with the work directory that begins with a tilde, which the login home
-- replaces.
pub compose_shell_lem :
    (work_dir arg os : Text) (args : List Text) (env : Env)
    → validate_remote_path work_dir ≡ ok tt
    → is_windows_os os ≡ false
    → All (IsLiteral work_dir) (arg ∷ args)
    → (steps : Text) × (compose_shell work_dir (arg ∷ args) env os
        ≡ ok (preamble work_dir ++ steps))
      × (following_commands steps
          ≡ some (export_commands env (sorted_keys env) ++ (codes "exec" ∷ arg ∷ args) ∷ []))
unfolding compose_shell command_steps
compose_shell_lem work_dir arg os args env valid posix h = (
  command_steps work_dir (arg ∷ args) env,
  rw (valid, posix) refl,
  following_commands-read_on _ _ (
      simp append_assoc (
        read_on-exports env (sorted_keys env) _ _
          (read_on-exec _ _ (read_on-argument_words work_dir arg args h)))),
)
