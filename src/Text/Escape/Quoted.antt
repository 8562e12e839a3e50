-- ===== src/Text/Escape/Quoted.antt =====
-- `escapeShell` and `makeCString` against readers of double-quoted strings of the shell and of C.
use libupnpp.Prelude.{
  ℕ, Bool, true, false, [], ◌∷◌, ◌++◌, Option, none, some, Bytes, codes, one_of, ◌==◌,
  if◌then◌else◌, ◌≡◌, refl, arith, append_assoc,
}
use libupnpp.Text.Escape.{shell_char, shell_chars, escape_shell, c_char, c_chars, make_c_string}

abbrev pub prepend : Bytes → Option Bytes → Option Bytes
prepend u none = none
prepend u (some out) = some (u ++ out)

-- The closing double quote ends the text.
abbrev pub closed : Bytes → Option Bytes
closed [] = some []
closed (c ∷ s) = none

-- The text up to the closing double quote as a POSIX shell reads it, the flag being set behind a
-- backslash: that hides `$`, a grave accent, a double quote and a backslash, is dropped with a
-- newline, and stays before any other. A bare `$` or grave accent would be expanded: `none`.
abbrev pub shell_read : Bytes → Bool → Option Bytes
shell_read [] hidden = none
shell_read (c ∷ s) true =
    prepend
      (if c == b'\n' then [] else if one_of (codes "$`\"\\") c then c ∷ [] else b'\\' ∷ c ∷ [])
      (shell_read s false)
shell_read (c ∷ s) false =
    if c == b'"'
    then closed s
    else if one_of (codes "$`") c
    then none
    else if c == b'\\'
    then shell_read s true
    else prepend (c ∷ []) (shell_read s false)

abbrev pub drop_newlines : Bytes → Bytes
drop_newlines [] = []
drop_newlines (c ∷ s) = if c == b'\n' then drop_newlines s else c ∷ drop_newlines s

shell_read_char :
    (c : ℕ) (rest : Bytes)
    → shell_read (shell_char c ++ rest) false
      ≡ prepend (if c == b'\n' then [] else c ∷ []) (shell_read rest false)
unfolding shell_char
shell_read_char c rest = ground arith

shell_read_chars :
    (s : Bytes) → shell_read (shell_chars s ++ b'"' ∷ []) false ≡ some (drop_newlines s)
unfolding shell_chars
shell_read_chars [] = refl
shell_read_chars (c ∷ s) =
    rw
      (
        append_assoc (shell_char c) (shell_chars s) (b'"' ∷ []),
        shell_read_char c,
        shell_read_chars s,
      )
      (ground arith)

-- A text without its opening double quote.
abbrev pub opened : Bytes → Bytes
opened [] = []
opened (c ∷ s) = s

-- A shell reads the escaped text as the text less its newlines, which an escaped newline drops.
pub escape_shell_read :
    (s : Bytes) → shell_read (opened (escape_shell s)) false ≡ some (drop_newlines s)
unfolding escape_shell
escape_shell_read s = shell_read_chars s

-- The text up to the closing double quote as C reads it: four escapes and no bare newline.
abbrev pub c_read : Bytes → Bool → Option Bytes
c_read [] hidden = none
c_read (c ∷ s) true =
    let rest = c_read s false in
    if c == b'n'
    then prepend (b'\n' ∷ []) rest
    else if c == b'r'
    then prepend (b'\r' ∷ []) rest
    else if one_of (codes "\"\\") c
    then prepend (c ∷ []) rest
    else none
c_read (c ∷ s) false =
    if c == b'"'
    then closed s
    else if c == b'\n'
    then none
    else if c == b'\\'
    then c_read s true
    else prepend (c ∷ []) (c_read s false)

c_read_char :
    (c : ℕ) (rest : Bytes) → c_read (c_char c ++ rest) false ≡ prepend (c ∷ []) (c_read rest false)
unfolding c_char
c_read_char c rest = ground arith

c_read_chars : (s : Bytes) → c_read (c_chars s ++ b'"' ∷ []) false ≡ some s
unfolding c_chars
c_read_chars [] = refl
c_read_chars (c ∷ s) =
    rw (append_assoc (c_char c) (c_chars s) (b'"' ∷ []), c_read_char c, c_read_chars s) refl

-- A C compiler reads the literal as the text, newlines and carriage returns included.
pub make_c_string_read : (s : Bytes) → c_read (opened (make_c_string s)) false ≡ some s
unfolding make_c_string
make_c_string_read s = c_read_chars s
