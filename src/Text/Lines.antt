-- ===== src/Text/Lines.antt =====
-- libupnpp/smallut.cpp, `truncate_to_word` and `breakIntoLines`. `none` is out of fuel.
pub mod Bounds
use mathlib.Core.List.{reverse}
use libupnpp.Prelude.{
  ℕ, zero, suc, ◌+◌, ◌==◌, Bool, true, false, List, [], ◌∷◌, ◌++◌, Option, none, some,
  if◌then◌else◌, leb, Bytes, codes, one_of, until, from, length, take, drop,
}

-- `cstr_SEPAR`
abbrev pub separators : Bytes
separators = codes " \t\n\r-:.;,/[]{}"

abbrev pub without_first : Bytes → Bytes
without_first [] = []
without_first (c ∷ s) = s

-- The text before the last character that passes, or the empty text. `find_last_of` searches from the
-- end, so the text is searched reversed.
unfoldable pub before_last : (ℕ → Bool) → Bytes → Bytes
unfolding from
before_last p s = reverse (without_first (from p (reverse s)))

unfoldable pub truncate_to_word : Bytes → ℕ → Bytes
unfolding before_last
truncate_to_word input maxlen =
    if leb (length input) maxlen then input else before_last (one_of separators) (take maxlen input)

abbrev pub is_space : ℕ → Bool
is_space c = c == b' '

-- A line up to its first space, or the whole text.
abbrev pub to_first_space : Bytes → Bytes → Bytes
unfolding until
to_first_space query [] = query
to_first_space query (c ∷ s) = until is_space query ++ c ∷ []

-- A full line is cut behind its last space; without one it runs to the first space that comes.
abbrev pub cut_line : Bytes → Bytes → Bytes → Bytes
unfolding to_first_space from
cut_line query ss [] = to_first_space query (from is_space query)
cut_line query ss (c ∷ s) = reverse (c ∷ s)

abbrev pub next_line : ℕ → Bytes → Bytes
unfolding cut_line from
next_line ll query =
    let ss = take ll query in
    if length ss == ll then cut_line query ss (from is_space (reverse ss)) else ss

-- The text so far, the line and the turn of the loop that follows.
abbrev pub add_line :
    (ℕ → Bytes → Bytes → Option Bytes) → ℕ → ℕ → Bytes → Bytes → Bytes → Option Bytes
add_line loop maxlines nlines oq query [] = some query
add_line loop maxlines nlines oq query (c ∷ line) =
    let out = oq ++ (c ∷ line) ++ codes "\n" in
    if leb maxlines nlines
    then some (out ++ codes " ... \n")
    else loop (nlines + 1) out (drop (length (c ∷ line)) query)

unfoldable pub lines_loop : ℕ → ℕ → ℕ → ℕ → Bytes → Bytes → Option Bytes
unfolding next_line
lines_loop zero ll maxlines nlines oq query = none
lines_loop (suc fuel) ll maxlines nlines oq [] = some oq
lines_loop (suc fuel) ll maxlines nlines oq (c ∷ s) =
    add_line (lines_loop fuel ll maxlines) maxlines nlines oq (c ∷ s) (next_line ll (c ∷ s))

unfoldable pub break_into_lines : Bytes → ℕ → ℕ → Option Bytes
unfolding lines_loop
break_into_lines s ll maxlines = lines_loop (suc (length s)) ll maxlines 0 [] s
