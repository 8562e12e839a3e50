-- ===== src/Text/Words.antt =====
-- libupnpp/smallut.cpp, `stringToStrings` and `stringsToString`: text to tokens and back, with
-- double quotes and backslashes. The container of tokens is a list (`insert` at the end).
pub mod Inverse
use libupnpp.Prelude.{
  ℕ, Bool, true, false, List, [], ◌∷◌, ◌++◌, Bytes, codes, one_of, ◌==◌, if◌then◌else◌, ◌||◌,
  pop_back,
}

pub data States : Type 0 where
  space token in_quote escape : States

pub record Lexer : Type 0 where
  pub tokens : List Bytes
  pub current : Bytes
  pub state : States

abbrev dquote : ℕ
dquote = b'"'

abbrev backslash : ℕ
backslash = b'\\'

-- `tokens.insert(tokens.end(), current); current.clear(); state = SPACE`
abbrev end_token : Lexer → Lexer
end_token l = record { tokens = l.tokens ++ l.current ∷ []; current = []; state = States.space }

abbrev add_char : ℕ → States → Lexer → Lexer
add_char c st l = record l { current = l.current ++ c ∷ []; state = st }

on_dquote : States → Lexer → Lexer
on_dquote States.space l = record l { state = States.in_quote }
on_dquote States.token l = add_char dquote States.token l
on_dquote States.in_quote l = end_token l
on_dquote States.escape l = add_char dquote States.in_quote l

on_backslash : States → Lexer → Lexer
on_backslash States.space l = add_char backslash States.token l
on_backslash States.token l = add_char backslash States.token l
on_backslash States.in_quote l = record l { state = States.escape }
on_backslash States.escape l = add_char backslash States.in_quote l

on_blank : ℕ → States → Lexer → Lexer
on_blank c States.space l = l
on_blank c States.token l = end_token l
on_blank c States.in_quote l = add_char c States.in_quote l
on_blank c States.escape l = add_char c States.escape l

on_sep : ℕ → States → Lexer → Lexer
on_sep c States.escape l = add_char c States.in_quote l
on_sep c States.in_quote l = add_char c States.in_quote l
on_sep c States.space l = record l { tokens = l.tokens ++ (c ∷ []) ∷ [] }
on_sep c States.token l = record {
  tokens = l.tokens ++ l.current ∷ (c ∷ []) ∷ [];
  current = [];
  state = States.space;
}

on_other : ℕ → States → Lexer → Lexer
on_other c States.escape l = add_char c States.in_quote l
on_other c States.space l = add_char c States.token l
on_other c States.token l = add_char c States.token l
on_other c States.in_quote l = add_char c States.in_quote l

-- One character of the loop: the switch, then the separators.
step : Bytes → ℕ → Lexer → Lexer
unfolding on_dquote on_backslash on_blank on_sep on_other
step addseps c l =
    if c == dquote
    then on_dquote l.state l
    else if c == backslash
    then on_backslash l.state l
    else if one_of (codes " \t\n\r") c
    then on_blank c l.state l
    else if one_of addseps c
    then on_sep c l.state l
    else on_other c l.state l

lex : Bytes → Bytes → Lexer → Lexer
unfolding step
lex addseps [] l = l
lex addseps (c ∷ s) l = lex addseps s (step addseps c l)

lex_end : States → Lexer → Bool × List Bytes
lex_end States.space l = (true, l.tokens)
lex_end States.token l = (true, l.tokens ++ l.current ∷ [])
lex_end States.in_quote l = (false, l.tokens)
lex_end States.escape l = (false, l.tokens)

abbrev lex_start : Lexer
lex_start = record { tokens = []; current = []; state = States.space }

-- The returned flag and the tokens.
unfoldable pub string_to_strings : Bytes → Bytes → Bool × List Bytes
unfolding lex lex_end
string_to_strings s addseps = let l = lex addseps s lex_start in lex_end l.state l

-- `tok.find_first_of(" \t\n") != npos`
pub has_blanks : Bytes → Bool
has_blanks [] = false
has_blanks (c ∷ s) = one_of (codes " \t\n") c || has_blanks s

-- The loop over the characters of a token.
pub escape_dquotes : Bytes → Bytes
escape_dquotes [] = []
escape_dquotes (c ∷ s) =
    if c == dquote then backslash ∷ c ∷ escape_dquotes s else c ∷ escape_dquotes s

-- What is appended for one token, the separating space left out.
write_token : Bytes → Bytes
unfolding has_blanks escape_dquotes
write_token [] = dquote ∷ dquote ∷ []
write_token (c ∷ s) =
    let tok = c ∷ s in
    if has_blanks tok then dquote ∷ escape_dquotes tok ++ dquote ∷ [] else escape_dquotes tok

write_tokens : List Bytes → Bytes → Bytes
unfolding write_token
write_tokens [] s = s
write_tokens (t ∷ ts) s = write_tokens ts (s ++ (write_token t ++ b' ' ∷ []))

unfoldable pub strings_to_string : List Bytes → Bytes → Bytes
unfolding write_tokens pop_back
strings_to_string [] s = s
strings_to_string (t ∷ ts) s = pop_back (write_tokens (t ∷ ts) s)
