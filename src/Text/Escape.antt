-- ===== src/Text/Escape.antt =====
-- Escaping of special characters: `escapeHtml`, `escapeShell` and `makeCString` of
-- libupnpp/smallut.cpp, and `SoapHelp::xmlQuote` and `xmlUnquote` of libupnpp/soaphelp.cxx.
pub mod Xml
pub mod Quoted
use libupnpp.Prelude.{
  ℕ, zero, suc, Bool, true, false, [], ◌∷◌, ◌++◌, Option, none, some, Bytes, codes, until, from,
  beq, ◌==◌, if◌then◌else◌, length,
}

-- What is appended for one character.
html_entity : ℕ → Bytes
html_entity c =
    if c == b'<'
    then codes "&lt;"
    else if c == b'>'
    then codes "&gt;"
    else if c == b'&'
    then codes "&amp;"
    else if c == b'"'
    then codes "&quot;"
    else c ∷ []

unfoldable pub escape_html : Bytes → Bytes
unfolding html_entity
escape_html [] = []
escape_html (c ∷ s) = html_entity c ++ escape_html s

shell_char : ℕ → Bytes
shell_char c =
    if c == b'$'
    then codes "\\$"
    else if c == b'`'
    then codes "\\`"
    else if c == b'"'
    then codes "\\\""
    else if c == b'\n'
    then codes "\\\n"
    else if c == b'\\'
    then codes "\\\\"
    else c ∷ []

shell_chars : Bytes → Bytes
unfolding shell_char
shell_chars [] = []
shell_chars (c ∷ s) = shell_char c ++ shell_chars s

unfoldable pub escape_shell : Bytes → Bytes
unfolding shell_chars
escape_shell s = b'"' ∷ shell_chars s ++ b'"' ∷ []

c_char : ℕ → Bytes
c_char c =
    if c == b'"'
    then codes "\\\""
    else if c == b'\n'
    then codes "\\n"
    else if c == b'\r'
    then codes "\\r"
    else if c == b'\\'
    then codes "\\\\"
    else c ∷ []

c_chars : Bytes → Bytes
unfolding c_char
c_chars [] = []
c_chars (c ∷ s) = c_char c ++ c_chars s

unfoldable pub make_c_string : Bytes → Bytes
unfolding c_chars
make_c_string s = b'"' ∷ c_chars s ++ b'"' ∷ []

xml_entity : ℕ → Bytes
xml_entity c =
    if c == b'"'
    then codes "&quot;"
    else if c == b'&'
    then codes "&amp;"
    else if c == b'<'
    then codes "&lt;"
    else if c == b'>'
    then codes "&gt;"
    else if c == b'\''
    then codes "&apos;"
    else c ∷ []

unfoldable pub xml_quote : Bytes → Bytes
unfolding xml_entity
xml_quote [] = []
xml_quote (c ∷ s) = xml_entity c ++ xml_quote s

-- The character of an entity's name.
entity : Bytes → Option ℕ
entity name =
    if beq name (codes "quot")
    then some b'"'
    else if beq name (codes "amp")
    then some b'&'
    else if beq name (codes "lt")
    then some b'<'
    else if beq name (codes "gt")
    then some b'>'
    else if beq name (codes "apos")
    then some b'\''
    else none

-- What is appended for `&name;`: an unknown entity stays.
known_or_raw : Bytes → Option ℕ → Bytes
known_or_raw name none = b'&' ∷ name ++ b';' ∷ []
known_or_raw name (some c) = c ∷ []

abbrev prepend : Bytes → Option Bytes → Option Bytes
prepend s none = none
prepend s (some out) = some (s ++ out)

-- The loop over the text, on fuel: one step for each character or entity. `none` is out of fuel.
unquote : ℕ → Bytes → Option Bytes
unfolding entity known_or_raw
unquote zero s = none
unquote (suc fuel) [] = some []
unquote (suc fuel) (c ∷ s) = elim (c == b'&') [
  | true ↦ elim (from (λ x. x == b';') s) [
    | [] ↦ some (c ∷ s)
    | d ∷ rest ↦
        let name = until (λ x. x == b';') s in
        prepend (known_or_raw name (entity name)) (unquote fuel rest)
  ]
  | false ↦ prepend (c ∷ []) (unquote fuel s)
]

unfoldable pub xml_unquote : Bytes → Option Bytes
unfolding unquote
xml_unquote s = unquote (suc (length s)) s
