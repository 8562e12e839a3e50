-- ===== src/Text/Csv.antt =====
-- Comma-separated values: `stringsToCSV` of libupnpp/smallut.cpp, which quotes, and `csvToStrings` of
-- libupnpp/upnpplib.cxx, which reads backslash escapes as UPnP defines them.
pub mod Quoted
pub mod Escaped
use libupnpp.Prelude.{
  ℕ, Bool, true, false, List, [], ◌∷◌, ◌++◌, Bytes, codes, one_of, ◌==◌, if◌then◌else◌, ◌||◌,
  pop_back,
}

abbrev dquote : ℕ
dquote = b'"'

-- `tok.find_first_of(std::string(1, sep) + "\"\n") != npos`
holds_special : ℕ → Bytes → Bool
holds_special sep [] = false
holds_special sep (c ∷ s) = one_of (sep ∷ codes "\"\n") c || holds_special sep s

need_quotes : ℕ → Bytes → Bool
unfolding holds_special
need_quotes sep [] = true
need_quotes sep (c ∷ s) = holds_special sep (c ∷ s)

-- The loop over the characters: a double quote is doubled.
double_dquotes : Bytes → Bytes
double_dquotes [] = []
double_dquotes (c ∷ s) =
    if c == dquote then dquote ∷ dquote ∷ double_dquotes s else c ∷ double_dquotes s

-- What is appended for one token.
csv_field : ℕ → Bytes → Bytes
unfolding need_quotes double_dquotes
csv_field sep tok =
    if need_quotes sep tok then dquote ∷ double_dquotes tok ++ dquote ∷ [] else double_dquotes tok

csv_fields : ℕ → List Bytes → Bytes → Bytes
unfolding csv_field
csv_fields sep [] s = s
csv_fields sep (t ∷ ts) s = csv_fields sep ts (s ++ (csv_field sep t ++ sep ∷ []))

unfoldable pub strings_to_csv : List Bytes → ℕ → Bytes
unfolding csv_fields pop_back
strings_to_csv tokens sep = pop_back (csv_fields sep tokens [])

pub data States : Type 0 where
  token escape : States

pub record Reader : Type 0 where
  pub tokens : List Bytes
  pub current : Bytes
  pub state : States

abbrev push_char : ℕ → Reader → Reader
push_char c r = record r { current = r.current ++ c ∷ []; state = States.token }

on_comma : States → Reader → Reader
on_comma States.token r = record r { tokens = r.tokens ++ r.current ∷ []; current = [] }
on_comma States.escape r = push_char b',' r

on_backslash : States → Reader → Reader
on_backslash States.token r = record r { state = States.escape }
on_backslash States.escape r = push_char b'\\' r

-- In either state the character is added and the state is TOKEN.
on_other : ℕ → Reader → Reader
on_other c r = push_char c r

read_char : ℕ → Reader → Reader
unfolding on_comma on_backslash on_other
read_char c r =
    if c == b','
    then on_comma r.state r
    else if c == b'\\'
    then on_backslash r.state r
    else on_other c r

read_chars : Bytes → Reader → Reader
unfolding read_char
read_chars [] r = r
read_chars (c ∷ s) r = read_chars s (read_char c r)

read_end : States → Reader → Bool × List Bytes
read_end States.token r = (true, r.tokens ++ r.current ∷ [])
read_end States.escape r = (false, r.tokens)

unfoldable pub csv_to_strings : Bytes → Bool × List Bytes
unfolding read_chars read_end
csv_to_strings s =
    let r = read_chars s (record { tokens = []; current = []; state = States.token }) in
    read_end r.state r
