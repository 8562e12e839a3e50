-- ===== src/Text/Url.antt =====
-- libupnpp/upnpplib.cxx, `caturl` and `baseurl`. `none` is a text read at its front or back while it is
-- empty.
pub mod Joined
use libupnpp.Prelude.{
  ℕ, ◌+◌, ◌==◌, Bool, true, false, List, [], ◌∷◌, ◌++◌, Option, none, some, if◌then◌else◌, Bytes,
  codes, pop_back, until, from, length, drop,
}
use libupnpp.Text.Tokens.{find_sep}

abbrev pub colon_slashes : Bytes
colon_slashes = codes "://"

abbrev pub is_slash : ℕ → Bool
is_slash c = c == b'/'

-- `out.back()`
abbrev pub back_of : Bytes → Option ℕ
back_of [] = none
back_of (c ∷ []) = some c
back_of (c ∷ d ∷ s) = back_of (d ∷ s)

-- The slash between the two, by whether the first ends and the second begins with one.
abbrev pub joint : Bool → Bool → Bytes → Bytes
unfolding pop_back
joint true true out = pop_back out
joint true false out = out
joint false true out = out
joint false false out = out ++ b'/' ∷ []

abbrev pub joined : Bytes → Option ℕ → Bytes → Option Bytes
unfolding joint
joined base none rel = none
joined base (some b) [] = none
joined base (some b) (c ∷ rel) = some (joint (is_slash b) (is_slash c) base ++ c ∷ rel)

abbrev pub if_relative : Bytes → Bytes → Option Bytes → Option Bytes
unfolding joined
if_relative base rel none = joined base (back_of base) rel
if_relative base rel (some before) = some rel

unfoldable pub caturl : Bytes → Bytes → Option Bytes
unfolding if_relative find_sep
caturl base rel = if_relative base rel (find_sep colon_slashes rel)

abbrev pub up_to_slash : Bytes → Bytes → Bytes → Bytes → Bytes
up_to_slash url before host [] = url
up_to_slash url before host (c ∷ s) = before ++ colon_slashes ++ host ++ c ∷ []

abbrev pub base_from : Bytes → Option Bytes → Bytes
unfolding until from
base_from url none = url
base_from url (some before) =
    let rest = drop (length before + 3) url in
    up_to_slash url before (until is_slash rest) (from is_slash rest)

unfoldable pub baseurl : Bytes → Bytes
unfolding base_from find_sep
baseurl url = base_from url (find_sep colon_slashes url)
