-- ===== src/Soap.antt =====
-- libupnpp/soaphelp.cxx: the arguments of an action, as a device or a control point reads and writes
-- them; `stringToBool` of libupnpp/upnpplib.cxx. A value that is read is an option: `none` stands for
-- the result false, with the caller's variable unchanged.
pub mod Laws
use libupnpp.Prelude.{
  ℕ, Bool, true, false, List, [], ◌∷◌, ◌++◌, Option, none, some, if◌then◌else◌, Bytes, one_of,
  codes, find,
}
use libupnpp.Prelude.Int.{ℤ, pos}
use libupnpp.Text.Decimal.{atoi, i2s}

pub record SoapIncoming : Type 0 where
  pub name : Bytes
  pub args : List (Bytes × Bytes)

pub record SoapOutgoing : Type 0 where
  pub service_type : Bytes
  pub name : Bytes
  pub args : List (Bytes × Bytes)

-- `stringToBool(s, value)`, by the first character; an empty text has the character 0.
unfoldable pub string_to_bool : Bytes → Option Bool
string_to_bool [] = none
string_to_bool (c ∷ s) =
    if one_of (codes "FfNn0") c
    then some false
    else if one_of (codes "TtYy1") c
    then some true
    else none

-- `args.insert(first, last)` on an unordered map: a key that is there keeps its value.
abbrev pub insert_one : Bytes × Bytes → Option Bytes → List (Bytes × Bytes) → List (Bytes × Bytes)
insert_one p none m = m ++ p ∷ []
insert_one p (some v) m = m

unfoldable pub insert_all : List (Bytes × Bytes) → List (Bytes × Bytes) → List (Bytes × Bytes)
insert_all [] m = m
insert_all ((k, v) ∷ ps) m = insert_all ps (insert_one (k, v) (find k m) m)

unfoldable pub add_arg : Bytes → Bytes → SoapOutgoing → SoapOutgoing
add_arg k v out = record out { args = out.args ++ (k, v) ∷ [] }

abbrev pub bool_of : Option Bytes → Option Bool
bool_of none = none
bool_of (some []) = none
bool_of (some (c ∷ s)) = string_to_bool (c ∷ s)

abbrev pub int_of : Option Bytes → Option ℤ
int_of none = none
int_of (some []) = none
int_of (some (c ∷ s)) = some (atoi (c ∷ s))

-- `SoapIncoming::get`, for the three types.
unfoldable pub get_bool : Bytes → SoapIncoming → Option Bool
get_bool nm s = bool_of (find nm s.args)

unfoldable pub get_int : Bytes → SoapIncoming → Option ℤ
get_int nm s = int_of (find nm s.args)

unfoldable pub get_string : Bytes → SoapIncoming → Option Bytes
get_string nm s = find nm s.args

-- `val2s`
unfoldable pub val2s_bool : Bool → Option Bytes
val2s_bool b = i2s (pos (if b then 1 else 0))
