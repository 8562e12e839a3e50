-- ===== src/Didl/Getters.antt =====
-- libupnpp/control/cdircontent.cxx and cdircontent.hxx: what is read from an object, and its text.
use libupnpp.Prelude.{ℕ, Bool, true, false, ◌++◌, Option, none, some, Bytes, codes, find, get_elem?}
use libupnpp.Prelude.Int.{ℤ, pos}
use libupnpp.Text.Decimal.{upnpdurationtos}
use libupnpp.Didl.{Resource, DirObject, or_empty}

-- `getrprop`
abbrev pub prop_of_resource : Bytes → Option Resource → Option Bytes
unfolding find
prop_of_resource nm none = none
prop_of_resource nm (some r) = find nm r.props

unfoldable pub getrprop : ℕ → Bytes → DirObject → Option Bytes
unfolding prop_of_resource
getrprop ridx nm o = prop_of_resource nm (get_elem? o.resources ridx)

-- `getprop`, with the empty text for one that is missing.
unfoldable pub getprop : Bytes → DirObject → Bytes
unfolding find
getprop name o = or_empty (find name o.props)

-- `f2s`
unfoldable pub f2s : Bytes → Bool → DirObject → Bytes
unfolding getrprop getprop
f2s nm true o = or_empty (getrprop 0 nm o)
f2s nm false o = getprop nm o

abbrev pub duration_or_one : Option Bytes → ℤ
unfolding upnpdurationtos
duration_or_one none = pos 1
duration_or_one (some sdur) = upnpdurationtos sdur

unfoldable pub get_duration_seconds : ℕ → DirObject → ℤ
unfolding getrprop duration_or_one
get_duration_seconds ridx o = duration_or_one (getrprop ridx (codes "duration") o)

abbrev pub didl_header : Bytes
didl_header =
    codes "<?xml version=\"1.0\" encoding=\"utf-8\"?>"
    ++ codes "<DIDL-Lite xmlns=\"urn:schemas-upnp-org:metadata-1-0/DIDL-Lite/\""
    ++ codes " xmlns:dc=\"http://purl.org/dc/elements/1.1/\""
    ++ codes " xmlns:upnp=\"urn:schemas-upnp-org:metadata-1-0/upnp/\""
    ++ codes " xmlns:dlna=\"urn:schemas-dlna-org:metadata-1-0/\">"

abbrev pub didl_close : Bytes
didl_close = codes "</DIDL-Lite>"

unfoldable pub getdidl : DirObject → Bytes
getdidl o = didl_header ++ o.didlfrag ++ didl_close
