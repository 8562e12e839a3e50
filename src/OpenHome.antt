-- ===== src/OpenHome.antt =====
-- The OpenHome services of libupnpp/control (ohproduct.cxx, ohradio.cxx, ohreceiver.cxx, ohsender.cxx,
-- ohinfo.cxx, ohtime.cxx, ohvolume.cxx): what they share, and a child for each of them. A result stands
-- beside the values that the caller's variables get; those that are `none` are not written. An outer
-- `none` is a number that is not printed, or a decoder that fails as its module says.
pub mod Product
pub mod Tracks
pub mod Radio
pub mod Playlist
pub mod Receiver
pub mod Info
pub mod Volume
pub mod Senders
mod Tests
use libupnpp.Prelude.{
  ℕ, ◌-◌, Bool, true, false, List, [], ◌∷◌, Option, none, some, if◌then◌else◌, Bytes, codes, beq,
  length, take,
}
use libupnpp.Prelude.Int.{ℤ, pos}
use libupnpp.Soap.{SoapIncoming, string_to_bool}
use libupnpp.Device.Dispatch.{same_int}
use libupnpp.Control.{Lib}
use libupnpp.Playlist.{TpState}
use libupnpp.Xml.{Expat}
use libupnpp.Didl.{DirObject, DirContent, clear_content, dir_parse}

-- `!SType.compare(0, sz, st, 0, sz)` with `sz` two below the size, which leaves the version out.
unfoldable pub is_service : Bytes → Bytes → Bool
is_service stype st = let sz = length stype - 2 in beq (take sz stype) (take sz st)

-- How a DIDL-Lite text is read: by expat, with the options' way to sanitize URLs.
pub record DidlReader : Type 0 where
  pub expat : Expat
  pub sanitize : Bytes → Bytes

-- What the client's object is told of a variable.
pub data Report : Type 0 where
  number : ℤ → Report
  words : Bytes → Report
  ids : List ℤ → Report
  object : DirObject → Report
  nothing : Report

abbrev pub tp_number : TpState → ℤ
tp_number TpState.tps_unknown = pos 0
tp_number TpState.tps_buffering = pos 1
tp_number TpState.tps_paused = pos 2
tp_number TpState.tps_playing = pos 3
tp_number TpState.tps_stopped = pos 4

-- `bool val = false; stringToBool(propvalue, &val)`, told as a number.
abbrev pub flag : Option Bool → ℤ
flag none = pos 0
flag (some false) = pos 0
flag (some true) = pos 1

abbrev pub flag_of : Bytes → ℤ
unfolding string_to_bool
flag_of value = flag (string_to_bool value)

-- The reports of an event, variable by variable.
abbrev pub and_report :
    Bytes → Option Report → Option (List (Bytes × Report)) → Option (List (Bytes × Report))
and_report name none rest = none
and_report name (some r) none = none
and_report name (some Report.nothing) (some rs) = some rs
and_report name (some (Report.number n)) (some rs) = some ((name, Report.number n) ∷ rs)
and_report name (some (Report.words t)) (some rs) = some ((name, Report.words t) ∷ rs)
and_report name (some (Report.ids is)) (some rs) = some ((name, Report.ids is) ∷ rs)
and_report name (some (Report.object o)) (some rs) = some ((name, Report.object o) ∷ rs)

unfoldable pub reports :
    (Bytes → Bytes → Option Report) → List (Bytes × Bytes) → Option (List (Bytes × Report))
reports report [] = some []
reports report ((name, value) ∷ props) = and_report name (report name value) (reports report props)

-- The loop of an `evtCallback`, which only looks at the variables if there is a reporter.
unfoldable pub told_reports :
    (Bytes → Bytes → Option Report) → Bool → List (Bytes × Bytes) → Option (List (Bytes × Report))
unfolding reports
told_reports report false props = some []
told_reports report true props = reports report props

abbrev pub single : ℤ → List DirObject → ℤ × Option DirObject
single bad [] = (bad, none)
single bad (o ∷ []) = (pos 0, some o)
single bad (o ∷ o2 ∷ os) = (bad, none)

abbrev pub one_item : ℤ → Option (Bool × DirContent) → Option (ℤ × Option DirObject)
one_item bad none = none
one_item bad (some (false, dir)) = some (bad, none)
one_item bad (some (true, dir)) = some (single bad dir.items)

-- `OHRadio::decodeMetadata`
unfoldable pub decode_metadata : DidlReader → ℤ → Bytes → Option (ℤ × Option DirObject)
unfolding dir_parse
decode_metadata r bad didl = one_item bad (dir_parse r.expat r.sanitize clear_content didl)

-- Metadata in an event: bad ones are not told.
abbrev pub report_object : Option (ℤ × Option DirObject) → Option Report
report_object none = none
report_object (some (ret, none)) = some Report.nothing
report_object (some (ret, some o)) = some (Report.object o)

module _ {R W : Type 0} where
  abbrev pub with_world : W → Option (ℤ × R) → Option ((ℤ × R) × W)
  with_world w none = none
  with_world w (some r) = some (r, w)

  -- What is made of an answer: nothing is read unless the action succeeds.
  unfoldable pub on_success :
      Lib W
      → R
      → (SoapIncoming → Option (ℤ × R))
      → Option ((ℤ × SoapIncoming) × W)
      → Option ((ℤ × R) × W)
  on_success lib missing read none = none
  on_success lib missing read (some ((ret, dat), w)) =
      if same_int ret lib.codes.success then with_world w (read dat) else some ((ret, missing), w)
