-- ===== src/OpenHome/Senders.antt =====
-- libupnpp/control/ohsender.cxx: a sender, and the address that its metadata give.
use libupnpp.Prelude.{
  Bool, true, false, List, [], ◌∷◌, Option, none, some, if◌then◌else◌, Bytes, codes, beq,
}
use libupnpp.Prelude.Int.{ℤ, pos}
use libupnpp.Soap.{get_string}
use libupnpp.Control.{Service, Lib, no_data, plain_call, run_action}
use libupnpp.Didl.{Resource, DirObject, DirContent, clear_content, dir_parse}
use libupnpp.OpenHome.{DidlReader, Report, flag_of, told_reports, is_service, on_success}

-- `isOHSenderService`
unfoldable pub is_oh_sender_service : Bytes → Bool
unfolding is_service
is_oh_sender_service st = is_service (codes "urn:av-openhome-org:service:Sender:1") st

-- `evtCallback`, for one variable.
unfoldable pub sender_report : Bytes → Bytes → Option Report
unfolding flag_of
sender_report name value =
    if beq name (codes "Audio")
    then some (Report.number (flag_of value))
    else some (Report.words value)

unfoldable pub sender_evt_callback : Bool → List (Bytes × Bytes) → Option (List (Bytes × Report))
unfolding told_reports sender_report
sender_evt_callback reporter props = told_reports sender_report reporter props

-- The address and the metadata.
abbrev pub UriDidl : Type 0
UriDidl = Option Bytes × Option Bytes

abbrev pub first_uri : ℤ → Bytes → List Resource → ℤ × UriDidl
first_uri bad didl [] = (bad, (none, some didl))
first_uri bad didl (r ∷ rs) = (pos 0, (some r.uri, some didl))

abbrev pub one_object : ℤ → Bytes → List DirObject → ℤ × UriDidl
one_object bad didl [] = (bad, (none, some didl))
one_object bad didl (o ∷ []) = first_uri bad didl o.resources
one_object bad didl (o ∷ o2 ∷ os) = (bad, (none, some didl))

abbrev pub from_dir : ℤ → Bytes → Option (Bool × DirContent) → Option (ℤ × UriDidl)
from_dir bad didl none = none
from_dir bad didl (some (false, dir)) = some (bad, (none, some didl))
from_dir bad didl (some (true, dir)) = some (one_object bad didl dir.items)

abbrev pub metadata_of : DidlReader → ℤ → Option Bytes → Option (ℤ × UriDidl)
unfolding dir_parse
metadata_of r bad none = some (bad, (none, none))
metadata_of r bad (some didl) = from_dir bad didl (dir_parse r.expat r.sanitize clear_content didl)

module _ {W : Type 0} where
  unfoldable pub metadata : DidlReader → Lib W → Service → W → Option ((ℤ × UriDidl) × W)
  unfolding on_success run_action metadata_of
  metadata r lib s w =
      on_success lib (none, none)
        (λ dat. metadata_of r lib.codes.bad_response (get_string (codes "Value") dat))
        (run_action lib s (plain_call s (codes "Metadata")) no_data none w)
