-- ===== src/OpenHome/Receiver.antt =====
-- libupnpp/control/ohreceiver.cxx: a receiver that plays what a sender sends.
use libupnpp.Prelude.{Bool, List, Option, none, some, if◌then◌else◌, Bytes, codes, beq}
use libupnpp.Prelude.Int.{ℤ, pos}
use libupnpp.Soap.{SoapIncoming, get_string, add_arg}
use libupnpp.Control.{
  Service, Lib, no_data, plain_call, run_action, run_trivial_action, run_simple_get,
}
use libupnpp.Playlist.{TpState, string_to_tp_state, tp_of}
use libupnpp.Playlist.Actions.{value_of}
use libupnpp.OpenHome.{Report, tp_number, told_reports, is_service, on_success}

-- `isOHRcService`
unfoldable pub is_oh_rc_service : Bytes → Bool
unfolding is_service
is_oh_rc_service st = is_service (codes "urn:av-openhome-org:service:Receiver:1") st

-- `evtCallback`, for one variable.
unfoldable pub receiver_report : Bytes → Bytes → Option Report
unfolding string_to_tp_state
receiver_report name value =
    if beq name (codes "TransportState")
    then some (Report.number (tp_number (string_to_tp_state value)))
    else some (Report.words value)

unfoldable pub receiver_evt_callback : Bool → List (Bytes × Bytes) → Option (List (Bytes × Report))
unfolding told_reports receiver_report
receiver_evt_callback reporter props = told_reports receiver_report reporter props

-- The address and the metadata, as far as they are in the answer.
abbrev pub sender_of : ℤ → Option Bytes → Option Bytes → ℤ × Option Bytes × Option Bytes
sender_of bad none meta = (bad, none, none)
sender_of bad (some uri) none = (bad, some uri, none)
sender_of bad (some uri) (some meta) = (pos 0, some uri, some meta)

abbrev pub SenderRead : Type 0
SenderRead = Option Bytes × Option Bytes

abbrev pub paired : ℤ × Option Bytes × Option Bytes → Option (ℤ × SenderRead)
paired (ret, uri, meta) = some (ret, (uri, meta))

module _ {W : Type 0} where
  -- `play` and `stop`, by the name of the action.
  unfoldable pub receiver_trivial : Lib W → Service → Bytes → W → Option ((ℤ × SoapIncoming) × W)
  unfolding run_trivial_action
  receiver_trivial lib s act w = run_trivial_action lib s act none w

  unfoldable pub set_sender : Lib W → Service → Bytes → Bytes → W → Option ((ℤ × SoapIncoming) × W)
  unfolding run_action add_arg
  set_sender lib s uri didl w =
      run_action lib s
        (add_arg (codes "Metadata") didl
          (add_arg (codes "Uri") uri (plain_call s (codes "SetSender"))))
        no_data none w

  unfoldable pub sender : Lib W → Service → W → Option ((ℤ × SenderRead) × W)
  unfolding on_success run_action get_string
  sender lib s w =
      on_success lib (none, none)
        (λ dat. paired (
          sender_of lib.codes.bad_response (get_string (codes "Uri") dat)
            (get_string (codes "Metadata") dat)))
        (run_action lib s (plain_call s (codes "Sender")) no_data none w)

  unfoldable pub receiver_transport_state : Lib W → Service → W → Option ((ℤ × Option TpState) × W)
  unfolding run_simple_get
  receiver_transport_state lib s w =
      tp_of lib (run_simple_get lib s (codes "TransportState") (get_string (codes "Value")) none w)

  unfoldable pub receiver_protocol_info : Lib W → Service → W → Option ((ℤ × Option Bytes) × W)
  unfolding run_action get_string
  receiver_protocol_info lib s w =
      value_of lib (get_string (codes "Value"))
        (run_action lib s (plain_call s (codes "ProtocolInfo")) no_data none w)
