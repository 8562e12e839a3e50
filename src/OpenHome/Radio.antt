-- ===== src/OpenHome/Radio.antt =====
-- libupnpp/control/ohradio.cxx: the actions and events of a radio, and the list of its channels.
use libupnpp.Prelude.{Bool, List, [], ◌||◌, Option, none, some, if◌then◌else◌, Bytes, codes, beq}
use libupnpp.Prelude.Int.{ℤ, pos}
use libupnpp.Text.Decimal.{i2s, atoi}
use libupnpp.Soap.{SoapIncoming, get_string, get_int, get_bool, add_arg}
use libupnpp.Control.{
  Service, Lib, no_data, plain_call, run_action, run_trivial_action, run_simple_get,
}
use libupnpp.Playlist.{TpState, string_to_tp_state, ohpl_id_array_to_vec, text_or_empty, tp_of}
use libupnpp.Playlist.Actions.{timeout_of, ask_with, value_of}
use libupnpp.Didl.{DirObject}
use libupnpp.OpenHome.{
  DidlReader, Report, tp_number, told_reports, decode_metadata, report_object, is_service,
  on_success,
}
use libupnpp.OpenHome.Tracks.{TrackListEntry, ids_param, track_list}

-- `isOHRdService`
unfoldable pub is_oh_rd_service : Bytes → Bool
unfolding is_service
is_oh_rd_service st = is_service (codes "urn:av-openhome-org:service:Radio:1") st

abbrev pub ids_report : Option (Bool × List ℤ) → Option Report
ids_report none = none
ids_report (some (ok, is)) = some (Report.ids is)

-- `evtCallback`, for one variable.
unfoldable pub radio_report : DidlReader → Bytes → Bytes → Option Report
unfolding ohpl_id_array_to_vec string_to_tp_state decode_metadata
radio_report r name value =
    if beq name (codes "Id") || beq name (codes "ChannelsMax")
    then some (Report.number (atoi value))
    else if beq name (codes "IdArray")
    then ids_report (ohpl_id_array_to_vec value [])
    else if beq name (codes "ProtocolInfo") || beq name (codes "Uri")
    then some (Report.words value)
    else if beq name (codes "Metadata")
    then report_object (decode_metadata r (pos 1) value)
    else if beq name (codes "TransportState")
    then some (Report.number (tp_number (string_to_tp_state value)))
    else some (Report.words value)

unfoldable pub radio_evt_callback :
    DidlReader → Bool → List (Bytes × Bytes) → Option (List (Bytes × Report))
unfolding told_reports radio_report
radio_evt_callback r reporter props = told_reports (radio_report r) reporter props

-- A result, the address and the object of a channel.
abbrev pub Channel : Type 0
Channel = Option Bytes × Option DirObject

abbrev pub with_uri : Bytes → Option (ℤ × Option DirObject) → Option (ℤ × Channel)
with_uri uri none = none
with_uri uri (some (ret, o)) = some (ret, (some uri, o))

abbrev pub channel_metadata : DidlReader → ℤ → Bytes → Option Bytes → Option (ℤ × Channel)
unfolding decode_metadata
channel_metadata r bad uri none = some (bad, (some uri, none))
channel_metadata r bad uri (some didl) = with_uri uri (decode_metadata r bad didl)

abbrev pub channel_of : DidlReader → ℤ → Option Bytes → Option Bytes → Option (ℤ × Channel)
unfolding channel_metadata
channel_of r bad none didl = some (bad, (none, none))
channel_of r bad (some uri) didl = channel_metadata r bad uri didl

abbrev pub object_of : DidlReader → ℤ → Option Bytes → Option (ℤ × Option DirObject)
unfolding decode_metadata
object_of r bad none = some (bad, none)
object_of r bad (some didl) = decode_metadata r bad didl

abbrev pub TokenIds : Type 0
TokenIds = Option ℤ × List ℤ

-- The token and the ids, which are appended to the caller's.
abbrev pub radio_ids : ℤ → Option (Bool × List ℤ) → Option (ℤ × TokenIds)
radio_ids token none = none
radio_ids token (some (ok, is)) = some (pos 0, (some token, is))

abbrev pub token_and_ids : ℤ → List ℤ → Option ℤ → Bytes → Option (ℤ × TokenIds)
unfolding ohpl_id_array_to_vec
token_and_ids bad old none array = some (bad, (none, old))
token_and_ids bad old (some token) array = radio_ids token (ohpl_id_array_to_vec array old)

module _ {W : Type 0} where
  unfoldable pub radio_channel : DidlReader → Lib W → Service → W → Option ((ℤ × Channel) × W)
  unfolding on_success run_action channel_of
  radio_channel r lib s w =
      on_success lib (none, none)
        (λ dat.
          channel_of r lib.codes.bad_response (get_string (codes "Uri") dat)
            (get_string (codes "Metadata") dat))
        (run_action lib s (plain_call s (codes "Channel")) no_data none w)

  unfoldable pub channels_max : Lib W → Service → W → Option ((ℤ × Option ℤ) × W)
  unfolding run_simple_get
  channels_max lib s w = run_simple_get lib s (codes "ChannelsMax") (get_int (codes "Value")) none w

  unfoldable pub radio_id : Lib W → Service → ℤ → W → Option ((ℤ × Option ℤ) × W)
  unfolding run_simple_get
  radio_id lib s timeoutms w =
      run_simple_get lib s (codes "Id") (get_int (codes "Value")) (timeout_of timeoutms) w

  unfoldable pub radio_id_array : Lib W → Service → List ℤ → W → Option ((ℤ × TokenIds) × W)
  unfolding on_success run_action token_and_ids
  radio_id_array lib s old w =
      on_success lib (none, old)
        (λ dat.
          token_and_ids lib.codes.bad_response old (get_int (codes "Token") dat)
            (text_or_empty (get_string (codes "Array") dat)))
        (run_action lib s (plain_call s (codes "IdArray")) no_data none w)

  unfoldable pub radio_id_array_changed : Lib W → Service → ℤ → W → Option ((ℤ × Option Bool) × W)
  unfolding get_bool
  radio_id_array_changed lib s token w =
      ask_with lib s (codes "IdArrayChanged") (codes "Token") (i2s token) (get_bool (codes "Value"))
        w

  -- `pause`, `play` and `stop`, by the name of the action.
  unfoldable pub radio_trivial : Lib W → Service → Bytes → W → Option ((ℤ × SoapIncoming) × W)
  unfolding run_trivial_action
  radio_trivial lib s act w = run_trivial_action lib s act none w

  unfoldable pub radio_protocol_info : Lib W → Service → W → Option ((ℤ × Option Bytes) × W)
  unfolding run_action get_string
  radio_protocol_info lib s w =
      value_of lib (get_string (codes "Value"))
        (run_action lib s (plain_call s (codes "ProtocolInfo")) no_data none w)

  abbrev pub read_with :
      DidlReader → Lib W → Service → Option Bytes → W → Option ((ℤ × Option DirObject) × W)
  unfolding on_success run_action object_of
  read_with r lib s none w = none
  read_with r lib s (some id) w =
      on_success lib none
        (λ dat. object_of r lib.codes.bad_response (get_string (codes "Metadata") dat))
        (run_action lib s (add_arg (codes "Id") id (plain_call s (codes "Read"))) no_data none w)

  -- `read`
  unfoldable pub radio_read :
      DidlReader → Lib W → Service → ℤ → W → Option ((ℤ × Option DirObject) × W)
  unfolding read_with
  radio_read r lib s id w = read_with r lib s (i2s id) w

  -- `readList`
  unfoldable pub radio_read_list :
      DidlReader → ℤ → Lib W → Service → List ℤ → W → Option ((ℤ × List TrackListEntry) × W)
  unfolding track_list ids_param
  radio_read_list r unset lib s ids w =
      track_list r unset (codes "ChannelList") lib s (ids_param ids) w

  unfoldable pub set_channel : Lib W → Service → Bytes → Bytes → W → Option ((ℤ × SoapIncoming) × W)
  unfolding run_action add_arg
  set_channel lib s uri didl w =
      run_action lib s
        (add_arg (codes "Metadata") didl
          (add_arg (codes "Uri") uri (plain_call s (codes "SetChannel"))))
        no_data none w

  abbrev pub set_id_with :
      Lib W → Service → Option Bytes → Bytes → W → Option ((ℤ × SoapIncoming) × W)
  unfolding run_action add_arg
  set_id_with lib s none uri w = none
  set_id_with lib s (some id) uri w =
      run_action lib s
        (add_arg (codes "Uri") uri (add_arg (codes "Value") id (plain_call s (codes "SetId"))))
        no_data none w

  -- `setId`
  unfoldable pub set_id : Lib W → Service → ℤ → Bytes → W → Option ((ℤ × SoapIncoming) × W)
  unfolding set_id_with
  set_id lib s id uri w = set_id_with lib s (i2s id) uri w

  unfoldable pub radio_transport_state : Lib W → Service → W → Option ((ℤ × Option TpState) × W)
  unfolding run_simple_get
  radio_transport_state lib s w =
      tp_of lib (run_simple_get lib s (codes "TransportState") (get_string (codes "Value")) none w)
