-- ===== src/Transport/Actions.antt =====
-- libupnpp/control/avtransport.cxx: the actions of an AV transport, through `Service::runAction`.
use libupnpp.Prelude.{ℕ, Bool, List, [], ◌∷◌, ◌++◌, Option, none, some, if◌then◌else◌, Bytes, codes}
use libupnpp.Prelude.Int.{ℤ, pos, negsuc}
use libupnpp.Text.Decimal.{i2s, upnpdurationtos}
use libupnpp.Soap.{SoapIncoming, get_int, get_string}
use libupnpp.Device.Dispatch.{same_int}
use libupnpp.Control.{Service, Lib, no_data, run_action}
use libupnpp.Transport.{
  TransportState, TransportStatus, PlayMode, SeekMode, play_mode_text, seek_unit, seek_target,
  string_to_state, string_to_tp_status, string_to_play_mode, cta_string_to_bits,
}

pub record TransportInfo : Type 0 where
  pub tpstate : TransportState
  pub tpstatus : TransportStatus
  pub curspeed : ℤ

pub record TransportSettings : Type 0 where
  pub playmode : PlayMode
  pub recqualitymode : Bytes

pub record PositionInfo : Type 0 where
  pub track : ℤ
  pub trackduration : ℤ
  pub trackuri : Bytes
  pub reltime : ℤ
  pub abstime : ℤ
  pub relcount : ℤ
  pub abscount : ℤ

-- A variable that `get` does not find keeps its value.
abbrev pub or_kept {ℓ} : {A : Type ℓ} → A → Option A → A
or_kept old none = old
or_kept old (some a) = a

unfoldable pub read_transport_info : SoapIncoming → TransportInfo → TransportInfo
unfolding get_string get_int string_to_state string_to_tp_status
read_transport_info dat info =
    let s1 = or_kept [] (get_string (codes "CurrentTransportState") dat) in
    let s2 = or_kept s1 (get_string (codes "CurrentTransportStatus") dat) in
    record {
      tpstate = string_to_state s1;
      tpstatus = string_to_tp_status s2;
      curspeed = or_kept info.curspeed (get_int (codes "CurrentSpeed") dat);
    }

unfoldable pub read_transport_settings : SoapIncoming → TransportSettings → TransportSettings
unfolding get_string string_to_play_mode
read_transport_settings dat info = record {
  playmode = string_to_play_mode (or_kept [] (get_string (codes "PlayMedia") dat));
  recqualitymode = or_kept info.recqualitymode (get_string (codes "RecQualityMode") dat);
}

-- The text `s` is used for all of these: one that is missing is the one before.
unfoldable pub read_position_info : SoapIncoming → PositionInfo → PositionInfo
unfolding get_string get_int upnpdurationtos
read_position_info dat info =
    let s1 = or_kept [] (get_string (codes "TrackDuration") dat) in
    let s2 = or_kept s1 (get_string (codes "TrackMetaData") dat) in
    let s3 = or_kept s2 (get_string (codes "RelTime") dat) in
    let s4 = or_kept s3 (get_string (codes "AbsTime") dat) in
    record {
      track = or_kept info.track (get_int (codes "Track") dat);
      trackduration = upnpdurationtos s1;
      trackuri = or_kept info.trackuri (get_string (codes "TrackURI") dat);
      reltime = upnpdurationtos s3;
      abstime = upnpdurationtos s4;
      relcount = or_kept info.relcount (get_int (codes "RelCount") dat);
      abscount = or_kept info.abscount (get_int (codes "AbsCount") dat);
    }

-- A timeout below zero is none.
abbrev pub timeout_of : ℤ → Option ℤ
timeout_of (pos n) = some (pos n)
timeout_of (negsuc n) = none

module _ {W : Type 0} where
  -- A call with the instance's number before its other arguments.
  abbrev pub call_instance :
      Lib W
      → Service
      → Bytes
      → Option Bytes
      → List (Bytes × Bytes)
      → Option ℤ
      → W
      → Option ((ℤ × SoapIncoming) × W)
  unfolding run_action
  call_instance lib s act none args timeoutms w = none
  call_instance lib s act (some id) args timeoutms w =
      run_action lib s
        (record {
          service_type = s.service_type;
          name = act;
          args = (codes "InstanceID", id) ∷ args;
        })
        no_data timeoutms w

  abbrev pub ret_of : Option ((ℤ × SoapIncoming) × W) → Option (ℤ × W)
  ret_of none = none
  ret_of (some ((ret, dat), w)) = some (ret, w)

  unfoldable pub set_uri : Lib W → Service → Bytes → Bytes → ℤ → Bool → W → Option (ℤ × W)
  unfolding call_instance i2s
  set_uri lib s uri metadata id next w = ret_of (
      call_instance lib s
        (if next then codes "SetNextAVTransportURI" else codes "SetAVTransportURI") (i2s id)
        ((if next then codes "NextURI" else codes "CurrentURI", uri)
          ∷ (if next then codes "NextURIMetaData" else codes "CurrentURIMetaData", metadata)
          ∷ [])
        none w)

  unfoldable pub set_play_mode : Lib W → Service → PlayMode → ℤ → W → Option (ℤ × W)
  unfolding call_instance i2s
  set_play_mode lib s pm id w = ret_of (
      call_instance lib s (codes "SetPlayMode") (i2s id)
        ((codes "NewPlayMode", play_mode_text pm) ∷ []) none w)

  -- `stop`, `pause`, `next` and `previous`, by the name of the action.
  unfoldable pub move : Lib W → Service → Bytes → ℤ → W → Option (ℤ × W)
  unfolding call_instance i2s
  move lib s act id w = ret_of (call_instance lib s act (i2s id) [] none w)

  abbrev pub with_text :
      Lib W → Service → Bytes → ℤ → List (Bytes × Bytes) → Bytes → Option Bytes → W → Option (ℤ × W)
  unfolding call_instance i2s
  with_text lib s act id args name none w = none
  with_text lib s act id args name (some text) w =
      ret_of (call_instance lib s act (i2s id) (args ++ (name, text) ∷ []) none w)

  unfoldable pub play : Lib W → Service → ℤ → ℤ → W → Option (ℤ × W)
  unfolding with_text i2s
  play lib s speed id w = with_text lib s (codes "Play") id [] (codes "Speed") (i2s speed) w

  abbrev pub seek_at : ℤ → Lib W → Service → Option Bytes → Option Bytes → ℤ → W → Option (ℤ × W)
  unfolding with_text
  seek_at invalid_param lib s none target id w = some (invalid_param, w)
  seek_at invalid_param lib s (some unit) target id w =
      with_text lib s (codes "Seek") id ((codes "Unit", unit) ∷ []) (codes "Target") target w

  unfoldable pub seek : ℤ → Lib W → Service → SeekMode → ℤ → ℤ → W → Option (ℤ × W)
  unfolding seek_at seek_target
  seek invalid_param lib s mode target id w =
      seek_at invalid_param lib s (seek_unit mode) (seek_target mode target) id w

  -- An information that is read into the caller's record after a success.
  abbrev pub read_into :
      {I : Type 0}
      → Lib W
      → (SoapIncoming → I → I)
      → I
      → Option ((ℤ × SoapIncoming) × W)
      → Option ((ℤ × I) × W)
  read_into lib read info none = none
  read_into lib read info (some ((ret, dat), w)) =
      if same_int ret lib.codes.success
      then some ((pos 0, read dat info), w)
      else some ((ret, info), w)

  unfoldable pub get_transport_info :
      Lib W → Service → TransportInfo → ℤ → W → Option ((ℤ × TransportInfo) × W)
  unfolding call_instance i2s read_transport_info
  get_transport_info lib s info id w =
      read_into lib read_transport_info info
        (call_instance lib s (codes "GetTransportInfo") (i2s id) [] none w)

  unfoldable pub get_transport_settings :
      Lib W → Service → TransportSettings → ℤ → W → Option ((ℤ × TransportSettings) × W)
  unfolding call_instance i2s read_transport_settings
  get_transport_settings lib s info id w =
      read_into lib read_transport_settings info
        (call_instance lib s (codes "GetTransportSettings") (i2s id) [] none w)

  unfoldable pub get_position_info :
      Lib W → Service → PositionInfo → ℤ → ℤ → W → Option ((ℤ × PositionInfo) × W)
  unfolding call_instance i2s read_position_info
  get_position_info lib s info id timeoutms w =
      read_into lib read_position_info info
        (call_instance lib s (codes "GetPositionInfo") (i2s id) [] (timeout_of timeoutms) w)

  abbrev pub actions_of :
      (Bytes → Bytes → Bool) → Lib W → Option ((ℤ × SoapIncoming) × W) → Option ((ℤ × Option ℕ) × W)
  unfolding cta_string_to_bits get_string
  actions_of no_case lib none = none
  actions_of no_case lib (some ((ret, dat), w)) =
      if same_int ret lib.codes.success
      then some (
        elim (get_string (codes "Actions") dat) [
          | none ↦ (lib.codes.bad_response, none)
          | some t ↦ cta_string_to_bits no_case lib.codes.bad_response t
        ],
        w,
      )
      else some ((ret, none), w)

  unfoldable pub get_current_transport_actions :
      (Bytes → Bytes → Bool) → Lib W → Service → ℤ → W → Option ((ℤ × Option ℕ) × W)
  unfolding actions_of call_instance i2s
  get_current_transport_actions no_case lib s id w =
      actions_of no_case lib
        (call_instance lib s (codes "GetCurrentTransportActions") (i2s id) [] none w)
