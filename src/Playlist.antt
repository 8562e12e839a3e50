-- ===== src/Playlist.antt =====
-- libupnpp/control/ohplaylist.cxx and, of libupnpp/upnpavutils.cxx, `ohplIdArrayToVec`: the actions and
-- events of an OpenHome playlist, without the reading of track descriptions. A result is given with the
-- value read, if any; `none` is a number that is not printed or a text that is read out of a table.
pub mod IdArray
pub mod Actions
pub mod Remote
mod Tests
use libupnpp.Prelude.{
  ℕ, zero, suc, ◌+◌, ◌-◌, ◌*◌, ◌^◌, Bool, true, false, List, [], ◌∷◌, ◌++◌, ◌||◌, Option, none,
  some, if◌then◌else◌, ltb, Bytes, codes, beq,
}
use libupnpp.Prelude.Int.{ℤ, pos, negsuc}
use libupnpp.Base64.{base64_decode}
use libupnpp.Text.Decimal.{i2s, atoi}
use libupnpp.Soap.{SoapIncoming, get_string, get_int, get_bool, string_to_bool, val2s_bool, add_arg}
use libupnpp.Device.Dispatch.{same_int}
use libupnpp.Control.{
  Service, Lib, no_data, plain_call, run_action, run_trivial_action, run_simple_action,
  run_simple_get,
}

-- 32 bits as an `int`.
abbrev pub int_of_word : ℕ → ℤ
int_of_word w = if ltb w (2 ^ 31) then pos w else negsuc (2 ^ 32 - 1 - w)

-- The loop over groups of four bytes, the most significant first; what is left over is dropped.
unfoldable pub words_of : Bytes → List ℤ
words_of (a ∷ b ∷ c ∷ d ∷ rest) =
    int_of_word (a * 2 ^ 24 + b * 2 ^ 16 + c * 2 ^ 8 + d) ∷ words_of rest
words_of (a ∷ b ∷ c ∷ []) = []
words_of (a ∷ b ∷ []) = []
words_of (a ∷ []) = []
words_of [] = []

abbrev pub decoded_ids : List ℤ → Option (Bool × Bytes) → Option (Bool × List ℤ)
unfolding words_of
decoded_ids ids none = none
decoded_ids ids (some (false, dat)) = some (false, ids)
decoded_ids ids (some (true, dat)) = some (true, ids ++ words_of dat)

-- `ohplIdArrayToVec`, which appends to the caller's ids.
unfoldable pub ohpl_id_array_to_vec : Bytes → List ℤ → Option (Bool × List ℤ)
unfolding decoded_ids base64_decode
ohpl_id_array_to_vec dat ids = decoded_ids ids (base64_decode dat)

pub data TpState : Type 0 where
  tps_unknown tps_buffering tps_paused tps_playing tps_stopped : TpState

-- `stringToTpState`: the state, which is unknown with the result of a bad response.
unfoldable pub string_to_tp_state : Bytes → TpState
string_to_tp_state value =
    if beq value (codes "Buffering") || beq value (codes "Waiting")
    then TpState.tps_buffering
    else if beq value (codes "Paused")
    then TpState.tps_paused
    else if beq value (codes "Playing")
    then TpState.tps_playing
    else if beq value (codes "Stopped")
    then TpState.tps_stopped
    else TpState.tps_unknown

abbrev pub tp_result : ℤ → TpState → ℤ
tp_result bad TpState.tps_unknown = bad
tp_result bad TpState.tps_buffering = pos 0
tp_result bad TpState.tps_paused = pos 0
tp_result bad TpState.tps_playing = pos 0
tp_result bad TpState.tps_stopped = pos 0

-- The actions without an argument and without a value.
pub data Trivial : Type 0 where
  play pause stop next previous delete_all : Trivial

abbrev pub trivial_name : Trivial → Bytes
trivial_name Trivial.play = codes "Play"
trivial_name Trivial.pause = codes "Pause"
trivial_name Trivial.stop = codes "Stop"
trivial_name Trivial.next = codes "Next"
trivial_name Trivial.previous = codes "Previous"
trivial_name Trivial.delete_all = codes "DeleteAll"

-- The actions with one value: Booleans and numbers.
pub data Setter : Type 0 where
  set_repeat set_shuffle : Bool → Setter
  seek_second_absolute seek_second_relative seek_id seek_index delete_id : ℤ → Setter

abbrev pub setter_name : Setter → Bytes
setter_name (Setter.set_repeat b) = codes "SetRepeat"
setter_name (Setter.set_shuffle b) = codes "SetShuffle"
setter_name (Setter.seek_second_absolute n) = codes "SeekSecondAbsolute"
setter_name (Setter.seek_second_relative n) = codes "SeekSecondRelative"
setter_name (Setter.seek_id n) = codes "SeekId"
setter_name (Setter.seek_index n) = codes "SeekIndex"
setter_name (Setter.delete_id n) = codes "DeleteId"

abbrev pub setter_text : Setter → Option Bytes
setter_text (Setter.set_repeat b) = val2s_bool b
setter_text (Setter.set_shuffle b) = val2s_bool b
setter_text (Setter.seek_second_absolute n) = i2s n
setter_text (Setter.seek_second_relative n) = i2s n
setter_text (Setter.seek_id n) = i2s n
setter_text (Setter.seek_index n) = i2s n
setter_text (Setter.delete_id n) = i2s n

abbrev pub text_or_empty : Option Bytes → Bytes
text_or_empty none = []
text_or_empty (some t) = t

module _ {W : Type 0} where
  unfoldable pub run_trivial : Lib W → Service → Trivial → W → Option ((ℤ × SoapIncoming) × W)
  unfolding run_trivial_action
  run_trivial lib s t w = run_trivial_action lib s (trivial_name t) none w

  abbrev pub send_setter :
      Lib W → Service → Bytes → Option Bytes → W → Option ((ℤ × SoapIncoming) × W)
  unfolding run_simple_action
  send_setter lib s act none w = none
  send_setter lib s act (some text) w = run_simple_action lib s act (codes "Value") text none w

  unfoldable pub run_setter : Lib W → Service → Setter → W → Option ((ℤ × SoapIncoming) × W)
  unfolding send_setter
  run_setter lib s t w = send_setter lib s (setter_name t) (setter_text t) w

  abbrev pub tp_of : Lib W → Option ((ℤ × Option Bytes) × W) → Option ((ℤ × Option TpState) × W)
  tp_of lib none = none
  tp_of lib (some ((ret, none), w)) = some ((ret, none), w)
  tp_of lib (some ((ret, some v), w)) =
      let st = string_to_tp_state v in
      if same_int ret (pos 0)
      then some ((tp_result lib.codes.bad_response st, some st), w)
      else some ((ret, none), w)

  -- `transportState`
  unfoldable pub transport_state : Lib W → Service → W → Option ((ℤ × Option TpState) × W)
  unfolding run_simple_get
  transport_state lib s w =
      tp_of lib (run_simple_get lib s (codes "TransportState") (get_string (codes "Value")) none w)

  -- What `idArray` gives: the result, the token, and the ids, which are appended to the caller's.
  abbrev pub id_result : W → ℤ → Option (Bool × List ℤ) → Option ((ℤ × Option ℤ × List ℤ) × W)
  id_result w token none = none
  id_result w token (some (ok, ids)) = some ((pos 0, some token, ids), w)

  abbrev pub ids_of :
      Lib W → List ℤ → Option ((ℤ × SoapIncoming) × W) → Option ((ℤ × Option ℤ × List ℤ) × W)
  unfolding ohpl_id_array_to_vec
  ids_of lib ids none = none
  ids_of lib ids (some ((ret, dat), w)) =
      if same_int ret lib.codes.success
      then (elim (get_int (codes "Token") dat) [
        | none ↦ some ((lib.codes.bad_response, none, ids), w)
        | some token ↦
            id_result w token
              (ohpl_id_array_to_vec (text_or_empty (get_string (codes "Array") dat)) ids)
      ])
      else some ((ret, none, ids), w)

  -- `idArray`
  unfoldable pub id_array : Lib W → Service → List ℤ → W → Option ((ℤ × Option ℤ × List ℤ) × W)
  unfolding ids_of run_action
  id_array lib s ids w =
      ids_of lib ids (run_action lib s (plain_call s (codes "IdArray")) no_data none w)

-- What the client's object is told of an event's variable: `changed`, by the type of its value.
pub data Change : Type 0 where
  number_changed : ℤ → Change
  text_changed : Bytes → Change
  ids_changed : List ℤ → Change

abbrev tp_number : TpState → ℤ
tp_number TpState.tps_unknown = pos 0
tp_number TpState.tps_buffering = pos 1
tp_number TpState.tps_paused = pos 2
tp_number TpState.tps_playing = pos 3
tp_number TpState.tps_stopped = pos 4

abbrev flag_number : Option Bool → ℤ
flag_number none = pos 0
flag_number (some false) = pos 0
flag_number (some true) = pos 1

abbrev ids_change : Option (Bool × List ℤ) → Option Change
ids_change none = none
ids_change (some (ok, ids)) = some (Change.ids_changed ids)

-- `evtCallback`, for one variable.
unfoldable pub change_of : Bytes → Bytes → Option Change
unfolding ohpl_id_array_to_vec string_to_tp_state string_to_bool
change_of name value =
    if beq name (codes "TransportState")
    then some (Change.number_changed (tp_number (string_to_tp_state value)))
    else if beq name (codes "ProtocolInfo")
    then some (Change.text_changed value)
    else if beq name (codes "Repeat") || beq name (codes "Shuffle")
    then some (Change.number_changed (flag_number (string_to_bool value)))
    else if beq name (codes "Id") || beq name (codes "TracksMax")
    then some (Change.number_changed (atoi value))
    else if beq name (codes "IdArray")
    then ids_change (ohpl_id_array_to_vec value [])
    else some (Change.text_changed value)
