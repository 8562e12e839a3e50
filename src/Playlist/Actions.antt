-- ===== src/Playlist/Actions.antt =====
-- libupnpp/control/ohplaylist.cxx: the actions that read one value, and the whole of an event.
use libupnpp.Prelude.{Bool, List, [], ◌∷◌, Option, none, some, if◌then◌else◌, Bytes, codes}
use libupnpp.Prelude.Int.{ℤ, pos, negsuc}
use libupnpp.Text.Decimal.{i2s}
use libupnpp.Soap.{SoapIncoming, get_string, get_int, get_bool, add_arg}
use libupnpp.Device.Dispatch.{same_int}
use libupnpp.Control.{Service, Lib, no_data, plain_call, run_action, run_simple_get, value_or}
use libupnpp.Playlist.{Change, change_of}

abbrev pub value_name : Bytes
value_name = codes "Value"

-- A timeout below zero is none.
abbrev pub timeout_of : ℤ → Option ℤ
timeout_of (pos n) = some (pos n)
timeout_of (negsuc n) = none

module _ {W : Type 0} where
  -- `repeat` and `shuffle`, by the name of the action.
  unfoldable pub get_flag : Lib W → Service → Bytes → W → Option ((ℤ × Option Bool) × W)
  unfolding run_simple_get
  get_flag lib s act w = run_simple_get lib s act (get_bool value_name) none w

  unfoldable pub id : Lib W → Service → ℤ → W → Option ((ℤ × Option ℤ) × W)
  unfolding run_simple_get
  id lib s timeoutms w =
      run_simple_get lib s (codes "Id") (get_int value_name) (timeout_of timeoutms) w

  unfoldable pub tracks_max : Lib W → Service → W → Option ((ℤ × Option ℤ) × W)
  unfolding run_simple_get
  tracks_max lib s w = run_simple_get lib s (codes "TracksMax") (get_int value_name) none w

module _ {T W : Type 0} where
  -- A value of an answer; one that is missing makes the response a bad one.
  abbrev pub value_of :
      Lib W
      → (SoapIncoming → Option T)
      → Option ((ℤ × SoapIncoming) × W)
      → Option ((ℤ × Option T) × W)
  value_of lib get none = none
  value_of lib get (some ((ret, dat), w)) =
      if same_int ret lib.codes.success
      then some (value_or lib (get dat), w)
      else some ((ret, none), w)

  abbrev pub ask_with :
      Lib W
      → Service
      → Bytes
      → Bytes
      → Option Bytes
      → (SoapIncoming → Option T)
      → W
      → Option ((ℤ × Option T) × W)
  unfolding run_action
  ask_with lib s act name none get w = none
  ask_with lib s act name (some text) get w =
      value_of lib get (run_action lib s (add_arg name text (plain_call s act)) no_data none w)

module _ {W : Type 0} where
  unfoldable pub id_array_changed : Lib W → Service → ℤ → W → Option ((ℤ × Option Bool) × W)
  unfolding ask_with get_bool
  id_array_changed lib s token w =
      ask_with lib s (codes "IdArrayChanged") (codes "Token") (i2s token) (get_bool value_name) w

  unfoldable pub protocol_info : Lib W → Service → W → Option ((ℤ × Option Bytes) × W)
  unfolding run_action get_string
  protocol_info lib s w =
      value_of lib (get_string value_name)
        (run_action lib s (plain_call s (codes "ProtocolInfo")) no_data none w)

  abbrev pub insert_after :
      Lib W → Service → Option Bytes → Bytes → Bytes → W → Option ((ℤ × Option ℤ) × W)
  unfolding run_action get_int
  insert_after lib s none uri didl w = none
  insert_after lib s (some after) uri didl w = value_of lib (get_int (codes "NewId")) (
      run_action lib s
        (record {
          service_type = s.service_type;
          name = codes "Insert";
          args = (codes "AfterId", after) ∷ (codes "Uri", uri) ∷ (codes "Metadata", didl) ∷ [];
        })
        no_data none w)

  -- `insert`: the result and the new id.
  unfoldable pub insert : Lib W → Service → ℤ → Bytes → Bytes → W → Option ((ℤ × Option ℤ) × W)
  unfolding insert_after
  insert lib s afterid uri didl w = insert_after lib s (i2s afterid) uri didl w

-- What the client's object is told of an event: that the renewal failed, or each variable's change.
pub data Told : Type 0 where
  autorenew_failed : Told
  changes : List (Bytes × Change) → Told

abbrev pub and_then :
    Bytes → Option Change → Option (List (Bytes × Change)) → Option (List (Bytes × Change))
and_then name none rest = none
and_then name (some c) none = none
and_then name (some c) (some cs) = some ((name, c) ∷ cs)

abbrev pub changes_of : List (Bytes × Bytes) → Option (List (Bytes × Change))
unfolding change_of
changes_of [] = some []
changes_of ((name, value) ∷ props) = and_then name (change_of name value) (changes_of props)

abbrev pub told_changes : Option (List (Bytes × Change)) → Option Told
told_changes none = none
told_changes (some cs) = some (Told.changes cs)

-- `evtCallback`, if there is a reporter.
unfoldable pub evt_callback : List (Bytes × Bytes) → Option Told
unfolding changes_of
evt_callback [] = some Told.autorenew_failed
evt_callback (p ∷ props) = told_changes (changes_of (p ∷ props))
