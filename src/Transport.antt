-- ===== src/Transport.antt =====
-- libupnpp/control/avtransport.cxx: the texts of the states, modes and targets of an AV transport; its
-- actions are in Transport/Actions. The parser of metadata is left out, and the comparison without case,
-- which calls the C library, is an argument. A number that is not printed, or a time that overflows an `int`, has no result.
pub mod Modes
pub mod Actions
mod Tests
use libupnpp.Prelude.{
  ℕ, zero, suc, ◌+◌, ◌*◌, ◌^◌, ◌==◌, bit_or, Bool, true, false, List, [], ◌∷◌, ◌++◌, Option, none,
  some, if◌then◌else◌, ltb, leb, Bytes, codes,
}
use libupnpp.Prelude.Int.{ℤ, pos, negsuc}
use libupnpp.Text.Case.{Sign, stringuppercmp}
use libupnpp.Text.Csv.{csv_to_strings}
use libupnpp.Text.Decimal.{i2s, upnpduration, upnpdurationtos}
use libupnpp.Text.Trim.{trimstring}
use libupnpp.Soap.{SoapIncoming, SoapOutgoing, get_int, get_string}
use libupnpp.Device.Dispatch.{same_int}
use libupnpp.Control.{Service, Lib, no_data, run_action}

pub data TransportState : Type 0 where
  unknown_state stopped playing transitioning paused_playback paused_recording recording
        no_media_present :
      TransportState

pub data TransportStatus : Type 0 where
  tps_unknown tps_ok tps_error : TransportStatus

pub data PlayMode : Type 0 where
  pm_unknown pm_normal pm_shuffle pm_repeat_one pm_repeat_all pm_random pm_direct1 : PlayMode

-- `!stringuppercmp(name, s)`
abbrev pub is_zero : Sign → Bool
is_zero Sign.minus = false
is_zero Sign.zero = true
is_zero Sign.plus = false

abbrev pub named_so : Bytes → Bytes → Bool
unfolding stringuppercmp
named_so name s = is_zero (stringuppercmp name s)

-- The first entry whose name is the text, without regard to case; the default if there is none.
abbrev pub first_named {ℓ} : {A : Type ℓ} → List (Bytes × A) → A → Bytes → A
unfolding named_so
first_named [] default s = default
first_named ((name, a) ∷ rest) default s = if named_so name s then a else first_named rest default s

abbrev pub states : List (Bytes × TransportState)
states =
    (codes "STOPPED", TransportState.stopped)
    ∷ (codes "PLAYING", TransportState.playing)
    ∷ (codes "TRANSITIONING", TransportState.transitioning)
    ∷ (codes "PAUSED_PLAYBACK", TransportState.paused_playback)
    ∷ (codes "PAUSED_RECORDING", TransportState.paused_recording)
    ∷ (codes "RECORDING", TransportState.recording)
    ∷ (codes "NO_MEDIA_PRESENT", TransportState.no_media_present)
    ∷ []

unfoldable pub string_to_state : Bytes → TransportState
unfolding first_named
string_to_state s = first_named states TransportState.unknown_state s

unfoldable pub string_to_tp_status : Bytes → TransportStatus
unfolding first_named
string_to_tp_status s =
    first_named
      ((codes "OK", TransportStatus.tps_ok)
        ∷ (codes "ERROR_OCCURRED", TransportStatus.tps_error)
        ∷ [])
      TransportStatus.tps_unknown s

abbrev pub play_modes : List (Bytes × PlayMode)
play_modes =
    (codes "NORMAL", PlayMode.pm_normal)
    ∷ (codes "SHUFFLE", PlayMode.pm_shuffle)
    ∷ (codes "REPEAT_ONE", PlayMode.pm_repeat_one)
    ∷ (codes "REPEAT_ALL", PlayMode.pm_repeat_all)
    ∷ (codes "RANDOM", PlayMode.pm_random)
    ∷ (codes "DIRECT_1", PlayMode.pm_direct1)
    ∷ []

unfoldable pub string_to_play_mode : Bytes → PlayMode
unfolding first_named
string_to_play_mode s = first_named play_modes PlayMode.pm_unknown s

-- The switch of `setPlayMode`.
abbrev pub play_mode_text : PlayMode → Bytes
play_mode_text PlayMode.pm_unknown = codes "NORMAL"
play_mode_text PlayMode.pm_normal = codes "NORMAL"
play_mode_text PlayMode.pm_shuffle = codes "SHUFFLE"
play_mode_text PlayMode.pm_repeat_one = codes "REPEAT_ONE"
play_mode_text PlayMode.pm_repeat_all = codes "REPEAT_ALL"
play_mode_text PlayMode.pm_random = codes "RANDOM"
play_mode_text PlayMode.pm_direct1 = codes "DIRECT_1"

pub data SeekMode : Type 0 where
  seek_track_nr seek_abs_time seek_rel_time seek_abs_count seek_rel_count seek_channel_freq
        seek_tape_index seek_frame seek_other :
      SeekMode

-- `upnpduration(target*1000)`; `none` is an overflow.
abbrev pub time_text : ℤ → Option Bytes
unfolding upnpduration
time_text (pos n) = if ltb (n * 1000) (2 ^ 31) then some (upnpduration (pos (n * 1000))) else none
time_text (negsuc n) =
    if leb (n * 1000 + 1000) (2 ^ 31) then some (upnpduration (negsuc (n * 1000 + 999))) else none

-- The unit and the target of a seek; a mode that is none of these is refused.
abbrev pub seek_unit : SeekMode → Option Bytes
seek_unit SeekMode.seek_track_nr = some (codes "TRACK_NR")
seek_unit SeekMode.seek_abs_time = some (codes "ABS_TIME")
seek_unit SeekMode.seek_rel_time = some (codes "REL_TIME")
seek_unit SeekMode.seek_abs_count = some (codes "ABS_COUNT")
seek_unit SeekMode.seek_rel_count = some (codes "REL_COUNT")
seek_unit SeekMode.seek_channel_freq = some (codes "CHANNEL_FREQ")
seek_unit SeekMode.seek_tape_index = some (codes "TAPE-INDEX")
seek_unit SeekMode.seek_frame = some (codes "FRAME")
seek_unit SeekMode.seek_other = none

unfoldable pub seek_target : SeekMode → ℤ → Option Bytes
unfolding time_text
seek_target SeekMode.seek_track_nr n = i2s n
seek_target SeekMode.seek_abs_time n = time_text n
seek_target SeekMode.seek_rel_time n = time_text n
seek_target SeekMode.seek_abs_count n = i2s n
seek_target SeekMode.seek_rel_count n = i2s n
seek_target SeekMode.seek_channel_freq n = i2s n
seek_target SeekMode.seek_tape_index n = i2s n
seek_target SeekMode.seek_frame n = i2s n
seek_target SeekMode.seek_other n = i2s n

-- `CTAStringToBits`: the bit of each action that is known; `no_case` is `!stringicmp`.
abbrev pub action_bit : (Bytes → Bytes → Bool) → Bytes → ℕ
action_bit no_case act =
    if no_case act (codes "Next")
    then 1
    else if no_case act (codes "Pause")
    then 2
    else if no_case act (codes "Play")
    then 4
    else if no_case act (codes "Previous")
    then 8
    else if no_case act (codes "Seek")
    then 16
    else if no_case act (codes "Stop")
    then 32
    else 0

abbrev pub bits_of : (Bytes → Bytes → Bool) → List Bytes → ℕ → ℕ
unfolding trimstring
bits_of no_case [] bits = bits
bits_of no_case (act ∷ acts) bits =
    bits_of no_case acts (bit_or bits (action_bit no_case (trimstring act (codes " \t"))))

abbrev pub bits_result : (Bytes → Bytes → Bool) → ℤ → Bool × List Bytes → ℤ × Option ℕ
unfolding bits_of
bits_result no_case bad (false, acts) = (bad, none)
bits_result no_case bad (true, acts) = (pos 0, some (bits_of no_case acts 0))

unfoldable pub cta_string_to_bits : (Bytes → Bytes → Bool) → ℤ → Bytes → ℤ × Option ℕ
unfolding bits_result csv_to_strings
cta_string_to_bits no_case bad actions = bits_result no_case bad (csv_to_strings actions)
