-- ===== src/Rendering.antt =====
-- libupnpp/control/renderingcontrol.cxx: volume and mute of a renderer. The program's volume runs from
-- 0 to 100, the device's over a range in steps. The arithmetic on doubles is an argument.
pub mod Scale
pub mod Events
mod Tests
use libupnpp.Prelude.{
  ℕ, zero, suc, ◌+◌, ◌-◌, ◌%◌, ◌==◌, Bool, true, false, List, [], ◌∷◌, ◌++◌, ◌&&◌, Option, none,
  some, if◌then◌else◌, ltb, leb, Bytes, codes,
}
use libupnpp.Prelude.Int.{ℤ, pos, negsuc, sub_ℕ, ◌+ℤ◌}
use libupnpp.Text.Decimal.{i2s}
use libupnpp.Soap.{SoapIncoming, SoapOutgoing, add_arg, get_int, get_bool}
use libupnpp.Device.Dispatch.{same_int}
use libupnpp.Control.{Service, Lib, no_data, plain_call, run_action}

-- `m_volmin`, `m_volmax`, `m_volstep`
pub record VolParams : Type 0 where
  pub volmin : ℕ
  pub volmax : ℕ
  pub volstep : ℕ

-- With `fact = double(max - min) / 100.0`: `int(v / fact)` for a range above 0, `int(ceil(v * fact))`
-- and `int(floor(v * fact))`, of the range and the volume.
pub record Doubles : Type 0 where
  pub per_cent : ℕ → ℕ → ℕ
  pub scaled_ceil : ℤ → ℕ → ℤ
  pub scaled_floor : ℤ → ℕ → ℤ

abbrev pub or_default : ℕ → ℤ → ℕ
or_default d (pos zero) = d
or_default d (pos (suc n)) = suc n
or_default d (negsuc n) = d

unfoldable pub set_vol_params : ℤ → ℤ → ℤ → VolParams
set_vol_params min max step = record {
  volmin = or_default 0 min;
  volmax = or_default 100 max;
  volstep = or_default 1 step;
}

-- The device's volume, not below the minimum, then not above the maximum.
abbrev pub not_below : ℕ → ℤ → ℕ
not_below lo (pos n) = if ltb n lo then lo else n
not_below lo (negsuc n) = lo

abbrev pub not_above : ℕ → ℕ → ℕ
not_above hi n = if ltb hi n then hi else n

abbrev pub full_scale : VolParams → Bool
full_scale p = p.volmin == 0 && p.volmax == 100

unfoldable pub dev_vol_to_0100 : Doubles → VolParams → ℤ → ℤ
dev_vol_to_0100 dbl p dev_vol =
    let v = not_above p.volmax (not_below p.volmin dev_vol) in
    if full_scale p
    then pos v
    else if ltb p.volmin p.volmax
    then pos (dbl.per_cent (p.volmax - p.volmin) (v - p.volmin))
    else sub_ℕ v p.volmin

-- Whole steps: the remainder, which has the sign of the volume, is filled up or dropped.
abbrev pub whole_steps : ℕ → Bool → ℤ → ℤ
whole_steps step going_up (pos n) =
    if n % step == 0
    then pos n
    else if going_up
    then pos (n + (step - n % step))
    else pos (n - n % step)
whole_steps step going_up (negsuc n) =
    if suc n % step == 0
    then negsuc n
    else if going_up
    then sub_ℕ (step + suc n % step) (suc n)
    else sub_ℕ (suc n % step) (suc n)

-- The volume above the minimum, before it is made whole steps.
abbrev pub scaled : Doubles → VolParams → Bool → ℕ → ℤ
scaled dbl p going_up ivol =
    if full_scale p
    then pos ivol
    else if going_up
    then dbl.scaled_ceil (sub_ℕ p.volmax p.volmin) ivol
    else dbl.scaled_floor (sub_ℕ p.volmax p.volmin) ivol

-- What is sent to the device for a wish in 0 to 100.
unfoldable pub device_volume : Doubles → VolParams → Bool → ℕ → ℤ
device_volume dbl p going_up ivol =
    pos p.volmin +ℤ whole_steps p.volstep going_up (scaled dbl p going_up ivol)

abbrev pub in_0100 : ℤ → ℕ
in_0100 (pos n) = if ltb 100 n then 100 else n
in_0100 (negsuc n) = 0

-- `desiredVolume > currentVolume`
abbrev pub above : ℕ → ℤ → Bool
above n (pos c) = ltb c n
above n (negsuc c) = true

abbrev pub channel_call : Service → Bytes → Bytes → SoapOutgoing
unfolding add_arg
channel_call s act channel =
    add_arg (codes "Channel") channel (add_arg (codes "InstanceID") (codes "0") (plain_call s act))

module _ {W : Type 0} where
  abbrev pub volume_of :
      Doubles → VolParams → Lib W → Option ((ℤ × SoapIncoming) × W) → Option (ℤ × W)
  volume_of dbl p lib none = none
  volume_of dbl p lib (some ((ret, dat), w)) =
      if same_int ret lib.codes.success
      then some (
        elim (get_int (codes "CurrentVolume") dat) [
          | none ↦ lib.codes.bad_response
          | some v ↦ dev_vol_to_0100 dbl p v
        ],
        w,
      )
      else some (ret, w)

  -- `getVolume`: a volume or an error's number.
  unfoldable pub get_volume : Doubles → VolParams → Lib W → Service → Bytes → W → Option (ℤ × W)
  unfolding run_action dev_vol_to_0100 get_int channel_call
  get_volume dbl p lib s channel w =
      volume_of dbl p lib
        (run_action lib s (channel_call s (codes "GetVolume") channel) no_data none w)

  abbrev pub result_of : Option ((ℤ × SoapIncoming) × W) → Option (ℤ × W)
  result_of none = none
  result_of (some ((ret, dat), w)) = some (ret, w)

  abbrev pub send_value :
      Lib W → Service → Bytes → Bytes → Bytes → Option Bytes → W → Option (ℤ × W)
  unfolding run_action channel_call add_arg
  send_value lib s act channel name none w = none
  send_value lib s act channel name (some text) w =
      result_of (run_action lib s (add_arg name text (channel_call s act channel)) no_data none w)

  abbrev pub send_volume :
      Doubles → VolParams → Lib W → Service → Bytes → ℕ → Option (ℤ × W) → Option (ℤ × W)
  unfolding send_value device_volume
  send_volume dbl p lib s channel ivol none = none
  send_volume dbl p lib s channel ivol (some (current, w)) =
      if same_int (pos ivol) current
      then some (lib.codes.success, w)
      else send_value lib s (codes "SetVolume") channel (codes "DesiredVolume")
          (i2s (device_volume dbl p (above ivol current) ivol)) w

  -- `setVolume`: the current volume is always the one of "Master".
  unfoldable pub set_volume : Doubles → VolParams → Lib W → Service → ℤ → Bytes → W → Option (ℤ × W)
  unfolding send_volume get_volume
  set_volume dbl p lib s ivol channel w =
      send_volume dbl p lib s channel (in_0100 ivol) (get_volume dbl p lib s (codes "Master") w)

  unfoldable pub set_mute : Lib W → Service → Bool → Bytes → W → Option (ℤ × W)
  unfolding send_value
  set_mute lib s mute channel w =
      send_value lib s (codes "SetMute") channel (codes "DesiredMute")
        (i2s (pos (if mute then 1 else 0))) w

  abbrev pub mute_of : Lib W → Option ((ℤ × SoapIncoming) × W) → Option (Bool × W)
  mute_of lib none = none
  mute_of lib (some ((ret, dat), w)) =
      if same_int ret lib.codes.success
      then some (elim (get_bool (codes "CurrentMute") dat) [ none ↦ false | some b ↦ b ], w)
      else some (false, w)

  unfoldable pub get_mute : Lib W → Service → Bytes → W → Option (Bool × W)
  unfolding run_action channel_call get_bool
  get_mute lib s channel w =
      mute_of lib (run_action lib s (channel_call s (codes "GetMute") channel) no_data none w)
