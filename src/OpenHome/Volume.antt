-- ===== src/OpenHome/Volume.antt =====
-- libupnpp/control/ohvolume.cxx: the volume of an OpenHome device, whose limit is asked for once and then
-- told by events. The arithmetic on doubles is an argument.
use libupnpp.Prelude.{
  ℕ, zero, suc, ◌==◌, Bool, true, false, List, [], ◌∷◌, Option, none, some, if◌then◌else◌, ltb,
  Bytes, codes, beq,
}
use libupnpp.Prelude.Int.{ℤ, pos, negsuc}
use libupnpp.Text.Decimal.{i2s, atoi}
use libupnpp.Soap.{SoapIncoming, get_int, get_bool, val2s_bool}
use libupnpp.Control.{Service, Lib, no_data, plain_call, run_action, run_simple_get}
use libupnpp.Playlist.{send_setter}
use libupnpp.OpenHome.{Report, flag_of, is_service, on_success}

-- `isOHVLService`
unfoldable pub is_oh_vl_service : Bytes → Bool
unfolding is_service
is_oh_vl_service st = is_service (codes "urn:av-openhome-org:service:Volume:1") st

-- With `fact = double(volmax) / 100.0`: `int(v / fact)`, `int(ceil(v * fact))` and `int(floor(v * fact))`
-- of the limit and the volume.
pub record Doubles : Type 0 where
  pub per_cent : ℕ → ℕ → ℕ
  pub scaled_ceil : ℕ → ℤ → ℤ
  pub scaled_floor : ℕ → ℤ → ℤ

-- A limit that is not above 0 counts as 100.
abbrev pub limit_or_100 : ℤ → ℕ
limit_or_100 (pos zero) = 100
limit_or_100 (pos (suc n)) = suc n
limit_or_100 (negsuc n) = 100

abbrev pub is_negative : ℤ → Bool
is_negative (pos n) = false
is_negative (negsuc n) = true

-- The device's volume, from 0 to the limit.
abbrev pub within : ℕ → ℤ → ℕ
within volmax (negsuc n) = 0
within volmax (pos n) = if ltb volmax n then volmax else n

-- `devVolTo0100`, once the limit is known.
unfoldable pub percent_of : Doubles → ℕ → ℤ → ℕ
percent_of dbl volmax dev_vol =
    let v = within volmax dev_vol in if volmax == 100 then v else dbl.per_cent volmax v

-- `a > b`
abbrev pub greater : ℤ → ℤ → Bool
greater (pos a) (pos b) = ltb b a
greater (pos a) (negsuc b) = true
greater (negsuc a) (pos b) = false
greater (negsuc a) (negsuc b) = ltb a b

-- `vol0100ToDev`, once the limit and the current volume are known. Steps are of 1, so there is no
-- remainder.
unfoldable pub device_volume : Doubles → ℕ → ℤ → ℤ → ℤ
device_volume dbl volmax current ivol =
    if volmax == 100
    then ivol
    else if greater ivol current
    then dbl.scaled_ceil volmax ivol
    else dbl.scaled_floor volmax ivol

-- The six numbers of `characteristics`, which are read if they are there.
abbrev pub characteristic_names : List Bytes
characteristic_names =
    codes "VolumeMax"
    ∷ codes "VolumeUnity"
    ∷ codes "VolumeSteps"
    ∷ codes "VolumeMilliDbPerStep"
    ∷ codes "BalanceMax"
    ∷ codes "FadeMax"
    ∷ []

abbrev pub read_all : List Bytes → SoapIncoming → List (Bytes × Option ℤ)
unfolding get_int
read_all [] dat = []
read_all (nm ∷ nms) dat = (nm, get_int nm dat) ∷ read_all nms dat

-- A result and `m_volmax`.
abbrev pub Kept : Type 0 → Type 0
Kept R = R × ℤ

module _ {W : Type 0} where
  unfoldable pub volume_limit : Lib W → Service → W → Option ((ℤ × Option ℤ) × W)
  unfolding run_simple_get
  volume_limit lib s w = run_simple_get lib s (codes "VolumeLimit") (get_int (codes "Value")) none w

  abbrev pub limit_asked : ℤ → Option ((ℤ × Option ℤ) × W) → Option (Kept ℕ × W)
  limit_asked volmax none = none
  limit_asked volmax (some ((ret, none), w)) = some ((limit_or_100 volmax, volmax), w)
  limit_asked volmax (some ((ret, some v), w)) = some ((limit_or_100 v, v), w)

  -- `maybeInitVolmax`
  unfoldable pub maybe_init_volmax : Lib W → Service → ℤ → W → Option (Kept ℕ × W)
  unfolding volume_limit
  maybe_init_volmax lib s volmax w =
      if is_negative volmax
      then limit_asked volmax (volume_limit lib s w)
      else some ((limit_or_100 volmax, volmax), w)

  abbrev pub scaled_by : Doubles → ℤ → Option (Kept ℕ × W) → Option (Kept ℕ × W)
  unfolding percent_of
  scaled_by dbl dev_vol none = none
  scaled_by dbl dev_vol (some ((limit, volmax), w)) =
      some ((percent_of dbl limit dev_vol, volmax), w)

  unfoldable pub dev_vol_to_0100 : Doubles → Lib W → Service → ℤ → ℤ → W → Option (Kept ℕ × W)
  unfolding scaled_by maybe_init_volmax
  dev_vol_to_0100 dbl lib s volmax dev_vol w =
      scaled_by dbl dev_vol (maybe_init_volmax lib s volmax w)

  abbrev pub with_result : ℤ → Option (Kept ℕ × W) → Option (Kept (ℤ × ℕ) × W)
  with_result ret none = none
  with_result ret (some ((v, volmax), w)) = some (((ret, v), volmax), w)

  abbrev pub volume_read :
      Doubles → Lib W → Service → ℤ → Option ((ℤ × Option ℤ) × W) → Option (Kept (ℤ × ℕ) × W)
  unfolding dev_vol_to_0100
  volume_read dbl lib s volmax none = none
  volume_read dbl lib s volmax (some ((ret, none), w)) = some (((ret, 20), volmax), w)
  volume_read dbl lib s volmax (some ((ret, some mval), w)) =
      with_result ret (dev_vol_to_0100 dbl lib s volmax mval w)

  -- `volume`, which is 20 if it is not known.
  unfoldable pub volume : Doubles → Lib W → Service → ℤ → W → Option (Kept (ℤ × ℕ) × W)
  unfolding volume_read run_simple_get
  volume dbl lib s volmax w =
      volume_read dbl lib s volmax
        (run_simple_get lib s (codes "Volume") (get_int (codes "Value")) none w)

  abbrev pub for_current : Doubles → ℕ → ℤ → Option (Kept (ℤ × ℕ) × W) → Option (Kept ℤ × W)
  unfolding device_volume
  for_current dbl limit ivol none = none
  for_current dbl limit ivol (some (((ret, current), volmax), w)) =
      some ((device_volume dbl limit (pos current) ivol, volmax), w)

  abbrev pub for_limit : Doubles → Lib W → Service → ℤ → Option (Kept ℕ × W) → Option (Kept ℤ × W)
  unfolding for_current volume
  for_limit dbl lib s ivol none = none
  for_limit dbl lib s ivol (some ((limit, volmax), w)) =
      for_current dbl limit ivol (volume dbl lib s volmax w)

  unfoldable pub vol_0100_to_dev : Doubles → Lib W → Service → ℤ → ℤ → W → Option (Kept ℤ × W)
  unfolding for_limit maybe_init_volmax
  vol_0100_to_dev dbl lib s volmax ivol w =
      for_limit dbl lib s ivol (maybe_init_volmax lib s volmax w)

  abbrev pub keep_limit : ℤ → Option ((ℤ × SoapIncoming) × W) → Option (Kept ℤ × W)
  keep_limit volmax none = none
  keep_limit volmax (some ((ret, dat), w)) = some ((ret, volmax), w)

  abbrev pub send_volume : Lib W → Service → Option (Kept ℤ × W) → Option (Kept ℤ × W)
  send_volume lib s none = none
  send_volume lib s (some ((mval, volmax), w)) =
      keep_limit volmax (send_setter lib s (codes "SetVolume") (i2s mval) w)

  unfoldable pub set_volume : Doubles → Lib W → Service → ℤ → ℤ → W → Option (Kept ℤ × W)
  unfolding vol_0100_to_dev
  set_volume dbl lib s volmax value w = send_volume lib s (vol_0100_to_dev dbl lib s volmax value w)

  unfoldable pub mute : Lib W → Service → W → Option ((ℤ × Option Bool) × W)
  unfolding run_simple_get
  mute lib s w = run_simple_get lib s (codes "Mute") (get_bool (codes "Value")) none w

  unfoldable pub set_mute : Lib W → Service → Bool → W → Option ((ℤ × SoapIncoming) × W)
  unfolding val2s_bool
  set_mute lib s value w = send_setter lib s (codes "SetMute") (val2s_bool value) w

  unfoldable pub characteristics : Lib W → Service → W → Option ((ℤ × List (Bytes × Option ℤ)) × W)
  unfolding on_success run_action read_all
  characteristics lib s w =
      on_success lib [] (λ dat. some (lib.codes.success, read_all characteristic_names dat))
        (run_action lib s (plain_call s (codes "Characteristics")) no_data none w)

  abbrev pub number_told : Option (Kept ℕ × W) → Option (Kept Report × W)
  number_told none = none
  number_told (some ((v, volmax), w)) = some ((Report.number (pos v), volmax), w)

  -- `evtCallback`, for one variable, if there is a reporter.
  unfoldable pub volume_report :
      Doubles → Lib W → Service → ℤ → Bytes → Bytes → W → Option (Kept Report × W)
  unfolding dev_vol_to_0100 flag_of
  volume_report dbl lib s volmax name value w =
      if beq name (codes "Volume")
      then number_told (dev_vol_to_0100 dbl lib s volmax (atoi value) w)
      else if beq name (codes "VolumeLimit")
      then some ((Report.nothing, atoi value), w)
      else if beq name (codes "Mute")
      then some ((Report.number (flag_of value), volmax), w)
      else some ((Report.words value, volmax), w)

  abbrev pub rest_told : Report → Option (Kept (List Report) × W) → Option (Kept (List Report) × W)
  rest_told r none = none
  rest_told r (some ((rs, volmax), w)) = some ((r ∷ rs, volmax), w)

  abbrev pub first_told :
      (ℤ → W → Option (Kept (List Report) × W))
      → Option (Kept Report × W)
      → Option (Kept (List Report) × W)
  first_told rest none = none
  first_told rest (some ((r, volmax), w)) = rest_told r (rest volmax w)

  unfoldable pub volume_events :
      Doubles → Lib W → Service → List (Bytes × Bytes) → ℤ → W → Option (Kept (List Report) × W)
  unfolding volume_report
  volume_events dbl lib s [] volmax w = some (([], volmax), w)
  volume_events dbl lib s ((name, value) ∷ props) volmax w =
      first_told (volume_events dbl lib s props) (volume_report dbl lib s volmax name value w)

  -- The loop of `evtCallback`, a report for each variable.
  unfoldable pub volume_evt_callback :
      Doubles
      → Lib W
      → Service
      → Bool
      → List (Bytes × Bytes)
      → ℤ
      → W
      → Option (Kept (List Report) × W)
  unfolding volume_events
  volume_evt_callback dbl lib s false props volmax w = some (([], volmax), w)
  volume_evt_callback dbl lib s true props volmax w = volume_events dbl lib s props volmax w
