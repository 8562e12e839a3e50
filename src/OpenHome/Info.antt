-- ===== src/OpenHome/Info.antt =====
-- libupnpp/control/ohinfo.cxx and libupnpp/control/ohtime.cxx: what is told of the track that plays. A
-- caller may leave out variables; `wanted` says which it gave.
use libupnpp.Prelude.{
  Bool, true, false, List, [], ◌∷◌, ◌||◌, Option, none, some, if◌then◌else◌, Bytes, codes, beq,
}
use libupnpp.Prelude.Int.{ℤ, pos}
use libupnpp.Text.Decimal.{atoi}
use libupnpp.Soap.{SoapIncoming, get_string, get_int, get_bool}
use libupnpp.Control.{Service, Lib, no_data, plain_call, run_action}
use libupnpp.Didl.{DirObject, clear_object}
use libupnpp.OpenHome.{
  DidlReader, Report, told_reports, decode_metadata, report_object, is_service, on_success,
}
use libupnpp.OpenHome.Radio.{Channel, with_uri, object_of}

-- `isOHInfoService` and `isOHTMService`
unfoldable pub is_oh_info_service : Bytes → Bool
unfolding is_service
is_oh_info_service st = is_service (codes "urn:av-openhome-org:service:Info:1") st

unfoldable pub is_oh_tm_service : Bytes → Bool
unfolding is_service
is_oh_tm_service st = is_service (codes "urn:av-openhome-org:service:Time:1") st

-- `OHInfo::evtCallback`, for one variable.
unfoldable pub info_report : DidlReader → Bytes → Bytes → Option Report
unfolding decode_metadata
info_report r name value =
    if beq name (codes "Metatext")
    then report_object (decode_metadata r (pos 1) value)
    else some (Report.words value)

unfoldable pub info_evt_callback :
    DidlReader → Bool → List (Bytes × Bytes) → Option (List (Bytes × Report))
unfolding told_reports info_report
info_evt_callback r reporter props = told_reports (info_report r) reporter props

-- `OHTime::evtCallback`, for one variable.
unfoldable pub time_report : Bytes → Bytes → Option Report
unfolding atoi
time_report name value =
    if beq name (codes "TrackCount") || beq name (codes "Duration") || beq name (codes "Seconds")
    then some (Report.number (atoi value))
    else some (Report.words value)

unfoldable pub time_evt_callback : Bool → List (Bytes × Bytes) → Option (List (Bytes × Report))
unfolding told_reports time_report
time_evt_callback reporter props = told_reports time_report reporter props

abbrev pub metatext_of : DidlReader → ℤ → Option Bytes → Option (ℤ × Option DirObject)
unfolding decode_metadata
metatext_of r bad none = some (bad, none)
metatext_of r bad (some []) = some (pos 0, some clear_object)
metatext_of r bad (some (c ∷ didl)) = decode_metadata r bad (c ∷ didl)

abbrev pub track_dirent : DidlReader → ℤ → Bool → Option Bytes → Option (ℤ × Option DirObject)
track_dirent r bad false didl = some (pos 0, none)
track_dirent r bad true didl = object_of r bad didl

abbrev pub no_uri : Option (ℤ × Option DirObject) → Option (ℤ × Channel)
no_uri none = none
no_uri (some (ret, o)) = some (ret, (none, o))

-- The address, if it is wanted, and then the object, if that is.
abbrev pub track_of :
    DidlReader → ℤ → Bool → Bool → Option Bytes → Option Bytes → Option (ℤ × Channel)
track_of r bad false want_dirent uri didl = no_uri (track_dirent r bad want_dirent didl)
track_of r bad true want_dirent none didl = some (bad, (none, none))
track_of r bad true want_dirent (some uri) didl = with_uri uri (track_dirent r bad want_dirent didl)

-- A value of an answer.
pub data Value : Type 0 where
  int_value : ℤ → Value
  bool_value : Bool → Value
  text_value : Bytes → Value

-- The type of a caller's variable.
pub data Kind : Type 0 where
  int_kind bool_kind text_kind : Kind

abbrev pub some_value : {T : Type 0} → (T → Value) → Option T → Option Value
some_value f none = none
some_value f (some v) = some (f v)

abbrev pub get_value : Kind → Bytes → SoapIncoming → Option Value
unfolding get_int get_bool get_string
get_value Kind.int_kind nm dat = some_value Value.int_value (get_int nm dat)
get_value Kind.bool_kind nm dat = some_value Value.bool_value (get_bool nm dat)
get_value Kind.text_kind nm dat = some_value Value.text_value (get_string nm dat)

-- A name with the type of the variable, and whether the caller gave one.
pub record Wanted : Type 0 where
  pub name : Bytes
  pub kind : Kind
  pub wanted : Bool

abbrev pub and_value : Bytes → Value → ℤ × List (Bytes × Value) → ℤ × List (Bytes × Value)
and_value nm v (ret, vs) = (ret, (nm, v) ∷ vs)

-- The values one after the other, up to the first that is wanted and missing.
unfoldable pub read_wanted : ℤ → List Wanted → SoapIncoming → ℤ × List (Bytes × Value)
unfolding get_value
read_wanted bad [] dat = (pos 0, [])
read_wanted bad (v ∷ vs) dat =
    let rest = read_wanted bad vs dat in
    if v.wanted
    then (elim (get_value v.kind v.name dat) [
      | none ↦ (bad, [])
      | some t ↦ and_value v.name t rest
    ])
    else rest

abbrev pub counters_wanted : Bool → Bool → Bool → List Wanted
counters_wanted track details metatext =
    record { name = codes "TrackCount"; kind = Kind.int_kind; wanted = track }
    ∷ record { name = codes "DetailsCount"; kind = Kind.int_kind; wanted = details }
    ∷ record { name = codes "MetatextCount"; kind = Kind.int_kind; wanted = metatext }
    ∷ []

-- Which variables `details` is given.
pub record Details : Type 0 where
  pub duration : Bool
  pub bitrate : Bool
  pub bitdepth : Bool
  pub samplerate : Bool
  pub lossless : Bool
  pub codecname : Bool

abbrev pub details_wanted : Details → List Wanted
details_wanted d =
    record { name = codes "Duration"; kind = Kind.int_kind; wanted = d.duration }
    ∷ record { name = codes "BitRate"; kind = Kind.int_kind; wanted = d.bitrate }
    ∷ record { name = codes "BitDepth"; kind = Kind.int_kind; wanted = d.bitdepth }
    ∷ record { name = codes "SampleRate"; kind = Kind.int_kind; wanted = d.samplerate }
    ∷ record { name = codes "Lossless"; kind = Kind.bool_kind; wanted = d.lossless }
    ∷ record { name = codes "Codecname"; kind = Kind.text_kind; wanted = d.codecname }
    ∷ []

abbrev pub time_wanted : List Wanted
time_wanted =
    record { name = codes "TrackCount"; kind = Kind.int_kind; wanted = true }
    ∷ record { name = codes "Duration"; kind = Kind.int_kind; wanted = true }
    ∷ record { name = codes "Seconds"; kind = Kind.int_kind; wanted = true }
    ∷ []

module _ {W : Type 0} where
  unfoldable pub metatext : DidlReader → Lib W → Service → W → Option ((ℤ × Option DirObject) × W)
  unfolding on_success run_action metatext_of
  metatext r lib s w =
      on_success lib none
        (λ dat. metatext_of r lib.codes.bad_response (get_string (codes "Value") dat))
        (run_action lib s (plain_call s (codes "Metatext")) no_data none w)

  -- `track`, which runs the action Counters.
  unfoldable pub track : DidlReader → Lib W → Service → Bool → Bool → W → Option ((ℤ × Channel) × W)
  unfolding on_success run_action
  track r lib s want_uri want_dirent w =
      on_success lib (none, none)
        (λ dat.
          track_of r lib.codes.bad_response want_uri want_dirent (get_string (codes "Uri") dat)
            (get_string (codes "Metadata") dat))
        (run_action lib s (plain_call s (codes "Counters")) no_data none w)

  -- The values of an answer, by name.
  abbrev pub ask_wanted :
      Lib W → Service → Bytes → List Wanted → W → Option ((ℤ × List (Bytes × Value)) × W)
  unfolding on_success run_action read_wanted
  ask_wanted lib s act vs w =
      on_success lib [] (λ dat. some (read_wanted lib.codes.bad_response vs dat))
        (run_action lib s (plain_call s act) no_data none w)

  unfoldable pub counters :
      Lib W → Service → Bool → Bool → Bool → W → Option ((ℤ × List (Bytes × Value)) × W)
  unfolding ask_wanted
  counters lib s trackcount detailscount metatextcount w =
      ask_wanted lib s (codes "Counters") (counters_wanted trackcount detailscount metatextcount) w

  unfoldable pub details : Lib W → Service → Details → W → Option ((ℤ × List (Bytes × Value)) × W)
  unfolding ask_wanted
  details lib s d w = ask_wanted lib s (codes "Details") (details_wanted d) w

  -- `OHTime::time`
  unfoldable pub time : Lib W → Service → W → Option ((ℤ × List (Bytes × Value)) × W)
  unfolding ask_wanted
  time lib s w = ask_wanted lib s (codes "Time") time_wanted w
