-- ===== src/OpenHome/Playlist.antt =====
-- libupnpp/control/ohplaylist.cxx, `read` and `readList`: the tracks of a playlist, whose list is parsed
-- like that of a radio.
use libupnpp.Prelude.{List, Option, none, some, Bytes, codes}
use libupnpp.Prelude.Int.{ℤ}
use libupnpp.Text.Decimal.{i2s}
use libupnpp.Text.Escape.{xml_unquote}
use libupnpp.Soap.{get_string, add_arg}
use libupnpp.Control.{Service, Lib, no_data, plain_call, run_action}
use libupnpp.OpenHome.{DidlReader, decode_metadata, on_success}
use libupnpp.OpenHome.Tracks.{TrackListEntry, ids_param, track_list}
use libupnpp.OpenHome.Radio.{Channel, with_uri}

-- The metadata are unquoted once whatever they are, and again by the parser if they begin with an
-- ampersand then. `none` is a loop out of fuel.
abbrev pub unquoted_track : DidlReader → ℤ → Bytes → Option Bytes → Option (ℤ × Channel)
unfolding decode_metadata
unquoted_track r bad uri none = none
unquoted_track r bad uri (some didl) = with_uri uri (decode_metadata r bad didl)

abbrev pub track_of : DidlReader → ℤ → Option Bytes → Option Bytes → Option (ℤ × Channel)
unfolding unquoted_track xml_unquote
track_of r bad none didl = some (bad, (none, none))
track_of r bad (some uri) none = some (bad, (some uri, none))
track_of r bad (some uri) (some didl) = unquoted_track r bad uri (xml_unquote didl)

module _ {W : Type 0} where
  abbrev pub read_track :
      DidlReader → Lib W → Service → Option Bytes → W → Option ((ℤ × Channel) × W)
  unfolding on_success run_action track_of
  read_track r lib s none w = none
  read_track r lib s (some id) w =
      on_success lib (none, none)
        (λ dat.
          track_of r lib.codes.bad_response (get_string (codes "Uri") dat)
            (get_string (codes "Metadata") dat))
        (run_action lib s (add_arg (codes "Id") id (plain_call s (codes "Read"))) no_data none w)

  -- `read`
  unfoldable pub playlist_read : DidlReader → Lib W → Service → ℤ → W → Option ((ℤ × Channel) × W)
  unfolding read_track
  playlist_read r lib s id w = read_track r lib s (i2s id) w

  -- `readList`
  unfoldable pub playlist_read_list :
      DidlReader → ℤ → Lib W → Service → List ℤ → W → Option ((ℤ × List TrackListEntry) × W)
  unfolding track_list ids_param
  playlist_read_list r unset lib s ids w =
      track_list r unset (codes "TrackList") lib s (ids_param ids) w
