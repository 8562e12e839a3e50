-- ===== src/OpenHome/Tracks.antt =====
-- libupnpp/control/ohradio.cxx and ohplaylist.hxx: the list of tracks or channels that `readList` asks for, and its parser.
pub mod Texts
pub mod Listed
use libupnpp.Prelude.{
  Bool, true, false, List, [], ◌∷◌, ◌++◌, Option, none, some, if◌then◌else◌, Bytes, codes, beq,
}
use libupnpp.Prelude.Int.{ℤ, pos, negsuc}
use libupnpp.Text.Decimal.{i2s, atoi}
use libupnpp.Xml.{ElPath, Handlers, is_void, parse}
use libupnpp.Didl.{DirObject, DirContent, clear_object, clear_content, dir_parse}
use libupnpp.OpenHome.{DidlReader, on_success}
use libupnpp.Soap.{get_string, add_arg}
use libupnpp.Control.{Service, Lib, no_data, plain_call, run_action}

-- `OHPlaylist::TrackListEntry`
pub record TrackListEntry : Type 0 where
  pub id : ℤ
  pub url : Bytes
  pub dirent : DirObject

-- `OHTrackListParser`: the entries, the one that is being read, and its metadata.
pub record TrackListParser : Type 0 where
  pub tracks : List TrackListEntry
  pub tt : TrackListEntry
  pub tdidl : Bytes

abbrev pub clear_entry : TrackListEntry
clear_entry = record { id = negsuc 0; url = []; dirent = clear_object }

-- The end of an entry, with the objects of its metadata if they were parsed.
abbrev pub end_entry : List DirObject → TrackListParser → TrackListParser
end_entry [] p = p
end_entry (o ∷ []) p = record {
  tracks = p.tracks ++ record p.tt { dirent = o } ∷ [];
  tt = clear_entry;
  tdidl = [];
}
end_entry (o ∷ o2 ∷ os) p = p

abbrev pub with_didl : Option (Bool × DirContent) → TrackListParser → TrackListParser
with_didl none p = p
with_didl (some (false, dir)) p = p
with_didl (some (true, dir)) p = end_entry dir.items p

-- `EndElement`
unfoldable pub end_track_element : DidlReader → Bytes → TrackListParser → TrackListParser
unfolding dir_parse
end_track_element r name p =
    if beq name (codes "Entry")
    then with_didl (dir_parse r.expat r.sanitize clear_content p.tdidl) p
    else p

abbrev pub back_name : ElPath → Bytes
back_name [] = []
back_name (el ∷ path) = el.name

-- `CharacterData`: an identifier and an address are replaced by each stretch of text, metadata grow.
unfoldable pub track_text : Bytes → Bytes → TrackListParser → TrackListParser
unfolding atoi
track_text name s p =
    if is_void s
    then p
    else if beq name (codes "Id")
    then record p { tt = record p.tt { id = atoi s } }
    else if beq name (codes "Uri")
    then record p { tt = record p.tt { url = s } }
    else if beq name (codes "Metadata")
    then record p { tdidl = p.tdidl ++ s }
    else p

unfoldable pub track_handlers : DidlReader → Handlers TrackListParser
unfolding end_track_element track_text
track_handlers r = record {
  start_element = λ name atts path p. p;
  end_element = λ name stop path p. end_track_element r name p;
  character_data = λ s path p. (path, track_text (back_name path) s p);
}

abbrev pub parsed_tracks : ℤ → Bool × TrackListParser → ℤ × List TrackListEntry
parsed_tracks bad (true, p) = (pos 0, p.tracks)
parsed_tracks bad (false, p) = (bad, p.tracks)

-- The list, whose first entry's identifier is `unset` before it is read.
abbrev pub read_tracks : DidlReader → ℤ → ℤ → Option Bytes → Option (ℤ × List TrackListEntry)
unfolding parse track_handlers
read_tracks r unset bad none = some (bad, [])
read_tracks r unset bad (some xml) =
    let start : TrackListParser = record {
      tracks = [];
      tt = record clear_entry { id = unset };
      tdidl = [];
    } in
    some (parsed_tracks bad (parse r.expat (track_handlers r) xml start))

-- The loop over the ids; `none` is one that is not printed.
abbrev pub and_id : Option Bytes → Option Bytes → Option Bytes
and_id none rest = none
and_id (some t) none = none
and_id (some t) (some rest) = some (t ++ codes " " ++ rest)

unfoldable pub ids_param : List ℤ → Option Bytes
unfolding i2s
ids_param [] = some []
ids_param (i ∷ is) = and_id (i2s i) (ids_param is)

module _ {W : Type 0} where
  -- `readList` once the ids are printed; the answer has the list under `listnm`.
  unfoldable pub track_list :
      DidlReader
      → ℤ
      → Bytes
      → Lib W
      → Service
      → Option Bytes
      → W
      → Option ((ℤ × List TrackListEntry) × W)
  unfolding on_success run_action read_tracks
  track_list r unset listnm lib s none w = none
  track_list r unset listnm lib s (some ids) w =
      on_success lib [] (λ dat. read_tracks r unset lib.codes.bad_response (get_string listnm dat))
        (run_action lib s (add_arg (codes "IdList") ids (plain_call s (codes "ReadList"))) no_data
          none w)
