-- ===== src/OpenHome/Tracks/Listed.antt =====
-- libupnpp/control/ohplaylist.cxx and ohradio.cxx, `OHTrackListParser`: a list of tracks against a reading
-- that takes each entry from its own fields.
use libupnpp.Prelude.{true, false, List, [], ◌∷◌, ◌≡◌, some, Bytes, codes, beq, All}
use libupnpp.Prelude.Int.{ℤ, negsuc}
use libupnpp.Xml.{StackEl}
use libupnpp.Didl.{DirObject, clear_content, dir_parse}
use libupnpp.OpenHome.{DidlReader}
use libupnpp.OpenHome.Tracks.{TrackListEntry, TrackListParser, clear_entry}
use libupnpp.OpenHome.Tracks.Texts.{id_in, url_in, metadata_in}
use libupnpp.Xml.Written.{Field, Element, opened}

-- An entry: its element, and the object that its metadata hold.
abbrev pub Entry : Type 0
Entry = Element × DirObject

abbrev pub entry_name : Entry → Bytes
entry_name e = codes "Entry"

abbrev pub entry_element : Entry → Element
entry_element e = e.0

abbrev pub track_of : ℤ → Entry → TrackListEntry
track_of d e = record { id = id_in e.0.fields d; url = url_in e.0.fields []; dirent = e.1 }

-- The entries, each from its own fields; `d` is the first one's identifier if it has none.
abbrev pub listed : ℤ → List Entry → List TrackListEntry
listed d [] = []
listed d (e ∷ rest) = track_of d e ∷ listed (negsuc 0) rest

-- No field is an entry.
abbrev pub IsField : Field → Type 0
IsField f = beq f.name (codes "Entry") ≡ false

-- A name that the parser does not look at.
abbrev pub IsOther : Bytes → Type 0
IsOther nm =
    (beq nm (codes "Id") ≡ false)
    × (beq nm (codes "Uri") ≡ false)
    × (beq nm (codes "Metadata") ≡ false)
    × (beq nm (codes "Entry") ≡ false)

-- An entry's metadata, put together, are a text with one item.
abbrev pub IsListed : DidlReader → Entry → Type 0
IsListed r e =
    All IsField e.0.fields
    × ((cs : List DirObject) × (dir_parse r.expat r.sanitize clear_content
            (metadata_in e.0.fields [])
          ≡ some (true, record { containers = cs; items = e.1 ∷ [] })))

-- Between two entries.
abbrev fresh : List TrackListEntry → ℤ → TrackListParser
fresh old d = record { tracks = old; tt = record clear_entry { id = d }; tdidl = [] }

abbrev entry_el : Element → StackEl
entry_el e = opened (codes "Entry") e.atts e.at
