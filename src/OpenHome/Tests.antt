-- ===== src/OpenHome/Tests.antt =====
-- Runs of the OpenHome parsers on small documents.
use libupnpp.Prelude.{if◌then◌else◌, beq, true, false, List, [], ◌∷◌, ◌≡◌, refl, Bytes, codes, from}
use libupnpp.Text.Trim.{trimstring}
use libupnpp.Soap.{string_to_bool}
use libupnpp.Xml.{Event, Expat}
use libupnpp.Didl.{DirObject}
use libupnpp.OpenHome.{DidlReader}
use libupnpp.OpenHome.Tracks.Listed.{Entry}
use libupnpp.OpenHome.Tracks.Listed
use libupnpp.Didl.Entries
use libupnpp.OpenHome.Product.{Source, parse_source_xml}
use libupnpp.Xml.Written.{Field, Element, Root, document}
use libupnpp.OpenHome.Product.Sources.{source_name, same_element, parse_source_xml-document}

abbrev field : Bytes → List Bytes → Field
field name stretches = record {
  gap = codes "\n " ∷ [];
  name = name;
  atts = [];
  stretches = stretches;
  at = 20;
  stop = 30;
}

abbrev element : List Field → Element
element fields = record {
  gap = codes "\n" ∷ [];
  atts = [];
  at = 12;
  fields = fields;
  last = codes "\n" ∷ [];
  stop = 90;
}

abbrev root : Bytes → Root
root name = record { name = name; atts = []; at = 0; last = codes "\n" ∷ []; stop = 99 }

abbrev sources : List Element
sources =
    element (
      field (codes "Name") (codes " Radio " ∷ [])
      ∷ field (codes "Type") (codes "Ra" ∷ codes "dio" ∷ [])
      ∷ field (codes "Visible") (codes "true" ∷ [])
      ∷ [])
    ∷ element
        (field (codes "Visible") (codes "?" ∷ []) ∷ field (codes "Name") (codes "Net" ∷ []) ∷ [])
    ∷ []

abbrev expat : Expat
expat = record {
  chunk = λ s. (document source_name same_element (root (codes "SourceList")) sources, true);
  final = λ s. ([], true);
}

-- The type that came in two stretches is cut, and the second source has none.
abbrev read : List Source
read =
    record { name = codes "Radio"; type = codes "dio"; visible = true }
    ∷ record { name = codes "Net"; type = []; visible = false }
    ∷ []

parse_source_xml-document_example : parse_source_xml expat (codes "<SourceList/>") [] ≡ (true, read)
unfolding trimstring string_to_bool from
parse_source_xml-document_example =
    parse_source_xml-document expat b'<' (codes "SourceList/>") [] (root (codes "SourceList"))
      sources (_, [], refl, refl, refl) (refl, refl, refl, refl)
      ((refl, (refl, (refl, tt))), ((refl, (refl, tt)), tt))

-- A track list with one entry, whose metadata come in two stretches.
abbrev same : Bytes → Bytes
same uri = uri

abbrev tune : Entries.Entry
tune = record { is_item = true; element = element [] }

abbrev tune_object : DirObject
tune_object = Entries.object_of same (codes "<DIDL/>") tune

abbrev track : Entry
track = (
  element (
      field (codes "Id") (codes "12" ∷ [])
      ∷ field (codes "Metadata") (codes "<DI" ∷ codes "DL/>" ∷ [])
      ∷ field (codes "Uri") (codes "http:" ∷ [])
      ∷ []),
  tune_object,
)

abbrev tune_events : List Event
tune_events =
    document Entries.entry_name Entries.entry_element (root (codes "DIDL-Lite")) (tune ∷ [])

abbrev events_of : Bytes → List Event
events_of text =
    if beq text (codes "<TrackList/>")
    then document Listed.entry_name Listed.entry_element (root (codes "TrackList")) (track ∷ [])
    else tune_events

abbrev reader : DidlReader
reader = record {
  expat = record { chunk = λ s. (events_of s, true); final = λ s. ([], true) };
  sanitize = same;
}
