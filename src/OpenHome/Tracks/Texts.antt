-- ===== src/OpenHome/Tracks/Texts.antt =====
-- libupnpp/control/ohplaylist.cxx and ohradio.cxx, `OHTrackListParser`: what the texts of the fields make
-- of an entry.
use libupnpp.Prelude.{
  Bool, true, false, List, [], ◌∷◌, ◌++◌, ◌≡◌, refl, ap, ◌∙◌, inl, inr, if◌then◌else◌, Bytes, codes,
  beq, beq→eq, Bool-cases,
}
use libupnpp.Prelude.Int.{ℤ}
use libupnpp.Text.Decimal.{atoi}
use libupnpp.Xml.{is_void}
use libupnpp.OpenHome.Tracks.{TrackListParser, track_text}
use libupnpp.Xml.Written.{Field, all_text}

-- The last stretch that is not void, as it is and as a number.
abbrev pub last_text : List Bytes → Bytes → Bytes
last_text [] d = d
last_text (t ∷ ts) d = last_text ts (if is_void t then d else t)

abbrev pub last_number : List Bytes → ℤ → ℤ
last_number [] d = d
last_number (t ∷ ts) d = last_number ts (if is_void t then d else atoi t)

-- The same over the fields of an entry, by their names.
abbrev pub url_in : List Field → Bytes → Bytes
url_in [] d = d
url_in (f ∷ fs) d = url_in fs (if beq f.name (codes "Uri") then last_text f.stretches d else d)

abbrev pub id_in : List Field → ℤ → ℤ
id_in [] d = d
id_in (f ∷ fs) d = id_in fs (if beq f.name (codes "Id") then last_number f.stretches d else d)

abbrev pub metadata_in : List Field → Bytes → Bytes
metadata_in [] d = d
metadata_in (f ∷ fs) d =
    metadata_in fs (if beq f.name (codes "Metadata") then all_text f.stretches d else d)

-- What the parser does with the texts of an element, and with the fields.
abbrev pub read_texts : Bytes → List Bytes → TrackListParser → TrackListParser
read_texts nm [] p = p
read_texts nm (t ∷ ts) p = read_texts nm ts (track_text nm t p)

abbrev pub read_fields : List Field → TrackListParser → TrackListParser
read_fields [] p = p
read_fields (f ∷ fs) p = read_fields fs (read_texts f.name f.stretches p)

if_same : (w : Bool) (p : TrackListParser) → (if w then p else p) ≡ p
if_same true p = refl
if_same false p = refl

if_id :
    (w : Bool) (x : ℤ) (p : TrackListParser)
    → (if w then p else record p { tt = record p.tt { id = x } })
      ≡ record p { tt = record p.tt { id = if w then p.tt.id else x } }
if_id true x p = refl
if_id false x p = refl

if_url :
    (w : Bool) (x : Bytes) (p : TrackListParser)
    → (if w then p else record p { tt = record p.tt { url = x } })
      ≡ record p { tt = record p.tt { url = if w then p.tt.url else x } }
if_url true x p = refl
if_url false x p = refl

if_tdidl :
    (w : Bool) (x : Bytes) (p : TrackListParser)
    → (if w then p else record p { tdidl = x }) ≡ record p { tdidl = if w then p.tdidl else x }
if_tdidl true x p = refl
if_tdidl false x p = refl

texts_of_id :
    (ts : List Bytes) (p : TrackListParser)
    → read_texts (codes "Id") ts p ≡ record p { tt = record p.tt { id = last_number ts p.tt.id } }
unfolding track_text
texts_of_id [] p = refl
texts_of_id (t ∷ ts) p =
    ap (read_texts (codes "Id") ts) (if_id (is_void t) (atoi t) p) ∙ texts_of_id ts _

texts_of_uri :
    (ts : List Bytes) (p : TrackListParser)
    → read_texts (codes "Uri") ts p ≡ record p { tt = record p.tt { url = last_text ts p.tt.url } }
unfolding track_text
texts_of_uri [] p = refl
texts_of_uri (t ∷ ts) p =
    ap (read_texts (codes "Uri") ts) (if_url (is_void t) t p) ∙ texts_of_uri ts _

texts_of_metadata :
    (ts : List Bytes) (p : TrackListParser)
    → read_texts (codes "Metadata") ts p ≡ record p { tdidl = all_text ts p.tdidl }
unfolding track_text
texts_of_metadata [] p = refl
texts_of_metadata (t ∷ ts) p =
    ap (read_texts (codes "Metadata") ts) (if_tdidl (is_void t) (p.tdidl ++ t) p)
    ∙ texts_of_metadata ts _

-- A text of any other element, so also one between the fields.
track_text-other :
    (nm t : Bytes) (p : TrackListParser)
    → beq nm (codes "Id") ≡ false
    → beq nm (codes "Uri") ≡ false
    → beq nm (codes "Metadata") ≡ false
    → track_text nm t p ≡ p
unfolding track_text
track_text-other nm t p i u m = rw (i, u, m) (if_same (is_void t) p)

pub texts_of_other :
    (nm : Bytes) (ts : List Bytes) (p : TrackListParser)
    → beq nm (codes "Id") ≡ false
    → beq nm (codes "Uri") ≡ false
    → beq nm (codes "Metadata") ≡ false
    → read_texts nm ts p ≡ p
texts_of_other nm [] p i u m = refl
texts_of_other nm (t ∷ ts) p i u m =
    ap (read_texts nm ts) (track_text-other nm t p i u m) ∙ texts_of_other nm ts p i u m

-- A field's effect on each part of the state.
abbrev part_read : Bytes → List Bytes → TrackListParser → TrackListParser
part_read nm ts p = record p {
  tt = record p.tt {
    id = if beq nm (codes "Id") then last_number ts p.tt.id else p.tt.id;
    url = if beq nm (codes "Uri") then last_text ts p.tt.url else p.tt.url;
  };
  tdidl = if beq nm (codes "Metadata") then all_text ts p.tdidl else p.tdidl;
}

read_texts-part_read :
    (nm : Bytes) (ts : List Bytes) (p : TrackListParser) → read_texts nm ts p ≡ part_read nm ts p
read_texts-part_read nm ts p = elim (Bool-cases (beq nm (codes "Id"))) [
  | inl i ↦ rw (beq→eq nm (codes "Id") i) (texts_of_id ts p)
  | inr i ↦ elim (Bool-cases (beq nm (codes "Uri"))) [
    | inl u ↦ rw (beq→eq nm (codes "Uri") u) (texts_of_uri ts p)
    | inr u ↦ elim (Bool-cases (beq nm (codes "Metadata"))) [
      | inl m ↦ rw (beq→eq nm (codes "Metadata") m) (texts_of_metadata ts p)
      | inr m ↦ rw (i, u, m) (texts_of_other nm ts p i u m)
    ]
  ]
]

pub read_fields_lem :
    (fs : List Field) (p : TrackListParser)
    → read_fields fs p ≡ record p {
      tt = record p.tt { id = id_in fs p.tt.id; url = url_in fs p.tt.url };
      tdidl = metadata_in fs p.tdidl;
    }
read_fields_lem [] p = refl
read_fields_lem (f ∷ fs) p =
    ap (read_fields fs) (read_texts-part_read f.name f.stretches p) ∙ read_fields_lem fs _
