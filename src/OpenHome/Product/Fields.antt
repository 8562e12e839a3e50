-- ===== src/OpenHome/Product/Fields.antt =====
-- libupnpp/control/ohproduct.cxx, `OHSourceParser`: what the texts of the fields make of a source.
use libupnpp.Prelude.{
  Bool, true, false, List, [], ◌∷◌, ◌≡◌, refl, ap, ◌∙◌, if◌then◌else◌, Bytes, codes, beq, beq→eq,
  Bool-cases, inl, inr,
}
use libupnpp.Text.Trim.{trimstring}
use libupnpp.Soap.{string_to_bool}
use libupnpp.Xml.{is_void}
use libupnpp.Xml.Written.{Field}
use libupnpp.OpenHome.Product.{Source, SourceParser, visible_or, set_source, source_text}

abbrev pub trimmed : Bytes → Bytes
trimmed t = trimstring t (codes " \t")

-- The last stretch that is not void, over the fields of this name, or `d`.
abbrev pub last_stretch : List Bytes → Bytes → Bytes
last_stretch [] d = d
last_stretch (t ∷ ts) d = last_stretch ts (if is_void t then d else trimmed t)

abbrev pub value_of : Bytes → List Field → Bytes → Bytes
value_of nm [] d = d
value_of nm (f ∷ fs) d = value_of nm fs (if beq f.name nm then last_stretch f.stretches d else d)

-- The last stretch that reads as a truth value.
abbrev pub last_flag : List Bytes → Bool → Bool
last_flag [] d = d
last_flag (t ∷ ts) d =
    last_flag ts (if is_void t then d else visible_or d (string_to_bool (trimmed t)))

abbrev pub flag_in : List Field → Bool → Bool
flag_in [] d = d
flag_in (f ∷ fs) d =
    flag_in fs (if beq f.name (codes "Visible") then last_flag f.stretches d else d)

abbrev pub IsField : Field → Type 0
IsField f = beq f.name (codes "Source") ≡ false

-- What the parser does with one stretch of the innermost element's text, and with all of them.
abbrev pub read_text : Bytes → Bytes → Source → Source
unfolding set_source
read_text name t src = if is_void t then src else set_source name (trimmed t) src

abbrev pub read_texts : Bytes → List Bytes → Source → Source
read_texts name [] src = src
read_texts name (t ∷ ts) src = read_texts name ts (read_text name t src)

abbrev pub read_fields : List Field → Source → Source
read_fields [] src = src
read_fields (f ∷ fs) src = read_fields fs (read_texts f.name f.stretches src)

if_name :
    (w : Bool) (x : Bytes) (src : Source)
    → (if w then src else record src { name = x }) ≡ record src { name = if w then src.name else x }
if_name true x src = refl
if_name false x src = refl

if_type :
    (w : Bool) (x : Bytes) (src : Source)
    → (if w then src else record src { type = x }) ≡ record src { type = if w then src.type else x }
if_type true x src = refl
if_type false x src = refl

if_visible :
    (w x : Bool) (src : Source)
    → (if w then src else record src { visible = x })
      ≡ record src { visible = if w then src.visible else x }
if_visible true x src = refl
if_visible false x src = refl

pub if_same : (w : Bool) (src : Source) → (if w then src else src) ≡ src
if_same true src = refl
if_same false src = refl

texts_of_name :
    (ts : List Bytes) (src : Source)
    → read_texts (codes "Name") ts src ≡ record src { name = last_stretch ts src.name }
unfolding read_text
texts_of_name [] src = refl
texts_of_name (t ∷ ts) src =
    ap (read_texts (codes "Name") ts) (if_name (is_void t) (trimmed t) src) ∙ texts_of_name ts _

texts_of_type :
    (ts : List Bytes) (src : Source)
    → read_texts (codes "Type") ts src ≡ record src { type = last_stretch ts src.type }
unfolding read_text
texts_of_type [] src = refl
texts_of_type (t ∷ ts) src =
    ap (read_texts (codes "Type") ts) (if_type (is_void t) (trimmed t) src) ∙ texts_of_type ts _

texts_of_visible :
    (ts : List Bytes) (src : Source)
    → read_texts (codes "Visible") ts src ≡ record src { visible = last_flag ts src.visible }
unfolding read_text
texts_of_visible [] src = refl
texts_of_visible (t ∷ ts) src =
    ap (read_texts (codes "Visible") ts)
      (if_visible (is_void t) (visible_or src.visible (string_to_bool (trimmed t))) src)
    ∙ texts_of_visible ts _

pub texts_of_other :
    (nm : Bytes) (ts : List Bytes) (src : Source)
    → beq nm (codes "Name") ≡ false
    → beq nm (codes "Type") ≡ false
    → beq nm (codes "Visible") ≡ false
    → read_texts nm ts src ≡ src
unfolding read_text
texts_of_other nm [] src n t v = refl
texts_of_other nm (x ∷ ts) src n t v =
    ap (read_texts nm ts) (rw (n, t, v) (if_same (is_void x) src)) ∙ texts_of_other nm ts src n t v

-- A field's effect on each part of the source.
abbrev part_read : Bytes → List Bytes → Source → Source
part_read nm ts src = record {
  name = if beq nm (codes "Name") then last_stretch ts src.name else src.name;
  type = if beq nm (codes "Type") then last_stretch ts src.type else src.type;
  visible = if beq nm (codes "Visible") then last_flag ts src.visible else src.visible;
}

read_texts-part_read :
    (nm : Bytes) (ts : List Bytes) (src : Source) → read_texts nm ts src ≡ part_read nm ts src
read_texts-part_read nm ts src = elim (Bool-cases (beq nm (codes "Name"))) [
  | inl n ↦ rw (beq→eq nm (codes "Name") n) (texts_of_name ts src)
  | inr n ↦ elim (Bool-cases (beq nm (codes "Type"))) [
    | inl t ↦ rw (beq→eq nm (codes "Type") t) (texts_of_type ts src)
    | inr t ↦ elim (Bool-cases (beq nm (codes "Visible"))) [
      | inl v ↦ rw (beq→eq nm (codes "Visible") v) (texts_of_visible ts src)
      | inr v ↦ rw (n, t, v) (texts_of_other nm ts src n t v)
    ]
  ]
]

pub read_fields_lem :
    (fs : List Field) (src : Source)
    → read_fields fs src ≡ record {
      name = value_of (codes "Name") fs src.name;
      type = value_of (codes "Type") fs src.type;
      visible = flag_in fs src.visible;
    }
read_fields_lem [] src = refl
read_fields_lem (f ∷ fs) src =
    ap (read_fields fs) (read_texts-part_read f.name f.stretches src) ∙ read_fields_lem fs _

pub source_text_lem :
    (nm t : Bytes) (p : SourceParser)
    → source_text nm t p ≡ record p { tsrc = read_text nm t p.tsrc }
unfolding source_text read_text
source_text_lem nm t p = if_source (is_void t) p (set_source nm (trimmed t) p.tsrc)
  where
    if_source :
        (w : Bool) (p : SourceParser) (s : Source)
        → (if w then p else record p { tsrc = s }) ≡ record p { tsrc = if w then p.tsrc else s }
    if_source true p s = refl
    if_source false p s = refl
