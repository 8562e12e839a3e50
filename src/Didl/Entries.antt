-- ===== src/Didl/Entries.antt =====
-- libupnpp/control/cdircontent.cxx: the parser of a DIDL-Lite text against a reading that takes one entry
-- at a time.
use libupnpp.Prelude.{Bool, true, false, List, [], ◌∷◌, ◌++◌, if◌then◌else◌, Bytes, codes, All}
use libupnpp.Xml.{attributes_of}
use libupnpp.Xml.Written.{Element}
use libupnpp.Didl.{ObjType, DirObject, DirContent, DirParser, fresh_object, checkobjok, fragment}
use libupnpp.Didl.Fields.{IsPlain, read_fields}

-- An entry, which is an item or else a container.
pub record Entry : Type 0 where
  pub is_item : Bool
  pub element : Element

abbrev pub tag_of : Bool → Bytes
tag_of true = codes "item"
tag_of false = codes "container"

abbrev pub type_of : Bool → ObjType
type_of true = ObjType.item
type_of false = ObjType.container

abbrev pub entry_name : Entry → Bytes
entry_name e = tag_of e.is_item

abbrev pub entry_element : Entry → Element
entry_element e = e.element

-- No child of the entry is an item or a container.
abbrev pub IsFlat : Entry → Type 0
IsFlat e = All IsPlain e.element.fields

module _ (sanitize : Bytes → Bytes) (input : Bytes) where
  -- The object of an entry, from the entry alone.
  abbrev pub object_of : Entry → DirObject
  object_of e =
      let x = e.element in
      let o = checkobjok (
        read_fields sanitize x.fields
          (fresh_object (type_of e.is_item) (attributes_of x.atts []))) in
      if e.is_item then fragment input x.at x.stop o else o

  abbrev pub add_entry : DirContent → Bool → DirObject → DirContent
  add_entry dir true o = record dir { items = dir.items ++ o ∷ [] }
  add_entry dir false o = record dir { containers = dir.containers ++ o ∷ [] }

  -- The entries, each put behind those of its kind.
  abbrev pub read_entries : List Entry → DirContent → DirContent
  read_entries [] dir = dir
  read_entries (e ∷ es) dir = read_entries es (add_entry dir e.is_item (object_of e))

  -- What the end tag of an entry leaves.
  abbrev pub ended : Entry → DirParser → DirParser
  ended e p = let o = object_of e in record { tobj = o; dir = add_entry p.dir e.is_item o }
