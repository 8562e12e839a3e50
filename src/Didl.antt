-- ===== src/Didl.antt =====
-- libupnpp/control/cdircontent.cxx and libupnpp/control/cdircontent.hxx: the objects of a DIDL-Lite text,
-- read without details, which is how the library reads them. `sanitize` is what the options make of an
-- URL, and an attribute that is missing reads as an empty text.
pub mod Fields
pub mod Entries
pub mod Getters
mod Tests
use libupnpp.Prelude.{
  ℕ, zero, suc, ◌-◌, ◌==◌, Bool, true, false, ◌||◌, List, [], ◌∷◌, ◌++◌, Option, none, some,
  if◌then◌else◌, Bytes, codes, beq, find, assign, get_elem?, take, drop,
}
use libupnpp.Prelude.Int.{ℤ, pos}
use libupnpp.Text.Decimal.{upnpdurationtos}
use libupnpp.Text.Escape.{xml_unquote}
use libupnpp.Text.Percent.{re_sanitize_url}
use libupnpp.Xml.{StackEl, ElPath, Expat, Handlers, parse, collect}

pub data ObjType : Type 0 where
  objtnone item container : ObjType

pub data ItemClass : Type 0 where
  audio_item playlist unknown video_item : ItemClass

pub record Resource : Type 0 where
  pub uri : Bytes
  pub props : List (Bytes × Bytes)

pub record DirObject : Type 0 where
  pub id : Bytes
  pub pid : Bytes
  pub title : Bytes
  pub type : ObjType
  pub iclass : ItemClass
  pub props : List (Bytes × Bytes)
  pub resources : List Resource
  pub didlfrag : Bytes

pub record DirContent : Type 0 where
  pub containers : List DirObject
  pub items : List DirObject

-- The parser's own state: the contents and the object that is being read.
pub record DirParser : Type 0 where
  pub dir : DirContent
  pub tobj : DirObject

-- `clear(false)`
abbrev pub clear_object : DirObject
clear_object = record {
  id = [];
  pid = [];
  title = [];
  type = ObjType.objtnone;
  iclass = ItemClass.unknown;
  props = [];
  resources = [];
  didlfrag = [];
}

abbrev pub clear_content : DirContent
clear_content = record { containers = []; items = [] }

abbrev pub or_empty : Option Bytes → Bytes
or_empty none = []
or_empty (some v) = v

abbrev pub okitems : List (Bytes × ItemClass)
okitems =
    (codes "object.item.audioItem", ItemClass.audio_item)
    ∷ (codes "object.item.audioItem.musicTrack", ItemClass.audio_item)
    ∷ (codes "object.item.audioItem.audioBroadcast", ItemClass.audio_item)
    ∷ (codes "object.item.audioItem.audioBook", ItemClass.audio_item)
    ∷ (codes "object.item.playlistItem", ItemClass.playlist)
    ∷ (codes "object.item.videoItem", ItemClass.video_item)
    ∷ []

-- `m_path.back().attributes`
abbrev pub back_attributes : ElPath → List (Bytes × Bytes)
back_attributes [] = []
back_attributes (el ∷ path) = el.attributes

abbrev pub back_data : ElPath → Bytes
back_data [] = []
back_data (el ∷ path) = el.contents

abbrev pub back_start : ElPath → ℕ
back_start [] = 0
back_start (el ∷ path) = el.start_index

-- The name of the element around the innermost one.
abbrev pub parent_name : ElPath → Bytes
parent_name [] = codes "root"
parent_name (el ∷ []) = codes "root"
parent_name (el ∷ parent ∷ path) = parent.name

abbrev pub fresh_object : ObjType → List (Bytes × Bytes) → DirObject
unfolding find
fresh_object t atts = record clear_object {
  id = or_empty (find (codes "id") atts);
  pid = or_empty (find (codes "parentID") atts);
  type = t;
}

-- `StartElement`
unfoldable pub start_element : Bytes → ElPath → DirParser → DirParser
unfolding fresh_object
start_element name path p =
    if beq name (codes "container")
    then record p { tobj = fresh_object ObjType.container (back_attributes path) }
    else if beq name (codes "item")
    then record p { tobj = fresh_object ObjType.item (back_attributes path) }
    else p

abbrev pub class_of : Option ItemClass → ItemClass
class_of none = ItemClass.unknown
class_of (some c) = c

-- `m_props["upnp:class"]`, which adds an empty one if there is none.
abbrev pub with_class : Option Bytes → List (Bytes × Bytes) → List (Bytes × Bytes)
with_class none props = assign (codes "upnp:class") [] props
with_class (some c) props = props

-- `checkobjok` by the type of the object; it always answers true.
abbrev pub check_typed : ObjType → DirObject → DirObject
unfolding find assign
check_typed ObjType.objtnone o = o
check_typed ObjType.container o = o
check_typed ObjType.item o =
    let found : Option Bytes = find (codes "upnp:class") o.props in
    record o { props = with_class found o.props; iclass = class_of (find (or_empty found) okitems) }

unfoldable pub checkobjok : DirObject → DirObject
unfolding check_typed
checkobjok o = check_typed o.type o

-- The role of an artist, in parentheses, unless it is that of an album's artist.
abbrev pub role_value : Option Bytes → Bytes
role_value none = []
role_value (some role) =
    if beq role (codes "AlbumArtist") then [] else codes " (" ++ role ++ codes ")"

abbrev pub new_value : Option Bytes → Bytes → Bytes → Bytes
new_value none dat role = dat ++ role
new_value (some current) dat role =
    if beq current dat then current else current ++ codes ", " ++ dat ++ role

-- `addprop`, in the format with concatenated texts.
unfoldable pub addprop : Bytes → Bytes → List (Bytes × Bytes) → DirObject → DirObject
unfolding find assign
addprop nm dat atts o = record o {
  props =
      assign nm (new_value (find nm o.props) dat (role_value (find (codes "role") atts))) o.props;
}

abbrev pub add_resource : Bytes → List (Bytes × Bytes) → DirObject → DirObject
add_resource uri atts o = record o {
  resources = o.resources ++ record { uri = uri; props = atts } ∷ [];
}

-- A child of an item or of a container, by its name.
unfoldable pub add_field :
    (Bytes → Bytes) → Bytes → Bytes → List (Bytes × Bytes) → DirObject → DirObject
unfolding addprop
add_field sanitize name dat atts o =
    if beq name (codes "dc:title")
    then record o { title = dat }
    else if beq name (codes "res")
    then add_resource (sanitize dat) atts o
    else if beq name (codes "upnp:albumArtURI")
    then addprop name (sanitize dat) atts o
    else addprop name dat atts o

-- The text of the item, up to its end tag, which is written anew.
abbrev pub fragment : Bytes → ℕ → ℕ → DirObject → DirObject
fragment input at stop o = elim (stop - at) [
  | zero ↦ o
  | suc len ↦ record o { didlfrag = take (suc len) (drop at input) ++ codes "</item>" }
]

-- `EndElement`
unfoldable pub end_element : (Bytes → Bytes) → Bytes → Bytes → ℕ → ElPath → DirParser → DirParser
unfolding checkobjok add_field
end_element sanitize input name stop path p =
    if beq name (codes "container")
    then (let o = checkobjok p.tobj in
        record { tobj = o; dir = record p.dir { containers = p.dir.containers ++ o ∷ [] } })
    else if beq name (codes "item")
    then (let o = fragment input (back_start path) stop (checkobjok p.tobj) in
        record { tobj = o; dir = record p.dir { items = p.dir.items ++ o ∷ [] } })
    else if beq (parent_name path) (codes "item") || beq (parent_name path) (codes "container")
    then record p { tobj = add_field sanitize name (back_data path) (back_attributes path) p.tobj }
    else p

-- `UPnPDirParser` for an input.
unfoldable pub dir_handlers : (Bytes → Bytes) → Bytes → Handlers DirParser
unfolding start_element end_element
dir_handlers sanitize input = record {
  start_element = λ name atts path p. start_element name path p;
  end_element = end_element sanitize input;
  character_data = collect;
}

-- The options' choice of `reSanitizeURL`.
abbrev pub sanitizer : Bool → Bytes → Bytes → Bytes
unfolding re_sanitize_url
sanitizer true chars uri = re_sanitize_url chars uri
sanitizer false chars uri = uri

abbrev pub parsed : Expat → (Bytes → Bytes) → DirContent → Option Bytes → Option (Bool × DirContent)
unfolding parse dir_handlers
parsed expat sanitize dir none = none
parsed expat sanitize dir (some input) =
    let r =
      parse expat (dir_handlers sanitize input) input (record { dir = dir; tobj = clear_object }) in
    some (r.0, r.1.dir)

abbrev pub unquoted : Bytes → Option Bytes
unfolding xml_unquote
unquoted [] = some []
unquoted (c ∷ s) = if c == b'&' then xml_unquote (c ∷ s) else some (c ∷ s)

-- `UPnPDirContent::parse`, which adds to what is there; `none` is the loop of `xmlUnquote` out of fuel.
unfoldable pub dir_parse : Expat → (Bytes → Bytes) → DirContent → Bytes → Option (Bool × DirContent)
unfolding parsed unquoted
dir_parse expat sanitize dir [] = some (false, dir)
dir_parse expat sanitize dir (c ∷ s) = parsed expat sanitize dir (unquoted (c ∷ s))
