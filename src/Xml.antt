-- ===== src/Xml.antt =====
-- libupnpp/expatmm.h: what an `inputRefXMLParser` makes of a document. Expat is an argument: it reports
-- the events of the text, which is handed over whole, then those of its end, each time with whether it
-- accepts. It reports texts and ends inside an element only, so on an empty path they have no effect.
pub mod Nested
pub mod Written
pub mod LastChange
use libupnpp.Prelude.{ℕ, Bool, true, false, List, [], ◌∷◌, ◌++◌, ◌==◌, if◌then◌else◌, Bytes, assign}

-- The calls of the handlers: the name and the attributes of a start tag, the name of an end tag, both
-- with the byte index, and a stretch of text.
pub data Event : Type 0 where
  start : Bytes → List (Bytes × Bytes) → ℕ → Event
  close : Bytes → ℕ → Event
  text : Bytes → Event

pub record StackEl : Type 0 where
  pub name : Bytes
  pub start_index : ℕ
  pub attributes : List (Bytes × Bytes)
  pub contents : Bytes

-- `m_path`, its back first.
abbrev pub ElPath : Type 0
ElPath = List StackEl

pub record Expat : Type 0 where
  pub chunk : Bytes → List Event × Bool
  pub final : Bytes → List Event × Bool

-- The loop `lastelt.attributes[atts[i]] = atts[i+1]`.
unfoldable pub attributes_of : List (Bytes × Bytes) → List (Bytes × Bytes) → List (Bytes × Bytes)
unfolding assign
attributes_of [] m = m
attributes_of ((k, v) ∷ atts) m = attributes_of atts (assign k v m)

-- The test of every `CharacterData`: a text that is empty or begins with a zero is ignored.
abbrev pub is_void : Bytes → Bool
is_void [] = true
is_void (c ∷ s) = c == 0

-- The virtual functions of a parser with the state `S`. They see the path; a text may change it.
pub record Handlers (S : Type 0) : Type 0 where
  pub start_element : Bytes → List (Bytes × Bytes) → ElPath → S → S
  pub end_element : Bytes → ℕ → ElPath → S → S
  pub character_data : Bytes → ElPath → S → ElPath × S

-- `m_path.back().data += str`
abbrev pub add_text : Bytes → ElPath → ElPath
add_text s [] = []
add_text s (el ∷ path) = record el { contents = el.contents ++ s } ∷ path

-- The `CharacterData` that collects the text of the innermost element.
abbrev pub collect : {S : Type 0} → Bytes → ElPath → S → ElPath × S
collect s path st = if is_void s then (path, st) else (add_text s path, st)

module _ {S : Type 0} where
  -- `_element_start_handler`, `_element_end_handler` and `_character_data_handler`
  unfoldable pub deliver : Handlers S → Event → ElPath × S → ElPath × S
  unfolding attributes_of
  deliver h (Event.start name atts at) (path, s) =
      let path1 : ElPath =
        record { name = name; start_index = at; attributes = attributes_of atts []; contents = [] }
        ∷ path in
      (path1, h.start_element name atts path1 s)
  deliver h (Event.close name at) ([], s) = ([], s)
  deliver h (Event.close name at) (el ∷ path, s) = (path, h.end_element name at (el ∷ path) s)
  deliver h (Event.text t) ([], s) = ([], s)
  deliver h (Event.text t) (el ∷ path, s) = h.character_data t (el ∷ path) s

  unfoldable pub run : Handlers S → List Event → ElPath × S → ElPath × S
  unfolding deliver
  run h [] p = p
  run h (e ∷ es) p = run h es (deliver h e p)

  -- `XML_Parse` with XML_TRUE, once no more is read.
  abbrev pub finish_parse : Handlers S → List Event × Bool → ElPath × S → Bool × S
  unfolding run
  finish_parse h (es, ok) p = (ok, (run h es p).1)

  abbrev pub first_chunk :
      Handlers S → List Event × Bool → List Event × Bool → ElPath × S → Bool × S
  unfolding run
  first_chunk h (es, true) last p = finish_parse h last (run h es p)
  first_chunk h (es, false) last p = (false, (run h es p).1)

  -- `Parse` with the `read_block` of `inputRefXMLParser`: the whole text is one block, and an empty one
  -- is not handed over. A handler is called up to where the text is refused.
  unfoldable pub parse : Expat → Handlers S → Bytes → S → Bool × S
  unfolding run
  parse expat h [] s = finish_parse h (expat.final []) ([], s)
  parse expat h (c ∷ input) s =
      first_chunk h (expat.chunk (c ∷ input)) (expat.final (c ∷ input)) ([], s)
