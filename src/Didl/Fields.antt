-- ===== src/Didl/Fields.antt =====
-- libupnpp/control/cdircontent.cxx: what the tags and the texts of the children of an entry in a DIDL-Lite
-- text make of its object.
use libupnpp.Prelude.{
  Bool, true, false, ◌||◌, List, [], ◌∷◌, ◌++◌, ◌≡◌, refl, ap, ◌∙◌, Bytes, codes, beq, All,
  if◌then◌else◌,
}
use libupnpp.Xml.{Event, StackEl, ElPath, is_void, attributes_of, deliver, run}
use libupnpp.Xml.Written.{Field, text_events, field_events, all_text, opened}
use libupnpp.Didl.{DirObject, DirParser, start_element, add_field, end_element, dir_handlers}

abbrev pub is_object : Bytes → Bool
is_object name = beq name (codes "item") || beq name (codes "container")

abbrev pub IsPlain : Field → Type 0
IsPlain f = (beq f.name (codes "container") ≡ false) × (beq f.name (codes "item") ≡ false)

abbrev pub read_field : (Bytes → Bytes) → Field → DirObject → DirObject
read_field sanitize f o =
    add_field sanitize f.name (all_text f.stretches []) (attributes_of f.atts []) o

abbrev pub read_fields : (Bytes → Bytes) → List Field → DirObject → DirObject
read_fields sanitize [] o = o
read_fields sanitize (f ∷ fs) o = read_fields sanitize fs (read_field sanitize f o)

pub start_plain :
    (name : Bytes) (path : ElPath) (p : DirParser)
    → beq name (codes "container") ≡ false
    → beq name (codes "item") ≡ false
    → start_element name path p ≡ p
unfolding start_element
start_plain name path p c i = rw c (rw i refl)

module _ (sanitize : Bytes → Bytes) (input : Bytes) where
  end_plain :
      (f : Field) (leaf el : StackEl) (path : ElPath) (p : DirParser)
      → IsPlain f
      → is_object el.name ≡ true
      → end_element sanitize input f.name f.stop (leaf ∷ el ∷ path) p
        ≡ record p { tobj = add_field sanitize f.name leaf.contents leaf.attributes p.tobj }
  unfolding end_element
  end_plain f leaf el path p (c, i) h = rw c (rw i (rw h refl))

  collect_text :
      (b : Bool) (t : Bytes) (el : StackEl) (path : ElPath) (p : DirParser)
      → ◌≡◌ {A = ElPath × DirParser}
          (if b then (el ∷ path, p) else (record el { contents = el.contents ++ t } ∷ path, p))
          (record el { contents = if b then el.contents else el.contents ++ t } ∷ path, p)
  collect_text true t el path p = refl
  collect_text false t el path p = refl

  -- Texts are collected in the innermost element.
  pub run-text_events :
      (ts : List Bytes) (es : List Event) (el : StackEl) (path : ElPath) (p : DirParser)
      → run (dir_handlers sanitize input) (text_events ts es) (el ∷ path, p)
        ≡ run
            (dir_handlers sanitize input)
            es
            (record el { contents = all_text ts el.contents } ∷ path, p)
  unfolding run deliver dir_handlers
  run-text_events [] es el path p = refl
  run-text_events (t ∷ ts) es el path p =
      ap (run (dir_handlers sanitize input) (text_events ts es))
        (collect_text (is_void t) t el path p)
      ∙ run-text_events ts es _ path p

  -- One child, from its start tag to its end tag.
  run-field :
      (f : Field) (es : List Event) (el : StackEl) (path : ElPath) (p : DirParser)
      → is_object el.name ≡ true
      → IsPlain f
      → run
          (dir_handlers sanitize input)
          (Event.start f.name f.atts f.at
            ∷ text_events f.stretches (Event.close f.name f.stop ∷ es))
          (el ∷ path, p)
        ≡ run
            (dir_handlers sanitize input)
            es
            (el ∷ path, record p { tobj = read_field sanitize f p.tobj })
  unfolding run deliver dir_handlers
  run-field f es el path p h plain =
      let leaf : StackEl = opened f.name f.atts f.at in
      let rest : List Event = text_events f.stretches (Event.close f.name f.stop ∷ es) in
      ap (λ q. run (dir_handlers sanitize input) rest (leaf ∷ el ∷ path, q))
        (start_plain f.name (leaf ∷ el ∷ path) p plain.0 plain.1)
      ∙ run-text_events f.stretches (Event.close f.name f.stop ∷ es) leaf (el ∷ path) p
      ∙ ap (λ q. run (dir_handlers sanitize input) es (el ∷ path, q))
          (end_plain f (record leaf { contents = all_text f.stretches [] }) el path p plain h)

  -- All children; the text between them is collected in the entry.
  pub run-field_events :
      (fs : List Field) (es : List Event) (el : StackEl) (path : ElPath) (p : DirParser)
      → is_object el.name ≡ true
      → All IsPlain fs
      → (d : Bytes) × (run (dir_handlers sanitize input) (field_events fs es) (el ∷ path, p)
          ≡ run (dir_handlers sanitize input) es (
            record el { contents = d } ∷ path,
            record p { tobj = read_fields sanitize fs p.tobj },
          ))
  run-field_events [] es el path p h a = (el.contents, refl)
  run-field_events (f ∷ fs) es el path p h (plain, a) =
      let between : StackEl = record el { contents = all_text f.gap el.contents } in
      let (d, e) =
        run-field_events fs es between path (record p { tobj = read_field sanitize f p.tobj }) h
          a in
      (
        d,
        run-text_events f.gap
              (Event.start f.name f.atts f.at
                ∷ text_events f.stretches (Event.close f.name f.stop ∷ field_events fs es))
              el path p
            ∙ run-field f (field_events fs es) between path p h plain
            ∙ e,
      )
