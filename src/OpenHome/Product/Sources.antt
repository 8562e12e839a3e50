-- ===== src/OpenHome/Product/Sources.antt =====
-- libupnpp/control/ohproduct.cxx, `OHSourceParser`: a list of sources against a reading that takes each source from its own fields.
use libupnpp.Prelude.{
  ℕ, true, false, List, [], ◌∷◌, ◌++◌, ◌≡◌, refl, ap, ◌∙◌, Bytes, codes, beq, All, append_assoc,
  append-nil, map,
}
use libupnpp.Xml.{Event, StackEl, ElPath, Expat, deliver, run}
use libupnpp.OpenHome.Product.{
  Source, new_source, SourceParser, end_source, source_handlers, parse_source_xml,
}
use libupnpp.OpenHome.Product.Fields.{
  value_of, flag_in, IsField, read_texts, read_fields, texts_of_other, read_fields_lem,
  source_text_lem,
}
use libupnpp.Xml.Written.{
  Field, Element, Root, text_events, field_events, end_events, element_events, document, Reports,
  opened, parse-Reports,
}

-- A source, from its own fields alone.
abbrev pub source_of : Element → Source
source_of e = record {
  name = value_of (codes "Name") e.fields [];
  type = value_of (codes "Type") e.fields [];
  visible = flag_in e.fields false;
}

abbrev pub AreFields : Element → Type 0
AreFields e = All IsField e.fields

abbrev pub source_name : Element → Bytes
source_name e = codes "Source"

abbrev pub same_element : Element → Element
same_element e = e

-- A name that the parser does not look at.
abbrev pub IsOther : Bytes → Type 0
IsOther nm =
    (beq nm (codes "Name") ≡ false)
    × (beq nm (codes "Type") ≡ false)
    × (beq nm (codes "Visible") ≡ false)
    × (beq nm (codes "Source") ≡ false)

run-text_events :
    (ts : List Bytes) (es : List Event) (el : StackEl) (path : ElPath) (p : SourceParser)
    → run source_handlers (text_events ts es) (el ∷ path, p)
      ≡ run source_handlers es (el ∷ path, record p { tsrc = read_texts el.name ts p.tsrc })
unfolding run deliver source_handlers
run-text_events [] es el path p = refl
run-text_events (t ∷ ts) es el path p =
    ap (λ q. run source_handlers (text_events ts es) (el ∷ path, q)) (source_text_lem el.name t p)
    ∙ run-text_events ts es el path _

-- Texts of an element that is none of the three.
run-between :
    (ts : List Bytes) (es : List Event) (el : StackEl) (path : ElPath) (p : SourceParser)
    → beq el.name (codes "Name") ≡ false
    → beq el.name (codes "Type") ≡ false
    → beq el.name (codes "Visible") ≡ false
    → run source_handlers (text_events ts es) (el ∷ path, p) ≡ run source_handlers es (el ∷ path, p)
run-between ts es el path p n t v =
    run-text_events ts es el path p
    ∙ ap (λ s. run source_handlers es (el ∷ path, record p { tsrc = s }))
        (texts_of_other el.name ts p.tsrc n t v)

end_field : (nm : Bytes) (p : SourceParser) → beq nm (codes "Source") ≡ false → end_source nm p ≡ p
unfolding end_source
end_field nm p h = rw h refl

abbrev source_el : Element → StackEl
source_el e = opened (codes "Source") e.atts e.at

run-field_events :
    (fs : List Field) (es : List Event) (e : Element) (path : ElPath) (p : SourceParser)
    → All IsField fs
    → run source_handlers (field_events fs es) (source_el e ∷ path, p)
      ≡ run source_handlers es (source_el e ∷ path, record p { tsrc = read_fields fs p.tsrc })
unfolding run deliver source_handlers
run-field_events [] es e path p a = refl
run-field_events (f ∷ fs) es e path p (h, a) =
    let rest : List Event = Event.close f.name f.stop ∷ field_events fs es in
    run-between f.gap (Event.start f.name f.atts f.at ∷ text_events f.stretches rest) (source_el e)
      path p refl refl refl
    ∙ run-text_events f.stretches rest (opened f.name f.atts f.at) (source_el e ∷ path) p
    ∙ ap (λ q. run source_handlers (field_events fs es) (source_el e ∷ path, q))
        (end_field f.name _ h)
    ∙ run-field_events fs es e path _ a

-- Between two sources.
abbrev fresh : List Source → SourceParser
fresh old = record { sources = old; tsrc = new_source }

-- From a source's start tag to its end tag.
run-source :
    (e : Element) (es : List Event) (path : ElPath) (old : List Source)
    → AreFields e
    → run source_handlers
        (Event.start (codes "Source") e.atts e.at
          ∷ field_events e.fields (end_events (codes "Source") e es))
        (path, fresh old)
      ≡ run source_handlers es (path, fresh (old ++ source_of e ∷ []))
unfolding run deliver source_handlers end_source
run-source e es path old h =
    run-field_events e.fields (end_events (codes "Source") e es) e path (fresh old) h
    ∙ run-between e.last (Event.close (codes "Source") e.stop ∷ es) (source_el e) path
        (record { sources = old; tsrc = read_fields e.fields new_source }) refl refl refl
    ∙ ap (λ s. run source_handlers es (path, fresh (old ++ s ∷ [])))
        (read_fields_lem e.fields new_source)

run-element_events :
    (sources : List Element) (es : List Event) (el : StackEl) (path : ElPath) (old : List Source)
    → IsOther el.name
    → All AreFields sources
    → run source_handlers
        (element_events source_name same_element sources es)
        (el ∷ path, fresh old)
      ≡ run source_handlers es (el ∷ path, fresh (old ++ map source_of sources))
run-element_events [] es el path old o a = rw (append-nil old) refl
run-element_events (e ∷ sources) es el path old (n, t, v, x) (h, a) =
    let rest : List Event = element_events source_name same_element sources es in
    run-between e.gap
      (Event.start (codes "Source") e.atts e.at
        ∷ field_events e.fields (end_events (codes "Source") e rest))
      el path (fresh old) n t v
    ∙ run-source e rest (el ∷ path) old h
    ∙ run-element_events sources es el path (old ++ source_of e ∷ []) (n, t, v, x) a
    ∙ ap (λ l. run source_handlers es (el ∷ path, fresh l))
        (append_assoc old (source_of e ∷ []) (map source_of sources))

-- When expat reports a list of sources, the parse succeeds and adds to the caller's sources one for
-- each, in order. Its name and its type are the last stretch of text that is not void in its own fields
-- "Name" and "Type", trimmed, or empty if there is none, and it is visible as the last such stretch in
-- its own fields "Visible" that reads as a truth value says, or else invisible. The fields stand in any
-- order, and texts between the tags, in any number of stretches, have no effect. No field is itself a
-- source, and the root has none of the four names.
pub parse_source_xml-document :
    (expat : Expat) (c : ℕ) (s : Bytes) (old : List Source) (root : Root) (sources : List Element)
    → Reports expat (c ∷ s) (document source_name same_element root sources)
    → IsOther root.name
    → All AreFields sources
    → parse_source_xml expat (c ∷ s) old ≡ (true, old ++ map source_of sources)
unfolding parse_source_xml run deliver source_handlers
parse_source_xml-document expat c s old root sources reported (n, t, v, x) a =
    let el : StackEl = opened root.name root.atts root.at in
    let last : List Event = Event.close root.name root.stop ∷ [] in
    let all : List Source = old ++ map source_of sources in
    ap (λ r. (r.0, r.1.sources))
      (parse-Reports expat source_handlers c s (document source_name same_element root sources)
        (fresh old) reported)
    ∙ ap (λ r. (true, r.1.sources)) {y = ([], end_source root.name (fresh all))}
        (run-element_events sources (text_events root.last last) el [] old (n, t, v, x) a
          ∙ run-between root.last last el [] (fresh all) n t v)
    ∙ ap (λ q. (true, q.sources)) {y = fresh all} (end_field root.name (fresh all) x)
