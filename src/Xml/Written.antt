-- ===== src/Xml/Written.antt =====
-- libupnpp/expatmm.h: the events of a document in which a root holds elements and these hold fields, as
-- the documents that the library parses are written.
use libupnpp.Prelude.{ℕ, List, [], ◌∷◌, ◌++◌, ◌≡◌, refl, sym, Bytes, if◌then◌else◌, true}
use libupnpp.Xml.{Event, StackEl, Expat, Handlers, is_void, run, attributes_of, parse}
use libupnpp.Xml.Nested.{run-append}

-- A field: the stretches of text before it, its tag and attributes, the stretches of its own text, and the
-- byte indices of its two tags.
pub record Field : Type 0 where
  pub gap : List Bytes
  pub name : Bytes
  pub atts : List (Bytes × Bytes)
  pub stretches : List Bytes
  pub at : ℕ
  pub stop : ℕ

-- An element, without its name: also the text before its end tag.
pub record Element : Type 0 where
  pub gap : List Bytes
  pub atts : List (Bytes × Bytes)
  pub at : ℕ
  pub fields : List Field
  pub last : List Bytes
  pub stop : ℕ

-- The root.
pub record Root : Type 0 where
  pub name : Bytes
  pub atts : List (Bytes × Bytes)
  pub at : ℕ
  pub last : List Bytes
  pub stop : ℕ

abbrev pub text_events : List Bytes → List Event → List Event
text_events [] es = es
text_events (t ∷ ts) es = Event.text t ∷ text_events ts es

abbrev pub field_events : List Field → List Event → List Event
field_events [] es = es
field_events (f ∷ fs) es = text_events f.gap (
    Event.start f.name f.atts f.at
    ∷ text_events f.stretches (Event.close f.name f.stop ∷ field_events fs es))

-- The end of an element, with the text before it.
abbrev pub end_events : Bytes → Element → List Event → List Event
end_events name e es = text_events e.last (Event.close name e.stop ∷ es)

module _ {A : Type 0} (name : A → Bytes) (el : A → Element) where
  abbrev pub element_events : List A → List Event → List Event
  element_events [] es = es
  element_events (x ∷ xs) es = text_events (el x).gap (
      Event.start (name x) (el x).atts (el x).at
      ∷ field_events (el x).fields (end_events (name x) (el x) (element_events xs es)))

  abbrev pub document : Root → List A → List Event
  document root xs =
      Event.start root.name root.atts root.at
      ∷ element_events xs (text_events root.last (Event.close root.name root.stop ∷ []))

-- Expat accepts the text and reports these events, some of which may come only at the end.
abbrev pub Reports : Expat → Bytes → List Event → Type 0
Reports expat s es =
    (now : List Event) × (later : List Event) × (expat.chunk s ≡ (now, true))
    × (expat.final s ≡ (later, true))
    × (now ++ later ≡ es)

-- What the parser collects of some stretches.
abbrev pub all_text : List Bytes → Bytes → Bytes
all_text [] d = d
all_text (t ∷ ts) d = all_text ts (if is_void t then d else d ++ t)

abbrev pub opened : Bytes → List (Bytes × Bytes) → ℕ → StackEl
opened name atts at = record {
  name = name;
  start_index = at;
  attributes = attributes_of atts [];
  contents = [];
}

pub parse-Reports :
    {S : Type 0} (expat : Expat) (h : Handlers S) (c : ℕ) (s : Bytes) (es : List Event) (st : S)
    → Reports expat (c ∷ s) es
    → parse expat h (c ∷ s) st ≡ (true, (run h es ([], st)).1)
unfolding parse
parse-Reports expat h c s es st (now, later, chunk, final, both) =
    rw (chunk, final, sym both, run-append h now later ([], st)) refl
