-- ===== src/Xml/Nested.antt =====
-- The path over a document whose elements are nested.
use libupnpp.Prelude.{ℕ, List, [], ◌∷◌, ◌++◌, ◌≡◌, refl, ◌∙◌, Bytes, Bool, true, false}
use libupnpp.Xml.{
  Event, StackEl, ElPath, Handlers, Expat, deliver, run, attributes_of, parse, first_chunk,
  finish_parse,
}

-- The contents of an element: texts, and elements with their contents.
pub data Nodes : Type 0 where
  nothing : Nodes
  words : Bytes → Nodes → Nodes
  element : Bytes → List (Bytes × Bytes) → ℕ → Nodes → ℕ → Nodes → Nodes

abbrev pub events_of : Nodes → List Event
events_of Nodes.nothing = []
events_of (Nodes.words t ns) = Event.text t ∷ events_of ns
events_of (Nodes.element name atts at inner stop ns) =
    Event.start name atts at ∷ events_of inner ++ Event.close name stop ∷ events_of ns

-- The element is the same, but for the text collected in it.
abbrev pub SameEl : StackEl → StackEl → Type 0
SameEl a b = (a.name ≡ b.name) × (a.start_index ≡ b.start_index) × (a.attributes ≡ b.attributes)

-- The path has the same elements, of which the innermost may have got text.
abbrev pub Continues : StackEl → ElPath → ElPath → Type 0
Continues el path [] = ⊥
Continues el path (a ∷ rest) = SameEl a el × (rest ≡ path)

Continues-trans :
    (a el : StackEl) (rest path q : ElPath)
    → SameEl a el
    → rest ≡ path
    → Continues a rest q
    → Continues el path q
Continues-trans a el rest path [] same e c = c
Continues-trans a el rest path (b ∷ r) same e c =
    ((c.0.0 ∙ same.0, c.0.1 ∙ same.1, c.0.2 ∙ same.2), c.1 ∙ e)

module _ {S : Type 0} where
  pub run-append :
      (h : Handlers S) (es fs : List Event) (p : ElPath × S)
      → run h (es ++ fs) p ≡ run h fs (run h es p)
  unfolding run
  run-append h [] fs p = refl
  run-append h (e ∷ es) fs p = run-append h es fs (deliver h e p)

  -- Texts leave the path to its elements.
  abbrev pub KeepsPath : Handlers S → Type 0
  KeepsPath h =
      (t : Bytes) (el : StackEl) (path : ElPath) (s : S)
      → Continues el path (h.character_data t (el ∷ path) s).0

  deliver-text :
      (h : Handlers S)
      → KeepsPath h
      → (t : Bytes) (el : StackEl) (path : ElPath) (p : ElPath × S) → Continues el path p.0
      → Continues el path (deliver h (Event.text t) p).0
  unfolding deliver
  deliver-text h k t el path ([], s) c = c
  deliver-text h k t el path (a ∷ rest, s) c =
      Continues-trans a el rest path (h.character_data t (a ∷ rest) s).0 c.0 c.1 (k t a rest s)

  deliver-close :
      (h : Handlers S) (name : Bytes) (stop : ℕ) (el : StackEl) (path : ElPath) (p : ElPath × S)
      → Continues el path p.0
      → (deliver h (Event.close name stop) p).0 ≡ path
  unfolding deliver
  deliver-close h name stop el path ([], s) c = elim c [ ]
  deliver-close h name stop el path (a ∷ rest, s) c = c.1

  -- Over the contents of an element the path stays that of the element: each start tag inside is taken
  -- off by its end tag, whatever the parser does with texts and tags, if texts keep the path.
  pub run-Continues :
      (h : Handlers S)
      → KeepsPath h
      → (ns : Nodes) (el : StackEl) (path : ElPath) (p : ElPath × S) → Continues el path p.0
      → Continues el path (run h (events_of ns) p).0
  unfolding run
  run-Continues h k Nodes.nothing el path p c = c
  run-Continues h k (Nodes.words t ns) el path p c =
      run-Continues h k ns el path (deliver h (Event.text t) p) (deliver-text h k t el path p c)
  run-Continues h k (Nodes.element name atts at inner stop ns) el path (q, s) c =
      let opened : ElPath × S = deliver h (Event.start name atts at) (q, s) in
      let inside : ElPath × S = run h (events_of inner) opened in
      let after : ElPath × S = deliver h (Event.close name stop) inside in
      let leaf : StackEl = record {
        name = name;
        start_index = at;
        attributes = attributes_of atts [];
        contents = [];
      } in
      let same : after.0 ≡ q =
        deliver-close h name stop leaf q inside
          (run-Continues h k inner leaf q opened (unfold deliver in ((refl, refl, refl), refl))) in
      rw run-append (run-Continues h k ns el path after (rw same c))

-- A predicate on the parser's own state that every handler keeps.
module _ {S : Type 0} (P : S → Type 0) (h : Handlers S)
    (keeps : (e : Event) (q : ElPath × S) → P q.1 → P (deliver h e q).1) where
  run_keeps : (es : List Event) (q : ElPath × S) → P q.1 → P (run h es q).1
  unfolding run
  run_keeps [] q p = p
  run_keeps (e ∷ es) q p = run_keeps es (deliver h e q) (keeps e q p)

  first_chunk_keeps :
      (now last : List Event × Bool) (q : ElPath × S) → P q.1 → P (first_chunk h now last q).1
  unfolding first_chunk finish_parse
  first_chunk_keeps (es, true) last q p = run_keeps last.0 (run h es q) (run_keeps es q p)
  first_chunk_keeps (es, false) last q p = run_keeps es q p

  -- It is kept by the whole parse, accepted or not.
  pub parse_keeps : (expat : Expat) (input : Bytes) (s : S) → P s → P (parse expat h input s).1
  unfolding parse finish_parse
  parse_keeps expat [] s p = run_keeps (expat.final []).0 ([], s) p
  parse_keeps expat (c ∷ input) s p =
      first_chunk_keeps (expat.chunk (c ∷ input)) (expat.final (c ∷ input)) ([], s) p
