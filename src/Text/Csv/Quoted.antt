-- ===== src/Text/Csv/Quoted.antt =====
-- `stringsToCSV` against a reader of quoted fields (RFC 4180): written fields are read back.
use libupnpp.Prelude.{
  ℕ, false, List, [], ◌∷◌, ◌++◌, Bytes, ◌==◌, if◌then◌else◌, ◌≡◌, ◌≢◌, refl, arith, append_assoc,
  append-nil, sym, ap, ◌∙◌, pop_back-append, Bool-cases, inl, inr,
}
use libupnpp.Text.Csv.{
  dquote, holds_special, need_quotes, double_dquotes, csv_field, csv_fields, strings_to_csv,
}

-- A reader by characters: at the start of a field, in a plain field, in a quoted one, and behind a
-- double quote in a quoted one. The arguments are the fields read and the field that is read.
pub data Mode : Type 0 where
  fresh plain quoted closing : Mode

abbrev pub read_fields : ℕ → Bytes → Mode → List Bytes → Bytes → List Bytes
read_fields sep [] m fs cur = fs ++ cur ∷ []
read_fields sep (c ∷ s) Mode.fresh fs cur =
    read_fields sep s
      (if c == b'"' then Mode.quoted else if c == sep then Mode.fresh else Mode.plain)
      (if c == b'"' then fs else if c == sep then fs ++ cur ∷ [] else fs)
      (if c == b'"' then cur else if c == sep then [] else cur ++ c ∷ [])
read_fields sep (c ∷ s) Mode.plain fs cur =
    read_fields sep s (if c == sep then Mode.fresh else Mode.plain)
      (if c == sep then fs ++ cur ∷ [] else fs) (if c == sep then [] else cur ++ c ∷ [])
read_fields sep (c ∷ s) Mode.quoted fs cur =
    read_fields sep s (if c == b'"' then Mode.closing else Mode.quoted) fs
      (if c == b'"' then cur else cur ++ c ∷ [])
read_fields sep (c ∷ s) Mode.closing fs cur =
    read_fields sep s (if c == b'"' then Mode.quoted else Mode.fresh)
      (if c == b'"' then fs else fs ++ cur ∷ []) (if c == b'"' then cur ++ c ∷ [] else [])

read_doubled :
    (sep : ℕ) (t rest cur : Bytes) (fs : List Bytes)
    → read_fields sep (double_dquotes t ++ rest) Mode.quoted fs cur
      ≡ read_fields sep rest Mode.quoted fs (cur ++ t)
unfolding double_dquotes
read_doubled sep [] rest cur fs = rw append-nil
read_doubled sep (c ∷ t) rest cur fs =
    ground (arith, read_doubled sep t rest (cur ++ c ∷ []) fs, append_assoc cur (c ∷ []) t)

read_plain :
    (sep : ℕ) (t rest cur : Bytes) (fs : List Bytes)
    → holds_special sep t ≡ false
    → read_fields sep (double_dquotes t ++ rest) Mode.plain fs cur
      ≡ read_fields sep rest Mode.plain fs (cur ++ t)
unfolding double_dquotes holds_special
read_plain sep [] rest cur fs h = rw append-nil
read_plain sep (c ∷ t) rest cur fs h =
    ground (arith, read_plain sep t rest (cur ++ c ∷ []) fs, append_assoc cur (c ∷ []) t)

-- The mode behind a written field.
behind : ℕ → Bytes → Mode
behind sep t = if need_quotes sep t then Mode.closing else Mode.plain

read_field :
    (sep : ℕ) (t rest : Bytes) (fs : List Bytes)
    → read_fields sep (csv_field sep t ++ rest) Mode.fresh fs []
      ≡ read_fields sep rest (behind sep t) fs t
unfolding csv_field behind
read_field sep [] rest fs = unfold need_quotes double_dquotes in refl
read_field sep (c ∷ t) rest fs = elim (Bool-cases (need_quotes sep (c ∷ t))) [
  | inl e ↦
      rw (e, append_assoc (double_dquotes (c ∷ t)) (dquote ∷ []) rest)
        (read_doubled sep (c ∷ t) (dquote ∷ rest) [] fs)
  | inr e ↦ rw e (
      start (unfold need_quotes in e) ∙ read_plain sep (c ∷ t) rest [] fs (unfold need_quotes in e))
]
  where
    start :
        holds_special sep (c ∷ t) ≡ false
        → read_fields sep (double_dquotes (c ∷ t) ++ rest) Mode.fresh fs []
          ≡ read_fields sep (double_dquotes (c ∷ t) ++ rest) Mode.plain fs []
    start h = unfold double_dquotes holds_special in (ground arith)

-- The separator behind a field ends it.
read_sep :
    (sep : ℕ) (t rest : Bytes) (fs : List Bytes)
    → sep ≢ b'"'
    → read_fields sep (sep ∷ rest) (behind sep t) fs t
      ≡ read_fields sep rest Mode.fresh (fs ++ t ∷ []) []
unfolding behind
read_sep sep t rest fs h = ground arith

-- The written fields with a separator between them.
joined : ℕ → Bytes → List Bytes → Bytes
joined sep t [] = csv_field sep t
joined sep t (u ∷ us) = csv_field sep t ++ sep ∷ joined sep u us

csv_fields-joined :
    (sep : ℕ) (t : Bytes) (ts : List Bytes) (s : Bytes)
    → csv_fields sep (t ∷ ts) s ≡ (s ++ joined sep t ts) ++ sep ∷ []
unfolding csv_fields joined
csv_fields-joined sep t [] s = sym (append_assoc s (csv_field sep t) (sep ∷ []))
csv_fields-joined sep t (u ∷ us) s =
    csv_fields-joined sep u us (s ++ (csv_field sep t ++ sep ∷ [])) ∙ simp append_assoc

read_end :
    (sep : ℕ) (m : Mode) (fs : List Bytes) (t : Bytes) → read_fields sep [] m fs t ≡ fs ++ t ∷ []
read_end sep m fs t = refl

read_joined :
    (sep : ℕ) (t : Bytes) (ts fs : List Bytes)
    → sep ≢ b'"'
    → read_fields sep (joined sep t ts) Mode.fresh fs [] ≡ fs ++ t ∷ ts
unfolding joined
read_joined sep t [] fs h =
    ap (λ w. read_fields sep w Mode.fresh fs []) (sym (append-nil (csv_field sep t)))
    ∙ read_field sep t [] fs
    ∙ read_end sep (behind sep t) fs t
read_joined sep t (u ∷ us) fs h =
    rw (read_field sep t (sep ∷ joined sep u us) fs, read_sep sep t (joined sep u us) fs h)
      (read_joined sep u us (fs ++ t ∷ []) h ∙ append_assoc fs (t ∷ []) (u ∷ us))

-- For every list of one or more tokens, whatever they hold, a reader of quoted fields gets the
-- tokens back from the text that is written, if the separator is not the double quote.
pub strings_to_csv_read :
    (sep : ℕ) (t : Bytes) (ts : List Bytes)
    → sep ≢ b'"'
    → read_fields sep (strings_to_csv (t ∷ ts) sep) Mode.fresh [] [] ≡ t ∷ ts
unfolding strings_to_csv
strings_to_csv_read sep t ts h =
    rw (csv_fields-joined sep t ts [], pop_back-append) (read_joined sep t ts [] h)
