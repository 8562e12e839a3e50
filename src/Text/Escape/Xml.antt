-- ===== src/Text/Escape/Xml.antt =====
-- Quoting for XML and back.
use libupnpp.Prelude.{
  ℕ, zero, suc, ◌<◌, [], ◌∷◌, ◌++◌, some, Bytes, codes, until, from, ◌==◌, length, length-append,
  ◌≡◌, refl, sym, ap, arith, Avoids, All-append, Bool-cases, List-cases, inl, inr, length-from-le,
}
use libupnpp.Text.Escape.{
  xml_entity, xml_quote, entity, known_or_raw, unquote, xml_unquote, html_entity, escape_html,
}

unquote_html :
    (f c : ℕ) (rest out : Bytes)
    → unquote f rest ≡ some out
    → unquote (suc f) (html_entity c ++ rest) ≡ some (c ∷ out)
unfolding unquote html_entity until from
unquote_html f c rest out h = ground arith

length-html_entity : (c : ℕ) → 0 < length (html_entity c)
unfolding html_entity
length-html_entity c = ground arith

unquote-escape_html :
    (s : Bytes) (f : ℕ) → length (escape_html s) < f → unquote f (escape_html s) ≡ some s
unfolding escape_html
unquote-escape_html s zero h = absurd (omega arith)
unquote-escape_html [] (suc f) h = unfold unquote in refl
unquote-escape_html (c ∷ s) (suc f) h = unquote_html f c (escape_html s) s (
    unquote-escape_html s f
      (omega (arith, length-append (html_entity c) (escape_html s), length-html_entity c)))

-- The XML reader of the SOAP helpers also undoes the HTML escaping of the text helpers.
pub xml_unquote-escape_html : (s : Bytes) → xml_unquote (escape_html s) ≡ some s
unfolding xml_unquote
xml_unquote-escape_html s = unquote-escape_html s (suc (length (escape_html s))) (omega arith)

xml_entity-Avoids : (c : ℕ) → Avoids (codes "<>\"'") (xml_entity c)
unfolding xml_entity
xml_entity-Avoids c = ground arith

-- Quoted text holds no character that would end or open markup or an attribute.
pub xml_quote-Avoids : (s : Bytes) → Avoids (codes "<>\"'") (xml_quote s)
unfolding xml_quote
xml_quote-Avoids [] = tt
xml_quote-Avoids (c ∷ s) =
    All-append _ (xml_entity c) (xml_quote s) (xml_entity-Avoids c) (xml_quote-Avoids s)

unquote_total : (s : Bytes) (f : ℕ) → length s < f → (out : Bytes) × (unquote f s ≡ some out)
unfolding unquote
unquote_total s zero h = absurd (omega arith)
unquote_total [] (suc f) h = ([], refl)
unquote_total (c ∷ s) (suc f) h = elim (Bool-cases (c == b'&')) [
  | inr e ↦ let (out, run) = unquote_total s f (omega arith) in (c ∷ out, rw (e, unquote, run) refl)
  | inl e ↦ elim (List-cases (from (λ x. x == b';') s)) [
    | inl k ↦ (c ∷ s, rw (e, unquote, k) refl)
    | inr (d, rest, k) ↦
        let (out, run) = unquote_total rest f (shorter k) in
        let name = until (λ x. x == b';') s in
        (known_or_raw name (entity name) ++ out, rw (e, unquote, k, run) refl)
  ]
]
  where
    shorter : {d : ℕ} {r : Bytes} → from (λ x. x == b';') s ≡ d ∷ r → length r < f
    shorter {d} {r} e =
        let l : length (d ∷ r) ≡ length (from (λ x. x == b';') s) = ap length (sym e) in
        omega (arith, length-from-le (λ x. x == b';') s)

-- Unquoting ends on every text, also on one with entities that are unknown or not complete.
pub xml_unquote_total : (s : Bytes) → (out : Bytes) × (xml_unquote s ≡ some out)
unfolding xml_unquote
xml_unquote_total s = unquote_total s (suc (length s)) (omega arith)
