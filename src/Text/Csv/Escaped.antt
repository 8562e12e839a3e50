-- ===== src/Text/Csv/Escaped.antt =====
-- `csvToStrings` against the encoding that UPnP prescribes: a comma or a backslash in a value has a
-- backslash before it.
use libupnpp.Prelude.{
  true, false, List, [], ◌∷◌, ◌++◌, Bytes, ◌==◌, if◌then◌else◌, ◌||◌, ◌≡◌, refl, arith,
  append_assoc, append-nil, sym, ap, ◌∙◌,
}
use libupnpp.Text.Csv.{Reader, States, read_char, read_chars, read_end, csv_to_strings}

abbrev pub escape_value : Bytes → Bytes
escape_value [] = []
escape_value (c ∷ s) =
    if c == b',' || c == b'\\' then b'\\' ∷ c ∷ escape_value s else c ∷ escape_value s

abbrev pub escape_list : Bytes → List Bytes → Bytes
escape_list v [] = escape_value v
escape_list v (w ∷ ws) = escape_value v ++ b',' ∷ escape_list w ws

abbrev reading : List Bytes → Bytes → Reader
reading ts cur = record { tokens = ts; current = cur; state = States.token }

read_value :
    (v rest cur : Bytes) (ts : List Bytes)
    → read_chars (escape_value v ++ rest) (reading ts cur) ≡ read_chars rest (reading ts (cur ++ v))
unfolding read_chars
read_value [] rest cur ts = rw append-nil
read_value (c ∷ v) rest cur ts =
    ground (arith, read_value v rest (cur ++ c ∷ []) ts, append_assoc cur (c ∷ []) v)

read_comma :
    (rest cur : Bytes) (ts : List Bytes)
    → read_chars (b',' ∷ rest) (reading ts cur) ≡ read_chars rest (reading (ts ++ cur ∷ []) [])
unfolding read_chars
read_comma rest cur ts = refl

read_list :
    (v : Bytes) (ws done : List Bytes)
    → (let r = read_chars (escape_list v ws) (reading done []) in read_end r.state r)
      ≡ (true, done ++ v ∷ ws)
read_list v [] done =
    let e : read_chars (escape_value v) (reading done []) ≡ reading done v =
      ap (λ w. read_chars w (reading done [])) (sym (append-nil (escape_value v)))
      ∙ read_value v [] [] done
      ∙ unfold read_chars in refl in
    rw e (unfold read_end in refl)
read_list v (w ∷ ws) done =
    rw (read_value v (b',' ∷ escape_list w ws) [] done, read_comma (escape_list w ws) v done)
      (read_list w ws (done ++ v ∷ []) ∙ ap (λ t. (true, t)) (append_assoc done (v ∷ []) (w ∷ ws)))

-- A list of one or more values, encoded as UPnP prescribes, is read as these values.
pub csv_to_strings-escape_list :
    (v : Bytes) (ws : List Bytes) → csv_to_strings (escape_list v ws) ≡ (true, v ∷ ws)
unfolding csv_to_strings
csv_to_strings-escape_list v ws = read_list v ws []

read_chars-append :
    (s t : Bytes) (r : Reader) → read_chars (s ++ t) r ≡ read_chars t (read_chars s r)
unfolding read_chars
read_chars-append [] t r = refl
read_chars-append (c ∷ s) t r = read_chars-append s t (read_char c r)

-- A text is refused if and only if a single backslash is left at its end: a text that is accepted
-- is refused with one more backslash, and accepted again with two.
pub csv_to_strings_trailing :
    (s : Bytes)
    → (csv_to_strings s).0 ≡ true
    → ((csv_to_strings (s ++ b'\\' ∷ [])).0 ≡ false)
      × ((csv_to_strings (s ++ b'\\' ∷ b'\\' ∷ [])).0 ≡ true)
unfolding csv_to_strings
csv_to_strings_trailing s h =
    let r = read_chars s (reading [] []) in
    rw
      (
        read_chars-append s (b'\\' ∷ []) (reading [] []),
        read_chars-append s (b'\\' ∷ b'\\' ∷ []) (reading [] []),
      )
      (tail_of r h)
  where
    tail_of :
        (r : Reader)
        → (read_end r.state r).0 ≡ true
        → ((let q = read_chars (b'\\' ∷ []) r in read_end q.state q).0 ≡ false)
          × ((let q = read_chars (b'\\' ∷ b'\\' ∷ []) r in read_end q.state q).0 ≡ true)
    tail_of r h = ground arith
