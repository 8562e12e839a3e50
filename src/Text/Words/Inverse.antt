-- ===== src/Text/Words/Inverse.antt =====
-- How far `stringToStrings` undoes `stringsToString`.
use libupnpp.Prelude.{
  ℕ, true, false, List, [], ◌∷◌, ◌++◌, map, Bytes, if◌then◌else◌, ◌≡◌, ◌≢◌, refl, arith, All, Lacks,
  append_assoc, append-nil, pop_back-append, Bool-cases, inl, inr, sym, ap, ◌∙◌,
}
use libupnpp.Text.Words.{
  Lexer, States, dquote, backslash, lex, lex_end, string_to_strings, has_blanks, escape_dquotes,
  write_token, write_tokens, strings_to_string,
}

abbrev at_space : List Bytes → Lexer
at_space ts = record { tokens = ts; current = []; state = States.space }

abbrev in_token : List Bytes → Bytes → Lexer
in_token ts cur = record { tokens = ts; current = cur; state = States.token }

abbrev inside : List Bytes → Bytes → Lexer
inside ts cur = record { tokens = ts; current = cur; state = States.in_quote }

-- Inside quotes the escaped token is read back, if it holds no backslash.
lex_quoted :
    (t rest cur : Bytes) (ts : List Bytes)
    → Lacks backslash t
    → lex [] (escape_dquotes t ++ rest) (inside ts cur) ≡ lex [] rest (inside ts (cur ++ t))
unfolding lex escape_dquotes
lex_quoted [] rest cur ts h = rw append-nil
lex_quoted (c ∷ t) rest cur ts (hc, h) =
    ground (arith, lex_quoted t rest (cur ++ c ∷ []) ts h, append_assoc cur (c ∷ []) t)

-- Outside quotes it comes back as it is written, if no blank ends it.
lex_plain :
    (t rest cur : Bytes) (ts : List Bytes)
    → has_blanks t ≡ false
    → Lacks b'\r' t
    → lex [] (escape_dquotes t ++ rest) (in_token ts cur)
      ≡ lex [] rest (in_token ts (cur ++ escape_dquotes t))
unfolding lex escape_dquotes has_blanks
lex_plain [] rest cur ts b h = rw append-nil
lex_plain (c ∷ t) rest cur ts b (hc, h) = ground (
  arith,
  lex_plain t rest (cur ++ c ∷ []) ts,
  lex_plain t rest (cur ++ backslash ∷ [] ++ c ∷ []) ts,
  append_assoc cur (c ∷ []) (escape_dquotes t),
  append_assoc (cur ++ backslash ∷ []) (c ∷ []) (escape_dquotes t),
  append_assoc cur (backslash ∷ []) (c ∷ escape_dquotes t),
  h,
)

-- The first character of a token that is not quoted starts it.
lex_begin :
    (c : ℕ) (t rest : Bytes) (ts : List Bytes)
    → has_blanks (c ∷ t) ≡ false
    → c ≢ b'\r'
    → lex [] (escape_dquotes (c ∷ t) ++ rest) (at_space ts)
      ≡ lex [] (escape_dquotes (c ∷ t) ++ rest) (in_token ts [])
unfolding lex escape_dquotes has_blanks
lex_begin c t rest ts b h = ground arith

-- What a token may hold to be read back as one token: no backslash if it is written in quotes, and
-- else no carriage return.
pub record IsReadable (t : Bytes) : Type 0 where
  pub quoted : has_blanks t ≡ true → Lacks b'\\' t
  pub plain : has_blanks t ≡ false → Lacks b'\r' t

-- What it is read back as: a token that is not quoted has a backslash before each double quote.
abbrev pub read_back : Bytes → Bytes
read_back t = if has_blanks t then t else escape_dquotes t

-- The state behind a written token: a quoted one is complete.
behind : List Bytes → Bytes → Lexer
behind ts [] = at_space (ts ++ [] ∷ [])
behind ts (c ∷ t) =
    if has_blanks (c ∷ t)
    then at_space (ts ++ (c ∷ t) ∷ [])
    else in_token ts (escape_dquotes (c ∷ t))

lex_close :
    (rest cur : Bytes) (ts : List Bytes)
    → lex [] (dquote ∷ rest) (inside ts cur) ≡ lex [] rest (at_space (ts ++ cur ∷ []))
unfolding lex
lex_close rest cur ts = refl

lex_open :
    (rest : Bytes) (ts : List Bytes)
    → lex [] (dquote ∷ rest) (at_space ts) ≡ lex [] rest (inside ts [])
unfolding lex
lex_open rest ts = refl

lex_write :
    (t rest : Bytes) (ts : List Bytes)
    → IsReadable t
    → lex [] (write_token t ++ rest) (at_space ts) ≡ lex [] rest (behind ts t)
unfolding write_token behind
lex_write [] rest ts h = unfold lex in refl
lex_write (c ∷ t) rest ts h = elim (Bool-cases (has_blanks (c ∷ t))) [
  | inl e ↦
      rw (e, append_assoc (escape_dquotes (c ∷ t)) (dquote ∷ []) rest)
        (lex_open (escape_dquotes (c ∷ t) ++ (dquote ∷ rest)) ts
          ∙ lex_quoted (c ∷ t) (dquote ∷ rest) [] ts (h.quoted e)
          ∙ lex_close rest (c ∷ t) ts)
  | inr e ↦
      rw e (lex_begin c t rest ts e (h.plain e).0 ∙ lex_plain (c ∷ t) rest [] ts e (h.plain e))
]

lex_blank :
    (t rest : Bytes) (ts : List Bytes)
    → lex [] (b' ' ∷ rest) (behind ts t) ≡ lex [] rest (at_space (ts ++ read_back t ∷ []))
unfolding behind lex has_blanks
lex_blank [] rest ts = unfold escape_dquotes in refl
lex_blank (c ∷ t) rest ts = elim (Bool-cases (has_blanks (c ∷ t))) [
  | inl e ↦ rw e refl
  | inr e ↦ rw e refl
]

-- The written tokens with a space between them.
joined : Bytes → List Bytes → Bytes
joined t [] = write_token t
joined t (u ∷ us) = write_token t ++ b' ' ∷ joined u us

write_tokens-joined :
    (t : Bytes) (ts : List Bytes) (s : Bytes)
    → write_tokens (t ∷ ts) s ≡ (s ++ joined t ts) ++ b' ' ∷ []
unfolding write_tokens joined
write_tokens-joined t [] s = sym (append_assoc s (write_token t) (b' ' ∷ []))
write_tokens-joined t (u ∷ us) s =
    write_tokens-joined u us (s ++ (write_token t ++ b' ' ∷ [])) ∙ simp append_assoc

lex_last :
    (t : Bytes) (ts : List Bytes)
    → lex_end (behind ts t).state (behind ts t) ≡ (true, ts ++ read_back t ∷ [])
unfolding behind lex_end has_blanks
lex_last [] ts = unfold escape_dquotes in refl
lex_last (c ∷ t) ts = elim (Bool-cases (has_blanks (c ∷ t))) [
  | inl e ↦ rw e refl
  | inr e ↦ rw e refl
]

lex-joined :
    (t : Bytes) (ts done : List Bytes)
    → All IsReadable (t ∷ ts)
    → (let l = lex [] (joined t ts) (at_space done) in lex_end l.state l)
      ≡ (true, done ++ map read_back (t ∷ ts))
unfolding joined
lex-joined t [] done (h, _) =
    let e : lex [] (write_token t) (at_space done) ≡ behind done t =
      ap (λ w. lex [] w (at_space done)) (sym (append-nil (write_token t)))
      ∙ lex_write t [] done h
      ∙ unfold lex in refl in
    rw e (lex_last t done)
lex-joined t (u ∷ us) done (h, hs) =
    rw (lex_write t (b' ' ∷ joined u us) done h, lex_blank t (joined u us) done)
      (lex-joined u us (done ++ read_back t ∷ []) hs
        ∙ ap (λ w. (true, w)) (append_assoc done (read_back t ∷ []) (map read_back (u ∷ us))))

-- A list of readable tokens that was written is read as these tokens, each as `read_back` says.
pub string_to_strings-strings_to_string :
    (ts : List Bytes)
    → All IsReadable ts
    → string_to_strings (strings_to_string ts []) [] ≡ (true, map read_back ts)
unfolding string_to_strings strings_to_string
string_to_strings-strings_to_string [] h = unfold lex lex_end in refl
string_to_strings-strings_to_string (t ∷ ts) h =
    rw (write_tokens-joined t ts [], pop_back-append) (lex-joined t ts [] h)

escape_dquotes-Lacks : (t : Bytes) → Lacks b'"' t → escape_dquotes t ≡ t
unfolding escape_dquotes
escape_dquotes-Lacks [] h = refl
escape_dquotes-Lacks (c ∷ t) (hc, h) = ground (arith, escape_dquotes-Lacks t h)

map-read_back : (ts : List Bytes) → All (Lacks b'"') ts → map read_back ts ≡ ts
map-read_back [] h = refl
map-read_back (t ∷ ts) (ht, h) = elim (Bool-cases (has_blanks t)) [
  | inl e ↦ rw e (ap (◌∷◌ t) (map-read_back ts h))
  | inr e ↦ rw (e, escape_dquotes-Lacks t ht) (ap (◌∷◌ t) (map-read_back ts h))
]

-- Tokens that hold no double quote, no backslash and no carriage return are read back unchanged,
-- the empty token and tokens with blanks included.
pub string_to_strings_inverse :
    (ts : List Bytes)
    → All (Lacks b'"') ts
    → All (Lacks b'\\') ts
    → All (Lacks b'\r') ts
    → string_to_strings (strings_to_string ts []) [] ≡ (true, ts)
string_to_strings_inverse ts hq hb hr =
    string_to_strings-strings_to_string ts (readable ts hb hr)
    ∙ ap (λ w. (true, w)) (map-read_back ts hq)
  where
    readable : (us : List Bytes) → All (Lacks b'\\') us → All (Lacks b'\r') us → All IsReadable us
    readable [] _ _ = tt
    readable (u ∷ us) (b, bs) (r, rs) =
        (record { quoted = λ _. b; plain = λ _. r }, readable us bs rs)
