-- ===== src/Text/Tokens/Words.antt =====
-- `stringToTokens` against a reading of the text by characters.
use mathlib.Core.List.{concat-ne-nil}
use libupnpp.Prelude.{
  ℕ, zero, suc, Bool, true, false, not, List, [], ◌∷◌, ◌++◌, some, Bytes, one_of, until, from,
  Avoids, if◌then◌else◌, ◌||◌, length, ◌<◌, ◌≡◌, ◌≢◌, refl, sym, ap, ◌∙◌, arith, append_assoc,
  append-nil, Bool-cases, subst, until_all, List-cases, append-ne-nil, All-until, from_head,
  until-append_from, length-from-le, inl, inr,
}
use libupnpp.Text.Tokens.{is_nil, tokens_loop, string_to_tokens}

-- A token is kept unless it is empty.
abbrev pub flush : Bytes → List Bytes
flush [] = []
flush (c ∷ s) = (c ∷ s) ∷ []

-- The runs of characters that are no delimiters, the last argument being the run that is read.
abbrev pub words : Bytes → Bytes → Bytes → List Bytes
words delims [] cur = flush cur
words delims (c ∷ s) cur =
    if one_of delims c then flush cur ++ words delims s [] else words delims s (cur ++ c ∷ [])

-- The texts between delimiters, empty ones too; at the very end an empty one is not counted.
abbrev pub fields : Bytes → Bytes → Bytes → List Bytes
fields delims [] cur = flush cur
fields delims (c ∷ s) cur =
    if one_of delims c then cur ∷ fields delims s [] else fields delims s (cur ++ c ∷ [])

module _ (delims : Bytes) where
  words-append :
      (u r cur : Bytes) → Avoids delims u → words delims (u ++ r) cur ≡ words delims r (cur ++ u)
  words-append [] r cur h = rw append-nil
  words-append (c ∷ u) r cur (hc, h) =
      rw (hc, words-append u r (cur ++ c ∷ []) h, append_assoc) refl

  fields-append :
      (u r cur : Bytes) → Avoids delims u → fields delims (u ++ r) cur ≡ fields delims r (cur ++ u)
  fields-append [] r cur h = rw append-nil
  fields-append (c ∷ u) r cur (hc, h) =
      rw (hc, fields-append u r (cur ++ c ∷ []) h, append_assoc) refl

  words_all : (c : ℕ) (s : Bytes) → Avoids delims (c ∷ s) → words delims (c ∷ s) [] ≡ (c ∷ s) ∷ []
  words_all c s h =
      ap (λ t. words delims t []) (sym (append-nil (c ∷ s))) ∙ words-append (c ∷ s) [] [] h

  fields_all : (c : ℕ) (s : Bytes) → Avoids delims (c ∷ s) → fields delims (c ∷ s) [] ≡ (c ∷ s) ∷ []
  fields_all c s h =
      ap (λ t. fields delims t []) (sym (append-nil (c ∷ s))) ∙ fields-append (c ∷ s) [] [] h

  -- The text up to the next delimiter is one run.
  words_next :
      (s : Bytes) {d : ℕ} {r : Bytes}
      → from (one_of delims) s ≡ d ∷ r
      → words delims s [] ≡ flush (until (one_of delims) s) ++ words delims r []
  words_next s {d} {r} e =
      ap (λ t. words delims t []) (until-append_from (one_of delims) s e)
      ∙ words-append (until (one_of delims) s) (d ∷ r) [] (All-until (one_of delims) s)
      ∙ rw (from_head (one_of delims) s e) refl

  fields_next :
      (s : Bytes) {d : ℕ} {r : Bytes}
      → from (one_of delims) s ≡ d ∷ r
      → fields delims s [] ≡ until (one_of delims) s ∷ fields delims r []
  fields_next s {d} {r} e =
      ap (λ t. fields delims t []) (until-append_from (one_of delims) s e)
      ∙ fields-append (until (one_of delims) s) (d ∷ r) [] (All-until (one_of delims) s)
      ∙ rw (from_head (one_of delims) s e) refl

  tail_fits :
      (s : Bytes) (f : ℕ) {d : ℕ} {r : Bytes}
      → length s < suc f
      → from (one_of delims) s ≡ d ∷ r
      → length r < f
  tail_fits s f {d} {r} h e =
      let k : length (d ∷ r) ≡ length (from (one_of delims) s) = ap length (sym e) in
      omega (arith, length-from-le (one_of delims) s)

  -- What a round adds, empty tokens being left out behind the first token.
  append_flush :
      (tokens : List Bytes) (u : Bytes)
      → tokens ≢ []
      → (if is_nil u
          then (if false || is_nil tokens then tokens ++ [] ∷ [] else tokens)
          else tokens ++ u ∷ [])
        ≡ tokens ++ flush u
  append_flush [] u h = absurd (h refl)
  append_flush (t ∷ ts) [] h = sym (append-nil (t ∷ ts))
  append_flush (t ∷ ts) (c ∷ u) h = refl

  append_fields :
      (tokens : List Bytes) (u : Bytes)
      → (if is_nil u
          then (if true || is_nil tokens then tokens ++ [] ∷ [] else tokens)
          else tokens ++ u ∷ [])
        ≡ tokens ++ u ∷ []
  append_fields tokens [] = refl
  append_fields tokens (c ∷ u) = refl

  -- The last round, and any other.
  loop_last :
      (f c : ℕ) (s : Bytes) (b : Bool) (tokens : List Bytes)
      → from (one_of delims) (c ∷ s) ≡ []
      → tokens_loop (suc f) delims b (c ∷ s) tokens ≡ some (tokens ++ (c ∷ s) ∷ [])
  unfolding tokens_loop
  loop_last f c s b tokens e = rw (e, tokens_loop)

  loop_next :
      (f c : ℕ) (s : Bytes) (b : Bool) (tokens : List Bytes) {d : ℕ} {r : Bytes}
      → from (one_of delims) (c ∷ s) ≡ d ∷ r
      → tokens_loop (suc f) delims b (c ∷ s) tokens
        ≡ tokens_loop f delims b r (
            if is_nil (until (one_of delims) (c ∷ s))
            then (if b || is_nil tokens then tokens ++ [] ∷ [] else tokens)
            else tokens ++ until (one_of delims) (c ∷ s) ∷ [])
  unfolding tokens_loop
  loop_next f c s b tokens e = rw (e, tokens_loop)

  Avoids-all : (s : Bytes) → from (one_of delims) s ≡ [] → Avoids delims s
  Avoids-all s e =
      subst (Avoids delims) (until_all (one_of delims) s e) (All-until (one_of delims) s)

  loop-words :
      (f : ℕ) (rest : Bytes) (tokens : List Bytes)
      → length rest < f
      → tokens ≢ []
      → tokens_loop f delims false rest tokens ≡ some (tokens ++ words delims rest [])
  loop-words zero rest tokens h k = absurd (omega arith)
  loop-words (suc f) [] tokens h k = unfold tokens_loop in rw append-nil
  loop-words (suc f) (c ∷ s) tokens h k = elim (List-cases (from (one_of delims) (c ∷ s))) [
    | inl e ↦
        loop_last f c s false tokens e
        ∙ ap (λ w. some (tokens ++ w)) (sym (words_all c s (Avoids-all (c ∷ s) e)))
    | inr (d, r, e) ↦
        loop_next f c s false tokens e
        ∙ rw (append_flush tokens (until (one_of delims) (c ∷ s)) k, words_next (c ∷ s) e)
            (loop-words f r (tokens ++ flush (until (one_of delims) (c ∷ s)))
                (tail_fits (c ∷ s) f h e) (append-ne-nil tokens _ k)
              ∙ ap some
                  (append_assoc tokens (flush (until (one_of delims) (c ∷ s))) (words delims r [])))
  ]

  loop-fields :
      (f : ℕ) (rest : Bytes) (tokens : List Bytes)
      → length rest < f
      → tokens_loop f delims true rest tokens ≡ some (tokens ++ fields delims rest [])
  loop-fields zero rest tokens h = absurd (omega arith)
  loop-fields (suc f) [] tokens h = unfold tokens_loop in rw append-nil
  loop-fields (suc f) (c ∷ s) tokens h = elim (List-cases (from (one_of delims) (c ∷ s))) [
    | inl e ↦
        loop_last f c s true tokens e
        ∙ ap (λ w. some (tokens ++ w)) (sym (fields_all c s (Avoids-all (c ∷ s) e)))
    | inr (d, r, e) ↦
        loop_next f c s true tokens e
        ∙ rw (append_fields tokens (until (one_of delims) (c ∷ s)), fields_next (c ∷ s) e)
            (loop-fields f r (tokens ++ until (one_of delims) (c ∷ s) ∷ [])
                (tail_fits (c ∷ s) f h e)
              ∙ ap some
                  (append_assoc tokens (until (one_of delims) (c ∷ s) ∷ []) (fields delims r [])))
  ]

  -- Delimiters at the start add no word.
  words_skip :
      (s : Bytes) → words delims (from (λ c. not (one_of delims c)) s) [] ≡ words delims s []
  unfolding from
  words_skip [] = refl
  words_skip (c ∷ s) = elim (Bool-cases (one_of delims c)) [
    | inl e ↦ rw e (words_skip s)
    | inr e ↦ rw (e, e) refl
  ]

  -- The first round without a delimiter at the start.
  loop_first :
      (f c : ℕ) (s : Bytes) (tokens : List Bytes)
      → length (c ∷ s) < f
      → one_of delims c ≡ false
      → tokens_loop f delims false (c ∷ s) tokens ≡ some (tokens ++ words delims (c ∷ s) [])
  loop_first zero c s tokens h k = absurd (omega arith)
  loop_first (suc f) c s tokens h k = elim (List-cases (from (one_of delims) (c ∷ s))) [
    | inl e ↦
        loop_last f c s false tokens e
        ∙ ap (λ w. some (tokens ++ w)) (sym (words_all c s (Avoids-all (c ∷ s) e)))
    | inr (d, r, e) ↦
        let u : until (one_of delims) (c ∷ s) ≡ c ∷ until (one_of delims) s =
          unfold until in rw k refl in
        loop_next f c s false tokens e
        ∙ rw (u, words_next (c ∷ s) e, u)
            (loop-words f r (tokens ++ (c ∷ until (one_of delims) s) ∷ []) (tail_fits (c ∷ s) f h e)
                (concat-ne-nil _ tokens)
              ∙ ap some
                  (append_assoc tokens ((c ∷ until (one_of delims) s) ∷ []) (words delims r [])))
  ]

-- As it is called by default, the function adds the runs of characters that are no delimiters, in
-- their order and none empty, to the tokens that it was given.
pub string_to_tokens-words :
    (s delims : Bytes) (tokens : List Bytes)
    → string_to_tokens s tokens delims true false ≡ some (tokens ++ words delims s [])
unfolding string_to_tokens
string_to_tokens-words s delims tokens = elim (List-cases start) [
  | inl e ↦ rw (e, ← words_skip delims s, e) (sym (ap some (append-nil tokens)))
  | inr (c, r, e) ↦
      rw (e, ← words_skip delims s, e)
        (loop_first delims (suc (length s)) c r tokens (short e) (no_delim e))
]
  where
    start : Bytes
    start = from (λ c. not (one_of delims c)) s

    short : {c : ℕ} {r : Bytes} → start ≡ c ∷ r → length (c ∷ r) < suc (length s)
    short {c} {r} e =
        let k : length (c ∷ r) ≡ length start = ap length (sym e) in
        omega (arith, length-from-le (λ c. not (one_of delims c)) s)

    no_delim : {c : ℕ} {r : Bytes} → start ≡ c ∷ r → one_of delims c ≡ false
    no_delim {c} e = ground (arith, from_head (λ c. not (one_of delims c)) s e)

-- With empty tokens allowed and nothing skipped, the text between any two delimiters is added, empty
-- or not; only behind a delimiter at the very end none is.
pub string_to_tokens-fields :
    (s delims : Bytes) (tokens : List Bytes)
    → string_to_tokens s tokens delims false true ≡ some (tokens ++ fields delims s [])
unfolding string_to_tokens
string_to_tokens-fields s delims tokens = loop-fields delims (suc (length s)) s tokens (omega arith)
