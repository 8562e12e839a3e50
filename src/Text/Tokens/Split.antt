-- ===== src/Text/Tokens/Split.antt =====
-- `stringSplitString`: the tokens spell the text.
use native.Mathlib.Nat.{zero-add, suc-add}
use libupnpp.Prelude.{
  ℕ, zero, suc, true, List, [], ◌∷◌, ◌++◌, none, some, Bytes, ◌+◌, length, drop, ◌<◌, ◌≡◌, ◌≢◌,
  refl, sym, ap, ◌∙◌, arith, append_assoc, append-nil, Bool-cases, Option-cases, inl, inr, ◌⊎◌,
  length-drop,
}
use libupnpp.Text.Tokens.{is_at, find_sep, split_loop, string_split_string}

-- Each token with a separator behind it.
abbrev pub terminated : Bytes → List Bytes → Bytes
terminated sep [] = []
terminated sep (t ∷ ts) = t ++ (sep ++ terminated sep ts)

terminated-append :
    (sep : Bytes) (ts us : List Bytes)
    → terminated sep (ts ++ us) ≡ terminated sep ts ++ terminated sep us
terminated-append sep [] us = refl
terminated-append sep (t ∷ ts) us = simp (terminated-append sep ts us, append_assoc)

length_pos : (s : Bytes) → s ≢ [] → 0 < length s
length_pos [] h = absurd (h refl)
length_pos (c ∷ s) h = omega arith

is_at_sound : (sep s : Bytes) → is_at sep s ≡ true → s ≡ sep ++ drop (length sep) s
unfolding is_at
is_at_sound [] s h = refl
is_at_sound (x ∷ xs) [] h = cc
is_at_sound (x ∷ xs) (c ∷ s) h = ground (arith, is_at_sound xs s)

-- The text behind the first occurrence, and the text before it.
find_sep_sound :
    (sep s u : Bytes)
    → sep ≢ []
    → find_sep sep s ≡ some u
    → s ≡ u ++ (sep ++ drop (length u + length sep) s)
unfolding find_sep
find_sep_sound [] s u n h = absurd (n refl)
find_sep_sound (x ∷ xs) [] u n h = cc
find_sep_sound (x ∷ xs) (c ∷ s) u n h = elim (Bool-cases (is_at (x ∷ xs) (c ∷ s))) [
  | inl at ↦ let e : u ≡ [] = ground arith in rw (e, zero-add) (is_at_sound (x ∷ xs) (c ∷ s) at)
  | inr miss ↦ elim (Option-cases (find_sep (x ∷ xs) s)) [
    | inl none_left ↦ absurd (ground arith)
    | inr (v, found) ↦
        let e : u ≡ c ∷ v = ground arith in
        rw (e, suc-add) (ap (◌∷◌ c) (find_sep_sound (x ∷ xs) s v n found))
  ]
]

split_last :
    (f c : ℕ) (sep s : Bytes) (tokens : List Bytes)
    → find_sep sep (c ∷ s) ≡ none
    → split_loop (suc f) sep (c ∷ s) tokens ≡ some (tokens ++ (c ∷ s) ∷ [])
unfolding split_loop
split_last f c sep s tokens e = rw (e, split_loop)

split_next :
    (f c : ℕ) (sep s : Bytes) (tokens : List Bytes) {u : Bytes}
    → find_sep sep (c ∷ s) ≡ some u
    → split_loop (suc f) sep (c ∷ s) tokens
      ≡ split_loop f sep (drop (length u + length sep) (c ∷ s)) (tokens ++ u ∷ [])
unfolding split_loop
split_next f c sep s tokens e = rw (e, split_loop)

-- The tokens spell the text, with a separator behind each but perhaps the last.
abbrev pub Spells : Bytes → List Bytes → Bytes → Type 0
Spells sep ts s = (terminated sep ts ≡ s) ⊎ (terminated sep ts ≡ s ++ sep)

split_loop-Spells :
    (f : ℕ) (sep rest whole : Bytes) (tokens : List Bytes)
    → sep ≢ []
    → length rest < f
    → whole ≡ terminated sep tokens ++ rest
    → (ts : List Bytes) × (split_loop f sep rest tokens ≡ some ts) × Spells sep ts whole
split_loop-Spells zero sep rest whole tokens n h e = absurd (omega arith)
split_loop-Spells (suc f) sep [] whole tokens n h e =
    (tokens, unfold split_loop in refl, inl (sym (e ∙ append-nil (terminated sep tokens))))
split_loop-Spells (suc f) sep (c ∷ s) whole tokens n h e =
    elim (Option-cases (find_sep sep (c ∷ s))) [
      | inl miss ↦ (tokens ++ (c ∷ s) ∷ [], split_last f c sep s tokens miss, inr (last))
      | inr (u, found) ↦
          let (ts, run, spells) =
            split_loop-Spells f sep (drop (length u + length sep) (c ∷ s)) whole (tokens ++ u ∷ [])
              n (shorter u) (next u found) in
          (ts, split_next f c sep s tokens found ∙ run, spells)
    ]
  where
    last : terminated sep (tokens ++ (c ∷ s) ∷ []) ≡ whole ++ sep
    last = rw (terminated-append sep tokens ((c ∷ s) ∷ []), e, append-nil) (simp append_assoc)

    shorter : (u : Bytes) → length (drop (length u + length sep) (c ∷ s)) < f
    shorter u = omega (arith, length-drop (length u + length sep) (c ∷ s), length_pos sep n)

    next :
        (u : Bytes)
        → find_sep sep (c ∷ s) ≡ some u
        → whole ≡ terminated sep (tokens ++ u ∷ []) ++ drop (length u + length sep) (c ∷ s)
    next u found =
        e
        ∙ ap (◌++◌ (terminated sep tokens)) (find_sep_sound sep (c ∷ s) u n found)
        ∙ rw (terminated-append sep tokens (u ∷ []), append-nil) (simp append_assoc)

-- For a separator that is not empty the loop ends, and the tokens with a separator behind each spell
-- the text, or the text with one more separator if it does not end in one that was found.
pub string_split_string-Spells :
    (s sep : Bytes)
    → sep ≢ []
    → (ts : List Bytes) × (string_split_string s [] sep ≡ some ts) × Spells sep ts s
unfolding string_split_string
string_split_string-Spells s [] n = absurd (n refl)
string_split_string-Spells [] (x ∷ xs) n = ([], refl, inl refl)
string_split_string-Spells (c ∷ s) (x ∷ xs) n =
    split_loop-Spells (suc (length (c ∷ s))) (x ∷ xs) (c ∷ s) (c ∷ s) [] n (omega arith) refl
