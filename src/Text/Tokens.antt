-- ===== src/Text/Tokens.antt =====
-- libupnpp/smallut.cpp, `stringToTokens` and `stringSplitString`. A position in the text is given by
-- the text from it. The loops run on fuel, `none` being out of fuel; the text's length is enough.
pub mod Words
pub mod Split
use libupnpp.Prelude.{
  ℕ, zero, suc, Bool, true, false, not, List, [], ◌∷◌, ◌++◌, Option, none, some, Bytes, one_of,
  until, from, if◌then◌else◌, ◌||◌, ◌&&◌, ◌==◌, ◌+◌, length, drop,
}

abbrev is_nil {ℓ} : {A : Type ℓ} → List A → Bool
is_nil [] = true
is_nil (x ∷ xs) = false

-- The loop from `startPos`: the next delimiter, the token before it, and on behind it.
tokens_loop : ℕ → Bytes → Bool → Bytes → List Bytes → Option (List Bytes)
tokens_loop zero delims allowempty rest tokens = none
tokens_loop (suc fuel) delims allowempty [] tokens = some tokens
tokens_loop (suc fuel) delims allowempty (c ∷ s) tokens = elim (from (one_of delims) (c ∷ s)) [
  | [] ↦ some (tokens ++ (c ∷ s) ∷ [])
  | d ∷ after ↦ tokens_loop fuel delims allowempty after (
      if is_nil (until (one_of delims) (c ∷ s))
      then (if allowempty || is_nil tokens then tokens ++ [] ∷ [] else tokens)
      else tokens ++ until (one_of delims) (c ∷ s) ∷ [])
]

-- Initial delimiters are skipped on request; nothing is added if that eats all.
unfoldable pub string_to_tokens : Bytes → List Bytes → Bytes → Bool → Bool → Option (List Bytes)
unfolding tokens_loop
string_to_tokens str tokens delims skipinit allowempty =
    let start = if skipinit then from (λ c. not (one_of delims c)) str else str in
    if skipinit && is_nil start
    then some tokens
    else tokens_loop (suc (length str)) delims allowempty start tokens

-- `str.compare(0, sep.size(), sep) == 0`
pub is_at : Bytes → Bytes → Bool
is_at [] s = true
is_at (x ∷ xs) [] = false
is_at (x ∷ xs) (c ∷ s) = x == c && is_at xs s

-- `str.find(sep)`: the text before the first occurrence, if there is one.
unfoldable pub find_sep : Bytes → Bytes → Option Bytes
unfolding is_at
find_sep sep [] = if is_nil sep then some [] else none
find_sep sep (c ∷ s) =
    let next = find_sep sep s in
    if is_at sep (c ∷ s) then some [] else elim next [ none ↦ none | some u ↦ some (c ∷ u) ]

split_loop : ℕ → Bytes → Bytes → List Bytes → Option (List Bytes)
unfolding find_sep
split_loop zero sep rest tokens = none
split_loop (suc fuel) sep [] tokens = some tokens
split_loop (suc fuel) sep (c ∷ s) tokens = elim (find_sep sep (c ∷ s)) [
  | none ↦ some (tokens ++ (c ∷ s) ∷ [])
  | some u ↦ split_loop fuel sep (drop (length u + length sep) (c ∷ s)) (tokens ++ u ∷ [])
]

unfoldable pub string_split_string : Bytes → List Bytes → Bytes → Option (List Bytes)
unfolding split_loop
string_split_string str tokens sep =
    if is_nil str || is_nil sep then some tokens else split_loop (suc (length str)) sep str tokens
