-- ===== src/Text/Trim.antt =====
-- libupnpp/smallut.cpp: `trimstring`, `rtrimstring`, `ltrimstring`, `neutchars`, `beginswith` and
-- `endswith`. `find_last_not_of` is a search from the end, so the text is searched reversed.
pub mod Laws
use mathlib.Core.List.{reverse}
use libupnpp.Prelude.{
  ℕ, zero, suc, ◌-◌, Bool, true, false, not, [], ◌∷◌, ◌++◌, Option, none, some, Bytes, one_of,
  until, from, if◌then◌else◌, length, drop, take, leb, beq,
}

-- From the last character that is not in the set back; an empty result clears the string.
unfoldable pub rtrimstring : Bytes → Bytes → Bytes
rtrimstring s ws = reverse (from (λ c. not (one_of ws c)) (reverse s))

-- `s.erase(0, pos)`
unfoldable pub ltrimstring : Bytes → Bytes → Bytes
ltrimstring s ws = from (λ c. not (one_of ws c)) s

unfoldable pub trimstring : Bytes → Bytes → Bytes
unfolding rtrimstring ltrimstring
trimstring s ws = ltrimstring (rtrimstring s ws) ws

-- The loop from `pos`; `none` is out of fuel.
neut_loop : ℕ → Bytes → Bytes → ℕ → Bytes → Option Bytes
neut_loop zero rest chars rep out = none
neut_loop (suc fuel) rest chars rep out = elim (from (λ c. not (one_of chars c)) rest) [
  | [] ↦ some out
  | c ∷ s ↦ elim (from (one_of chars) (c ∷ s)) [
    | [] ↦ some (out ++ (c ∷ s))
    | d ∷ after ↦
        neut_loop fuel (d ∷ after) chars rep (out ++ (until (one_of chars) (c ∷ s) ++ rep ∷ []))
  ]
]

-- Runs of the characters become one `rep`, and none stands at the start.
unfoldable pub neutchars : Bytes → Bytes → ℕ → Option Bytes
unfolding neut_loop
neutchars str chars rep = neut_loop (suc (length str)) str chars rep []

-- `bg.compare(0, sml.size(), sml) == 0`
unfoldable pub beginswith : Bytes → Bytes → Bool
beginswith bg sml = beq (take (length sml) bg) sml

unfoldable pub endswith : Bytes → Bytes → Bool
endswith bg sml =
    if leb (length sml) (length bg) then beq (drop (length bg - length sml) bg) sml else false
