-- ===== src/Text/Ranges/Total.antt =====
-- The ranges of a request are always read to an end.
use libupnpp.Prelude.{
  ℕ, zero, suc, ◌+◌, ◌<◌, Bool, ◌&&◌, List, [], ◌∷◌, ◌++◌, ◌≡◌, refl, ap, Option, none, some, Bytes,
  codes, from, length, drop, length-from-le, length-drop, arith, Bool-cases, inl, inr,
}
use libupnpp.Prelude.Int.{ℤ}
use libupnpp.Text.Tokens.{find_sep}
use libupnpp.Text.Ranges.{
  is_dash, is_comma, is_missing, range_of, add_range, turn, ranges_loop, from_bytes,
  parse_http_ranges,
}

abbrev IsDone : Option (Bool × List (ℤ × ℤ)) → Type 0
IsDone none = ⊥
IsDone (some r) = Unit

add_range-IsDone :
    (loop : Bytes → List (ℤ × ℤ) → Option (Bool × List (ℤ × ℤ))) (r : ℤ × ℤ) (behind : Bytes)
    (out : List (ℤ × ℤ))
    → ((c : ℕ) (next : Bytes) (o : List (ℤ × ℤ)) → behind ≡ c ∷ next → IsDone (loop next o))
    → IsDone (add_range loop r behind out)
add_range-IsDone loop r [] out h = elim (Bool-cases (is_missing r.0 && is_missing r.1)) [
  | inl e ↦ rw e tt
  | inr e ↦ rw e tt
]
add_range-IsDone loop r (c ∷ next) out h = elim (Bool-cases (is_missing r.0 && is_missing r.1)) [
  | inl e ↦ rw e tt
  | inr e ↦ rw e (h c next (out ++ r ∷ []) refl)
]

turn-IsDone :
    (loop : Bytes → List (ℤ × ℤ) → Option (Bool × List (ℤ × ℤ))) (rest : Bytes) (out : List (ℤ × ℤ))
    (found : Bytes)
    → ((c : ℕ) (next : Bytes) (o : List (ℤ × ℤ))
        → from is_comma rest ≡ c ∷ next
        → IsDone (loop next o))
    → IsDone (turn loop rest out found)
turn-IsDone loop rest out [] h = tt
turn-IsDone loop rest out (d ∷ after) h =
    add_range-IsDone loop (range_of rest after) (from is_comma rest) out h

ranges_loop-IsDone :
    (fuel : ℕ) (rest : Bytes) (out : List (ℤ × ℤ))
    → length rest < fuel
    → IsDone (ranges_loop fuel rest out)
unfolding ranges_loop
ranges_loop-IsDone zero rest out h = absurd (omega (arith, h))
ranges_loop-IsDone (suc fuel) rest out h =
    turn-IsDone (ranges_loop fuel) rest out (from is_dash rest) (λ c next o f.
      ranges_loop-IsDone fuel next o (omega (arith, h, ap length f, length-from-le is_comma rest)))

IsDone-some :
    (o : Option (Bool × List (ℤ × ℤ))) → IsDone o → (r : Bool × List (ℤ × ℤ)) × (o ≡ some r)
IsDone-some none h = elim h [ ]
IsDone-some (some r) h = (r, refl)

from_bytes-IsDone : (ranges : Bytes) (found : Option Bytes) → IsDone (from_bytes ranges found)
unfolding from_bytes
from_bytes-IsDone ranges none = tt
from_bytes-IsDone ranges (some before) =
    ranges_loop-IsDone (suc (length ranges)) (drop (length before + 6) ranges) []
      (omega (arith, length-drop (length before + 6) ranges))

-- Every text is read to an end, with a verdict and the ranges: the fuel of one more than its length is
-- enough.
pub parse_http_ranges-total :
    (ranges : Bytes) → (r : Bool × List (ℤ × ℤ)) × (parse_http_ranges ranges ≡ some r)
unfolding parse_http_ranges
parse_http_ranges-total ranges =
    IsDone-some (parse_http_ranges ranges)
      (from_bytes-IsDone ranges (find_sep (codes "bytes=") ranges))
