-- ===== src/Text/Ranges.antt =====
-- libupnpp/smallut.cpp, `parseHTTPRanges`: the ranges of bytes of a request. A bound that is missing is
-- -1. `none` is out of fuel.
pub mod Total
use libupnpp.Prelude.{
  ℕ, zero, suc, ◌+◌, ◌==◌, Bool, true, false, ◌&&◌, List, [], ◌∷◌, ◌++◌, Option, none, some,
  if◌then◌else◌, Bytes, codes, until, from, length, drop,
}
use libupnpp.Prelude.Int.{ℤ, pos, negsuc}
use libupnpp.Text.Decimal.{atoi}
use libupnpp.Text.Tokens.{find_sep}
use libupnpp.Text.Trim.{trimstring}

abbrev pub is_dash : ℕ → Bool
is_dash c = c == b'-'

abbrev pub is_comma : ℕ → Bool
is_comma c = c == b','

abbrev pub bound : Bytes → ℤ
unfolding atoi
bound [] = negsuc 0
bound (c ∷ s) = atoi (c ∷ s)

abbrev pub bound_of : Bytes → ℤ
unfolding bound trimstring
bound_of s = bound (trimstring s (codes " \t"))

abbrev pub is_missing : ℤ → Bool
is_missing (pos n) = false
is_missing (negsuc n) = n == 0

-- The second part: up to the comma, or to the end of the text if the comma stands before the dash, since
-- the length then wraps around.
abbrev pub second_part : Bytes → Bytes → Bytes
second_part [] after = until is_comma after
second_part (c ∷ s) after = after

abbrev pub range_of : Bytes → Bytes → ℤ × ℤ
unfolding bound_of until from
range_of rest after = (
  bound_of (until is_dash rest),
  bound_of (second_part (from is_comma (until is_dash rest)) after),
)

-- One turn of the loop: the range is added, and what is behind the comma comes next.
abbrev pub add_range :
    (Bytes → List (ℤ × ℤ) → Option (Bool × List (ℤ × ℤ)))
    → ℤ × ℤ
    → Bytes
    → List (ℤ × ℤ)
    → Option (Bool × List (ℤ × ℤ))
add_range loop r behind out =
    if is_missing r.0 && is_missing r.1
    then some (false, out)
    else (elim behind [ [] ↦ some (true, out ++ r ∷ []) | c ∷ next ↦ loop next (out ++ r ∷ []) ])

-- The rest of a turn, from the dash that was found.
abbrev pub turn :
    (Bytes → List (ℤ × ℤ) → Option (Bool × List (ℤ × ℤ)))
    → Bytes
    → List (ℤ × ℤ)
    → Bytes
    → Option (Bool × List (ℤ × ℤ))
turn loop rest out [] = some (false, out)
turn loop rest out (d ∷ after) = add_range loop (range_of rest after) (from is_comma rest) out

unfoldable pub ranges_loop : ℕ → Bytes → List (ℤ × ℤ) → Option (Bool × List (ℤ × ℤ))
unfolding range_of from
ranges_loop zero rest out = none
ranges_loop (suc fuel) rest out = turn (ranges_loop fuel) rest out (from is_dash rest)

abbrev pub from_bytes : Bytes → Option Bytes → Option (Bool × List (ℤ × ℤ))
unfolding ranges_loop
from_bytes ranges none = some (false, [])
from_bytes ranges (some before) =
    ranges_loop (suc (length ranges)) (drop (length before + 6) ranges) []

unfoldable pub parse_http_ranges : Bytes → Option (Bool × List (ℤ × ℤ))
unfolding from_bytes find_sep
parse_http_ranges ranges = from_bytes ranges (find_sep (codes "bytes=") ranges)
