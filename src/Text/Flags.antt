-- ===== src/Text/Flags.antt =====
-- libupnpp/smallut.cpp: `flagsToString`, `valToString`, `stringToBool` and the substitution by a map. The
-- hexadecimal digits of a number, which the C library prints, are an argument.
use libupnpp.Prelude.{
  ℕ, ◌==◌, Bool, true, false, not, ◌&&◌, List, [], ◌∷◌, ◌++◌, if◌then◌else◌, bit_and, leb, Bytes,
  codes, one_of,
}
use libupnpp.Prelude.Int.{ℤ, pos, negsuc}
use libupnpp.Text.Decimal.{atoi}

-- `CharFlags`; a name that is a null pointer is empty.
pub record CharFlags : Type 0 where
  pub value : ℕ
  pub yesname : Bytes
  pub noname : Bytes

abbrev pub write_flag : Bytes → Bytes → Bytes
write_flag out [] = out
write_flag [] (c ∷ s) = c ∷ s
write_flag (d ∷ out) (c ∷ s) = (d ∷ out) ++ codes "|" ++ c ∷ s

abbrev pub flags_loop : List CharFlags → ℕ → Bytes → Bytes
flags_loop [] val out = out
flags_loop (f ∷ flags) val out =
    flags_loop flags val
      (write_flag out (if bit_and val f.value == f.value then f.yesname else f.noname))

unfoldable pub flags_to_string : List CharFlags → ℕ → Bytes
flags_to_string flags val = flags_loop flags val []

unfoldable pub val_to_string : (ℕ → Bytes) → List CharFlags → ℕ → Bytes
val_to_string hex [] val = codes "Unknown Value 0x" ++ hex val
val_to_string hex (f ∷ flags) val =
    if f.value == val then f.yesname else val_to_string hex flags val

abbrev pub is_digit : ℕ → Bool
is_digit c = leb b'0' c && leb c b'9'

abbrev pub is_nonzero : ℤ → Bool
is_nonzero (pos n) = not (n == 0)
is_nonzero (negsuc n) = true

-- `stringToBool`, which differs from the one for events.
unfoldable pub string_to_bool : Bytes → Bool
unfolding atoi
string_to_bool [] = false
string_to_bool (c ∷ s) = if is_digit c then is_nonzero (atoi (c ∷ s)) else one_of (codes "yYtT") c
