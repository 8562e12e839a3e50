-- ===== src/Text/Decimal.antt =====
-- Numbers as text: `ulltodecstr` and `lltodecstr` of libupnpp/smallut.cpp, `SoapHelp::i2s` of
-- libupnpp/soaphelp.cxx, `upnpduration` and `upnpdurationtos` of libupnpp/upnpavutils.cxx, with the
-- parts of `atoi`, `sscanf` and `sprintf` that they use. The digits are written into a buffer of 30
-- bytes from its end: the loop counts the free slots, and `none` is a write below the buffer. A
-- negated `INT64_MIN` overflows and is `none` too.
pub mod Digits
pub mod Print
pub mod Duration
use libupnpp.Prelude.Int.{ℤ, ◌+ℤ◌, scale}
use libupnpp.Prelude.{
  ℕ, zero, suc, ◌+◌, ◌-◌, ◌*◌, ◌/◌, ◌%◌, ◌^◌, Bool, true, false, [], ◌∷◌, ◌++◌, Option, none, some,
  Bytes, codes, ◌==◌, if◌then◌else◌, one_of, leb, ltb, ◌&&◌, ◌||◌,
}

-- The do-while loop: the free slots, the value, what is written; the result has the slots left.
pub digits_loop : ℕ → ℕ → Bytes → Option (Bytes × ℕ)
digits_loop zero val out = none
digits_loop (suc slots) val out =
    let out' = (b'0' + val % 10) ∷ out in
    let rest = digits_loop slots (val / 10) out' in
    if val / 10 == 0 then some (out', slots) else rest

-- The slots of `rbuf[30]` before the terminating zero.
abbrev rbuf_slots : ℕ
rbuf_slots = 29

abbrev text_of : Option (Bytes × ℕ) → Option Bytes
text_of none = none
text_of (some (out, slots)) = some out

unfoldable pub ulltodecstr : ℕ → Option Bytes
unfolding digits_loop
ulltodecstr val = if val == 0 then some (codes "0") else text_of (digits_loop rbuf_slots val [])

-- `rbuf[idx--] = '-'`
minus_sign : Option (Bytes × ℕ) → Option Bytes
minus_sign none = none
minus_sign (some (out, zero)) = none
minus_sign (some (out, suc slots)) = some (b'-' ∷ out)

abbrev int64_min : ℕ
int64_min = 2 ^ 63

unfoldable pub lltodecstr : ℤ → Option Bytes
unfolding digits_loop minus_sign
lltodecstr (ℤ.pos val) =
    if val == 0 then some (codes "0") else text_of (digits_loop rbuf_slots val [])
lltodecstr (ℤ.negsuc n) =
    if n + 1 == int64_min then none else minus_sign (digits_loop rbuf_slots (n + 1) [])

unfoldable pub i2s : ℤ → Option Bytes
unfolding lltodecstr
i2s val = lltodecstr val

is_digit : ℕ → Bool
is_digit c = leb b'0' c && leb c b'9'

-- Reads digits behind the number `n`: the number and the text behind it.
pub scan_digits : ℕ → Bytes → ℕ × Bytes
unfolding is_digit
scan_digits n [] = (n, [])
scan_digits n (c ∷ s) =
    let more = scan_digits (n * 10 + (c - b'0')) s in if is_digit c then more else (n, c ∷ s)

-- At least one digit.
pub scan_number : Bytes → Option (ℕ × Bytes)
unfolding scan_digits
scan_number [] = none
scan_number (c ∷ s) = if is_digit c then some (scan_digits 0 (c ∷ s)) else none

abbrev negate : ℕ → ℤ
negate zero = ℤ.pos 0
negate (suc n) = ℤ.negsuc n

signed : Option (ℕ × Bytes) → Option (ℤ × Bytes)
signed none = none
signed (some (n, rest)) = some (ℤ.pos n, rest)

minus : Option (ℕ × Bytes) → Option (ℤ × Bytes)
minus none = none
minus (some (n, rest)) = some (negate n, rest)

-- The conversion `%d`: white space, a sign, digits.
pub scan_int : Bytes → Option (ℤ × Bytes)
unfolding scan_number signed minus
scan_int [] = none
scan_int (c ∷ s) =
    let skipped = scan_int s in
    if one_of (codes " \t\n\r") c || c == 11 || c == 12
    then skipped
    else if c == b'-'
    then minus (scan_number s)
    else if c == b'+'
    then signed (scan_number s)
    else signed (scan_number (c ∷ s))

number_or_zero : Option (ℤ × Bytes) → ℤ
number_or_zero none = ℤ.pos 0
number_or_zero (some (z, rest)) = z

unfoldable pub atoi : Bytes → ℤ
unfolding scan_int number_or_zero
atoi s = number_or_zero (scan_int s)

-- `%d` of a number that is not negative: its digits.
print_d : ℕ → Bytes
unfolding ulltodecstr
print_d n = elim (ulltodecstr n) [ none ↦ [] | some s ↦ s ]

-- `%02d`
print_02d : ℕ → Bytes
unfolding print_d
print_02d n = if ltb n 10 then b'0' ∷ print_d n else print_d n

-- The same of a number, or of the negation of one if the flag says so.
signed_d : Bool → ℕ → Bytes
unfolding print_d
signed_d false n = print_d n
signed_d true zero = print_d 0
signed_d true (suc n) = b'-' ∷ print_d (suc n)

signed_02d : Bool → ℕ → Bytes
unfolding print_d print_02d
signed_02d false n = print_02d n
signed_02d true zero = print_02d 0
signed_02d true (suc n) = b'-' ∷ print_d (suc n)

-- The fields of a duration, whose divisions round towards zero: all have its sign.
duration_fields : Bool → ℕ → Bytes
unfolding signed_d signed_02d
duration_fields below ms =
    let hours = ms / (3600 * 1000) in
    let ms1 = ms - hours * 3600 * 1000 in
    let minutes = ms1 / (60 * 1000) in
    let ms2 = ms1 - minutes * 60 * 1000 in
    let secs = ms2 / 1000 in
    signed_d below hours ++ (b':' ∷ (signed_02d below minutes ++ (b':' ∷ signed_02d below secs)))

unfoldable pub upnpduration : ℤ → Bytes
unfolding duration_fields
upnpduration (ℤ.pos ms) = duration_fields false ms
upnpduration (ℤ.negsuc n) = duration_fields true (suc n)

next_number : ℤ → Option (ℤ × Bytes) → Option (ℤ × (ℤ × Bytes))
next_number z none = none
next_number z (some r) = some (z, r)

-- `:` and a number; `none` where the conversion fails.
scan_colon : Option (ℤ × Bytes) → Option (ℤ × (ℤ × Bytes))
unfolding next_number
scan_colon none = none
scan_colon (some (z, [])) = none
scan_colon (some (z, c ∷ s)) = if c == b':' then next_number z (scan_int s) else none

third_number : ℤ → Option (ℤ × (ℤ × Bytes)) → Option (ℤ × (ℤ × ℤ))
third_number h none = none
third_number h (some (m, (z, rest))) = some (h, (m, z))

second_number : Option (ℤ × (ℤ × Bytes)) → Option (ℤ × (ℤ × ℤ))
unfolding third_number scan_colon
second_number none = none
second_number (some (h, r)) = third_number h (scan_colon (some r))

-- The three numbers of `%d:%d:%d`.
scan_three : Bytes → Option (ℤ × (ℤ × ℤ))
unfolding scan_colon second_number
scan_three s = second_number (scan_colon (scan_int s))

seconds_of : Option (ℤ × (ℤ × ℤ)) → ℤ
seconds_of none = ℤ.pos 0
seconds_of (some (h, (m, z))) = scale 3600 h +ℤ scale 60 m +ℤ z

unfoldable pub upnpdurationtos : Bytes → ℤ
unfolding scan_three seconds_of
upnpdurationtos dur = seconds_of (scan_three dur)
