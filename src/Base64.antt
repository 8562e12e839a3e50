-- ===== src/Base64.antt =====
-- libupnpp/base64.cxx: `base64_encode` and `base64_decode` (the code under TEST_BASE64 is left out).
-- A char is its byte value. `value << 2` is appended to a string, so it is taken modulo 256. The
-- decoder's loop variables are the record `Decoder`; `out[io]` is read and written by index. What
-- follows the first pad moves only `ch` and `ii`, which nothing reads afterwards. The table has 255
-- entries, so byte 255 is read past its end: the decoder then has no result, `none`. The encoder's length
-- is an `int` and wraps; the decoder's `io` and `ii` are not bounded here, which is right for inputs of
-- less than 2^32 characters with less than 2^31 decoded bytes, such as the encoding of a text below 2^31.
mod Values
mod Cases
mod Bounds
mod Table
pub mod RoundTrip
mod Tests
use libupnpp.Prelude.{
  ℕ, zero, suc, ◌+◌, ◌*◌, ◌/◌, ◌%◌, bit_or, Bool, true, false, List, [], ◌∷◌, ◌++◌, Bytes, codes,
  get_or, get_elem?, Option, none, some, set, take, ◌==◌, if◌then◌else◌, length, ltb, ◌^◌,
}

-- Per byte: its base64 value, 254 for the pad, 255 for white space, 256 for any other.
abbrev b64values : List ℕ
b64values =
    256 ∷ 256 ∷ 256 ∷ 256 ∷ 256 ∷ 256 ∷ 256 ∷ 256 ∷ 256 ∷ 255 ∷ 255 ∷ 255 ∷ 255 ∷ 255 ∷ 256 ∷ 256
    ∷ 256 ∷ 256 ∷ 256 ∷ 256 ∷ 256 ∷ 256 ∷ 256 ∷ 256 ∷ 256 ∷ 256 ∷ 256 ∷ 256 ∷ 256 ∷ 256 ∷ 256 ∷ 256
    ∷ 255 ∷ 256 ∷ 256 ∷ 256 ∷ 256 ∷ 256 ∷ 256 ∷ 256 ∷ 256 ∷ 256 ∷ 256 ∷ 62 ∷ 256 ∷ 256 ∷ 256 ∷ 63
    ∷ 52 ∷ 53 ∷ 54 ∷ 55 ∷ 56 ∷ 57 ∷ 58 ∷ 59 ∷ 60 ∷ 61 ∷ 256 ∷ 256 ∷ 256 ∷ 254 ∷ 256 ∷ 256 ∷ 256 ∷ 0
    ∷ 1 ∷ 2 ∷ 3 ∷ 4 ∷ 5 ∷ 6 ∷ 7 ∷ 8 ∷ 9 ∷ 10 ∷ 11 ∷ 12 ∷ 13 ∷ 14 ∷ 15 ∷ 16 ∷ 17 ∷ 18 ∷ 19 ∷ 20 ∷ 21
    ∷ 22 ∷ 23 ∷ 24 ∷ 25 ∷ 256 ∷ 256 ∷ 256 ∷ 256 ∷ 256 ∷ 256 ∷ 26 ∷ 27 ∷ 28 ∷ 29 ∷ 30 ∷ 31 ∷ 32 ∷ 33
    ∷ 34 ∷ 35 ∷ 36 ∷ 37 ∷ 38 ∷ 39 ∷ 40 ∷ 41 ∷ 42 ∷ 43 ∷ 44 ∷ 45 ∷ 46 ∷ 47 ∷ 48 ∷ 49 ∷ 50 ∷ 51 ∷ 256
    ∷ 256 ∷ 256 ∷ 256 ∷ 256 ∷ 256 ∷ 256 ∷ 256 ∷ 256 ∷ 256 ∷ 256 ∷ 256 ∷ 256 ∷ 256 ∷ 256 ∷ 256 ∷ 256
    ∷ 256 ∷ 256 ∷ 256 ∷ 256 ∷ 256 ∷ 256 ∷ 256 ∷ 256 ∷ 256 ∷ 256 ∷ 256 ∷ 256 ∷ 256 ∷ 256 ∷ 256 ∷ 256
    ∷ 256 ∷ 256 ∷ 256 ∷ 256 ∷ 256 ∷ 256 ∷ 256 ∷ 256 ∷ 256 ∷ 256 ∷ 256 ∷ 256 ∷ 256 ∷ 256 ∷ 256 ∷ 256
    ∷ 256 ∷ 256 ∷ 256 ∷ 256 ∷ 256 ∷ 256 ∷ 256 ∷ 256 ∷ 256 ∷ 256 ∷ 256 ∷ 256 ∷ 256 ∷ 256 ∷ 256 ∷ 256
    ∷ 256 ∷ 256 ∷ 256 ∷ 256 ∷ 256 ∷ 256 ∷ 256 ∷ 256 ∷ 256 ∷ 256 ∷ 256 ∷ 256 ∷ 256 ∷ 256 ∷ 256 ∷ 256
    ∷ 256 ∷ 256 ∷ 256 ∷ 256 ∷ 256 ∷ 256 ∷ 256 ∷ 256 ∷ 256 ∷ 256 ∷ 256 ∷ 256 ∷ 256 ∷ 256 ∷ 256 ∷ 256
    ∷ 256 ∷ 256 ∷ 256 ∷ 256 ∷ 256 ∷ 256 ∷ 256 ∷ 256 ∷ 256 ∷ 256 ∷ 256 ∷ 256 ∷ 256 ∷ 256 ∷ 256 ∷ 256
    ∷ 256 ∷ 256 ∷ 256 ∷ 256 ∷ 256 ∷ 256 ∷ 256 ∷ 256 ∷ 256 ∷ 256 ∷ 256 ∷ 256 ∷ 256 ∷ 256 ∷ 256 ∷ 256
    ∷ 256 ∷ 256 ∷ 256 ∷ []

abbrev alphabet : Bytes
alphabet = codes "ABCDEFGHIJKLMNOPQRSTUVWXYZabcdefghijklmnopqrstuvwxyz0123456789+/"

abbrev pad64 : ℕ
pad64 = b'='

pub data DecodeState : Type 0 where
  first second third fourth : DecodeState

pub record Decoder : Type 0 where
  pub out : Bytes
  pub io : ℕ
  pub state : DecodeState

abbrev pub start : Decoder
start = record { out = []; io = 0; state = DecodeState.first }

-- `out[io] |= v`
or_at : Bytes → ℕ → ℕ → Bytes
or_at out io v = set out io (bit_or (get_or out io 0) v)

-- The switch on the state: a value of six bits is added to the output.
pub put_value : DecodeState → Decoder → ℕ → Decoder
unfolding or_at
put_value DecodeState.first d value = record d {
  out = d.out ++ (value * 4 % 256) ∷ [];
  state = DecodeState.second;
}
put_value DecodeState.second d value = record {
  out = or_at d.out d.io (value / 16) ++ (value % 16 * 16 % 256) ∷ [];
  io = d.io + 1;
  state = DecodeState.third;
}
put_value DecodeState.third d value = record {
  out = or_at d.out d.io (value / 4) ++ (value % 4 * 64 % 256) ∷ [];
  io = d.io + 1;
  state = DecodeState.fourth;
}
put_value DecodeState.fourth d value = record {
  out = or_at d.out d.io value;
  io = d.io + 1;
  state = DecodeState.first;
}

-- How the loop over the input ends.
pub data Scan : Type 0 where
  pad_seen end_seen bad_char : Decoder → Scan
  out_of_table : Scan

pub scan : Bytes → Decoder → Scan
unfolding put_value
scan [] d = Scan.end_seen d
scan (ch ∷ rest) d = elim (get_elem? b64values ch) [
  | none ↦ Scan.out_of_table
  | some value ↦
      let skipped = scan rest d in
      let taken = scan rest (put_value d.state d value) in
      if value == 255
      then skipped
      else if ch == pad64
      then Scan.pad_seen d
      else if value == 256
      then Scan.bad_char d
      else taken
]

-- Behind a pad: an invalid position fails, else the bits past the last full byte are cleared and the
-- byte that was appended for them is cut off.
finish_pad : DecodeState → Decoder → Bool × Bytes
finish_pad DecodeState.first d = (false, d.out)
finish_pad DecodeState.second d = (false, d.out)
finish_pad _ d =
    let cleared = if get_or d.out d.io 0 == 0 then d.out else set d.out d.io 0 in
    (true, take d.io cleared)

-- At the end of the input: no partial byte may be left.
finish_end : DecodeState → Decoder → Bool × Bytes
finish_end DecodeState.first d = (true, d.out)
finish_end _ d = (false, d.out)

finish : Scan → Option (Bool × Bytes)
unfolding finish_pad finish_end
finish (Scan.pad_seen d) = some (finish_pad d.state d)
finish (Scan.end_seen d) = some (finish_end d.state d)
finish (Scan.bad_char d) = some (false, d.out)
finish Scan.out_of_table = none

-- The returned flag and the output string.
unfoldable pub base64_decode : Bytes → Option (Bool × Bytes)
unfolding scan finish
base64_decode input = finish (scan input start)

-- A code of the alphabet.
abbrev code_of : ℕ → ℕ
code_of v = get_or alphabet v 0

-- The encoding of a text, by groups of three bytes.
unfoldable pub encode_groups : Bytes → Bytes
encode_groups [] = []
encode_groups (a ∷ []) = code_of (a / 4) ∷ code_of (a % 4 * 16 + 0 / 16) ∷ pad64 ∷ pad64 ∷ []
encode_groups (a ∷ b ∷ []) =
    code_of (a / 4) ∷ code_of (a % 4 * 16 + b / 16) ∷ code_of (b % 16 * 4 + 0 / 64) ∷ pad64 ∷ []
encode_groups (a ∷ b ∷ c ∷ rest) =
    code_of (a / 4)
    ∷ code_of (a % 4 * 16 + b / 16)
    ∷ code_of (b % 16 * 4 + c / 64)
    ∷ code_of (c % 64)
    ∷ encode_groups rest

-- The length goes into an `int`, so it wraps: if it is not negative then, as many bytes are encoded; else
-- only the end of the function runs, over three zeros.
unfoldable pub base64_encode : Bytes → Bytes
unfolding encode_groups
base64_encode bs =
    let srclength = length bs % 2 ^ 32 in
    if ltb srclength (2 ^ 31) then encode_groups (take srclength bs) else codes "AAA="
