-- ===== src/Base64/RoundTrip.antt =====
-- Decoding undoes encoding.
use libupnpp.Prelude.{
  ℕ, ◌+◌, ◌*◌, ◌/◌, ◌%◌, ◌<◌, ◌≡◌, refl, bit_or, true, [], ◌∷◌, ◌++◌, arith, Bytes, All, length,
  length-append, ap, ◌∙◌, set, take, take-append, get_or-append, set-append, some, append_assoc,
  append-nil, ◌^◌, lt→ltb, take_all,
}
use libupnpp.Base64.{
  pad64, code_of, Decoder, DecodeState, or_at, put_value, Scan, scan, finish, finish_pad,
  base64_decode, encode_groups, base64_encode,
}
use libupnpp.Base64.Values.{value-code, or_low, or_low_4, or_low_6}

abbrev pub IsByte : ℕ → Type 0
IsByte c = c < 256

-- A decoder between two groups of four characters.
abbrev pub at_group : Bytes → Decoder
at_group xs = record { out = xs; io = length xs; state = DecodeState.first }

-- A code of the alphabet is taken.
pub scan-code :
    (v : ℕ) (rest : Bytes) (d : Decoder)
    → v < 64
    → scan (code_of v ∷ rest) d ≡ scan rest (put_value d.state d v)
unfolding scan
scan-code v rest d h = rw ((value-code v h).0, (value-code v h).1) (ground arith)

-- A decoder inside a group: the last byte of the output is not complete.
abbrev partial : Bytes → ℕ → DecodeState → Decoder
partial xs q st = record { out = xs ++ q ∷ []; io = length xs; state = st }

or_at_last : (xs : Bytes) (q v : ℕ) → or_at (xs ++ q ∷ []) (length xs) v ≡ xs ++ bit_or q v ∷ []
unfolding or_at
or_at_last xs q v =
    rw (get_or-append xs [] (length xs) 0 q refl) (set-append xs [] (length xs) q (bit_or q v) refl)

put_first :
    (xs : Bytes) (v : ℕ)
    → put_value DecodeState.first (at_group xs) v ≡ partial xs (v * 4 % 256) DecodeState.second
unfolding put_value
put_first xs v = refl

put_second :
    (xs : Bytes) (q v : ℕ)
    → put_value DecodeState.second (partial xs q DecodeState.second) v
      ≡ partial (xs ++ bit_or q (v / 16) ∷ []) (v % 16 * 16 % 256) DecodeState.third
unfolding put_value
put_second xs q v = rw (or_at_last, length-append) refl

put_third :
    (xs : Bytes) (q v : ℕ)
    → put_value DecodeState.third (partial xs q DecodeState.third) v
      ≡ partial (xs ++ bit_or q (v / 4) ∷ []) (v % 4 * 64 % 256) DecodeState.fourth
unfolding put_value
put_third xs q v = rw (or_at_last, length-append) refl

put_fourth :
    (xs : Bytes) (q v : ℕ)
    → put_value DecodeState.fourth (partial xs q DecodeState.fourth) v
      ≡ at_group (xs ++ bit_or q v ∷ [])
unfolding put_value
put_fourth xs q v = rw (or_at_last, length-append) refl

-- The three partial bytes of a group are the bytes that were encoded.
byte_1 : (a b : ℕ) → IsByte a → IsByte b → bit_or (a / 4 * 4 % 256) ((a % 4 * 16 + b / 16) / 16) ≡ a
byte_1 a b ha hb =
    or_low (a / 4) ((a % 4 * 16 + b / 16) / 16) (omega arith) (omega arith) ∙ omega arith

byte_2 :
    (a b c : ℕ)
    → IsByte a
    → IsByte b
    → IsByte c
    → bit_or ((a % 4 * 16 + b / 16) % 16 * 16 % 256) ((b % 16 * 4 + c / 64) / 4) ≡ b
byte_2 a b c ha hb hc =
    or_low_4 ((a % 4 * 16 + b / 16) % 16) ((b % 16 * 4 + c / 64) / 4) (omega arith) (omega arith)
    ∙ omega arith

byte_3 :
    (b c : ℕ) → IsByte b → IsByte c → bit_or ((b % 16 * 4 + c / 64) % 4 * 64 % 256) (c % 64) ≡ c
byte_3 b c hb hc =
    or_low_6 ((b % 16 * 4 + c / 64) % 4) (c % 64) (omega arith) (omega arith) ∙ omega arith

-- Two codes complete the first byte of a group.
scan_two :
    (a b : ℕ) (rest xs : Bytes)
    → IsByte a
    → IsByte b
    → scan (code_of (a / 4) ∷ code_of (a % 4 * 16 + b / 16) ∷ rest) (at_group xs)
      ≡ scan rest (partial (xs ++ a ∷ []) ((a % 4 * 16 + b / 16) % 16 * 16 % 256) DecodeState.third)
scan_two a b rest xs ha hb =
    rw
      (
        scan-code (a / 4) _ _ (omega arith),
        put_first,
        scan-code (a % 4 * 16 + b / 16) _ _ (omega arith),
        put_second,
        byte_1 a b ha hb,
      )
      refl

scan_three :
    (a b c : ℕ) (rest xs : Bytes)
    → IsByte a
    → IsByte b
    → IsByte c
    → scan
        (code_of (a / 4) ∷ code_of (a % 4 * 16 + b / 16) ∷ code_of (b % 16 * 4 + c / 64) ∷ rest)
        (at_group xs)
      ≡ scan rest (
          partial
            (xs ++ a ∷ [] ++ b ∷ [])
            ((b % 16 * 4 + c / 64) % 4 * 64 % 256)
            DecodeState.fourth)
scan_three a b c rest xs ha hb hc =
    rw
      (
        scan_two a b _ xs ha hb,
        scan-code (b % 16 * 4 + c / 64) _ _ (omega arith),
        put_third,
        byte_2 a b c ha hb hc,
      )
      refl

scan_group :
    (a b c : ℕ) (rest xs : Bytes)
    → IsByte a
    → IsByte b
    → IsByte c
    → scan
        (code_of (a / 4)
          ∷ code_of (a % 4 * 16 + b / 16)
          ∷ code_of (b % 16 * 4 + c / 64)
          ∷ code_of (c % 64)
          ∷ rest)
        (at_group xs)
      ≡ scan rest (at_group (xs ++ a ∷ [] ++ b ∷ [] ++ c ∷ []))
scan_group a b c rest xs ha hb hc =
    rw
      (
        scan_three a b c _ xs ha hb hc,
        scan-code (c % 64) _ _ (omega arith),
        put_fourth,
        byte_3 b c hb hc,
      )
      refl

scan-pad : (rest : Bytes) (d : Decoder) → scan (pad64 ∷ rest) d ≡ Scan.pad_seen d
unfolding scan
scan-pad rest d = refl

-- Behind two or three codes of a group the pad cuts off the byte that is not complete.
finish_partial :
    (xs : Bytes) (q : ℕ)
    → (finish_pad DecodeState.third (partial xs q DecodeState.third) ≡ (true, xs))
      × (finish_pad DecodeState.fourth (partial xs q DecodeState.fourth) ≡ (true, xs))
unfolding finish_pad
finish_partial xs q =
    let kept : take (length xs) (xs ++ q ∷ []) ≡ xs = take-append xs (q ∷ []) (length xs) refl in
    let cut : take (length xs) (set (xs ++ q ∷ []) (length xs) 0) ≡ xs =
      rw (set-append xs [] (length xs) q 0 refl) (take-append xs (0 ∷ []) (length xs) refl) in
    (ground arith, ground arith)

decode_from :
    (bs xs : Bytes)
    → All IsByte bs
    → finish (scan (encode_groups bs) (at_group xs)) ≡ some (true, xs ++ bs)
unfolding encode_groups
decode_from [] xs h = rw append-nil (unfold scan finish in refl)
decode_from (a ∷ []) xs (ha, h) =
    rw (scan_two a 0 _ xs ha (omega arith), scan-pad)
      (unfold finish in ap some (finish_partial _ _).0)
decode_from (a ∷ b ∷ []) xs (ha, (hb, h)) =
    rw (scan_three a b 0 _ xs ha hb (omega arith), scan-pad)
      (unfold finish in
        ap some ((finish_partial _ _).1 ∙ ap (λ t. (true, t)) (append_assoc xs (a ∷ []) (b ∷ []))))
decode_from (a ∷ b ∷ c ∷ bs) xs (ha, (hb, (hc, h))) =
    rw (scan_group a b c _ xs ha hb hc, decode_from bs (xs ++ a ∷ [] ++ b ∷ [] ++ c ∷ []) h)
      (simp append_assoc)

pub decode-encode_groups :
    (bs : Bytes) → All IsByte bs → base64_decode (encode_groups bs) ≡ some (true, bs)
unfolding base64_decode
decode-encode_groups bs h = decode_from bs [] h

encode_small : (bs : Bytes) → length bs < 2 ^ 31 → base64_encode bs ≡ encode_groups bs
unfolding base64_encode
encode_small bs h =
    rw (below, lt→ltb (length bs) (2 ^ 31) h, take_all bs (length bs) (omega arith)) refl
  where
    below : length bs % 2 ^ 32 ≡ length bs
    below = omega (arith, h)

-- Decoding an encoded text gives the text back, for every text of less than 2^31 bytes, the range of the
-- `int` that the encoder measures it by.
pub decode-encode :
    (bs : Bytes)
    → All IsByte bs
    → length bs < 2 ^ 31
    → base64_decode (base64_encode bs) ≡ some (true, bs)
decode-encode bs h small = rw (encode_small bs small) (decode-encode_groups bs h)
