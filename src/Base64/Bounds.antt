-- ===== src/Base64/Bounds.antt =====
-- Indices and sizes: the decoder's writes, its output, the length of an encoding.
use libupnpp.Prelude.{
  ℕ, zero, suc, ◌+◌, ◌*◌, ◌/◌, ◌≤◌, ◌≡◌, refl, true, [], ◌∷◌, arith, Bytes, length, length-append,
  length-set, set, take, some,
}
use libupnpp.Base64.Cases.{scan_cases}
use libupnpp.Base64.{
  Decoder, DecodeState, start, or_at, put_value, Scan, scan, finish, finish_pad, finish_end,
  base64_decode, encode_groups,
}

-- The bytes that are not complete yet: none between groups, else one.
abbrev pub pending : DecodeState → ℕ
pending DecodeState.first = 0
pending DecodeState.second = 1
pending DecodeState.third = 1
pending DecodeState.fourth = 1

-- Four times the complete bytes falls short of three times the characters by this much.
abbrev pub slack : DecodeState → ℕ
slack DecodeState.first = 0
slack DecodeState.second = 3
slack DecodeState.third = 2
slack DecodeState.fourth = 1

-- `io` counts the complete bytes, so every access to `out[io]` is in range; and three bytes need
-- four characters, `k` of them being read.
pub record IsConsistent (k : ℕ) (d : Decoder) : Type 0 where
  pub sized : length d.out ≡ d.io + pending d.state
  pub paid : 4 * d.io + slack d.state ≤ 3 * k

length-or_at : (out : Bytes) (io v : ℕ) → length (or_at out io v) ≡ length out
unfolding or_at
length-or_at out io v = length-set out io _

put_value_step :
    (st : DecodeState) (k : ℕ) (d : Decoder) (v : ℕ)
    → length d.out ≡ d.io + pending st
    → 4 * d.io + slack st ≤ 3 * k
    → IsConsistent (k + 1) (put_value st d v)
unfolding put_value
put_value_step DecodeState.first k d v h p = record {
  sized = omega (arith, length-append d.out);
  paid = omega arith;
}
put_value_step DecodeState.second k d v h p = record {
  sized =
      omega (arith, length-append (or_at d.out d.io (v / 16)), length-or_at d.out d.io (v / 16));
  paid = omega arith;
}
put_value_step DecodeState.third k d v h p = record {
  sized = omega (arith, length-append (or_at d.out d.io (v / 4)), length-or_at d.out d.io (v / 4));
  paid = omega arith;
}
put_value_step DecodeState.fourth k d v h p = record {
  sized = omega (arith, length-or_at d.out d.io v);
  paid = omega arith;
}

-- A statement about the decoder with which the loop ends, if it ends.
abbrev pub Ends {ℓ} : (Decoder → Type ℓ) → Scan → Type ℓ
Ends P (Scan.pad_seen d) = P d
Ends P (Scan.end_seen d) = P d
Ends P (Scan.bad_char d) = P d
Ends P Scan.out_of_table = Unit

Ends-mono : {k n : ℕ} (s : Scan) → k ≤ n → Ends (IsConsistent k) s → Ends (IsConsistent n) s
Ends-mono (Scan.pad_seen d) h c = record { sized = c.sized; paid = grind arith }
Ends-mono (Scan.end_seen d) h c = record { sized = c.sized; paid = grind arith }
Ends-mono (Scan.bad_char d) h c = record { sized = c.sized; paid = grind arith }
Ends-mono Scan.out_of_table h c = tt

scan-IsConsistent :
    (input : Bytes) (k : ℕ) (d : Decoder)
    → IsConsistent k d
    → Ends (IsConsistent (k + length input)) (scan input d)
unfolding scan
scan-IsConsistent [] k d c = record { sized = c.sized; paid = omega arith }
scan-IsConsistent (ch ∷ rest) k d c =
    scan_cases (Ends (IsConsistent (k + length (ch ∷ rest)))) ch rest d (λ _. tt) here here
      (Ends-mono (scan rest d) (omega arith) (scan-IsConsistent rest k d c))
      λ v. Ends-mono (scan rest (put_value d.state d v)) (omega arith) (
        scan-IsConsistent rest (k + 1) (put_value d.state d v)
          (put_value_step d.state k d v c.sized c.paid))
  where
    here : IsConsistent (k + length (ch ∷ rest)) d
    here = record { sized = c.sized; paid = omega (arith, c.paid) }

length-take-le : (n : ℕ) (xs : Bytes) → length (take n xs) ≤ n
length-take-le zero xs = omega arith
length-take-le (suc n) [] = omega arith
length-take-le (suc n) (x ∷ xs) = omega (arith, length-take-le n xs)

finish_pad_bound :
    (st : DecodeState) (n : ℕ) (d : Decoder) {out : Bytes}
    → 4 * d.io ≤ 3 * n
    → finish_pad st d ≡ (true, out)
    → 4 * length out ≤ 3 * n
unfolding finish_pad
finish_pad_bound DecodeState.first n d p e = ground arith
finish_pad_bound DecodeState.second n d p e = ground arith
finish_pad_bound DecodeState.third n d p e =
    ground (arith, length-take-le d.io d.out, length-take-le d.io (set d.out d.io 0))
finish_pad_bound DecodeState.fourth n d p e =
    ground (arith, length-take-le d.io d.out, length-take-le d.io (set d.out d.io 0))

finish_end_bound :
    (st : DecodeState) (n : ℕ) (d : Decoder) {out : Bytes}
    → length d.out ≡ d.io + pending st
    → 4 * d.io ≤ 3 * n
    → finish_end st d ≡ (true, out)
    → 4 * length out ≤ 3 * n
unfolding finish_end
finish_end_bound DecodeState.first n d h p e = ground arith
finish_end_bound DecodeState.second n d h p e = ground arith
finish_end_bound DecodeState.third n d h p e = ground arith
finish_end_bound DecodeState.fourth n d h p e = ground arith

finish_bound :
    (s : Scan) (n : ℕ) {out : Bytes}
    → Ends (IsConsistent n) s
    → finish s ≡ some (true, out)
    → 4 * length out ≤ 3 * n
unfolding finish
finish_bound (Scan.pad_seen d) n c e = finish_pad_bound d.state n d (omega (arith, c.paid)) (cc)
finish_bound (Scan.end_seen d) n c e =
    finish_end_bound d.state n d c.sized (omega (arith, c.paid)) (cc)
finish_bound (Scan.bad_char d) n c e = ground arith
finish_bound Scan.out_of_table n c e = cc

-- At every end of the decoding loop the number of complete bytes and the output agree, so the
-- accesses `out[io]` are in range, and three bytes took at least four characters.
pub base64_loop_bounds : (input : Bytes) → Ends (IsConsistent (length input)) (scan input start)
base64_loop_bounds input =
    let e : 0 + length input ≡ length input = omega arith in
    rw e at (scan-IsConsistent input 0 start (record { sized = refl; paid = omega arith }))

-- What is decoded is at most three quarters as long as the text.
pub base64_decode_bound :
    (input : Bytes) {out : Bytes}
    → base64_decode input ≡ some (true, out)
    → 4 * length out ≤ 3 * length input
unfolding base64_decode
base64_decode_bound input e =
    finish_bound (scan input start) (length input) (base64_loop_bounds input) e

-- An encoding has four characters for each three bytes that are begun.
pub length-encode_groups : (bs : Bytes) → length (encode_groups bs) ≡ 4 * ((length bs + 2) / 3)
unfolding encode_groups
length-encode_groups [] = refl
length-encode_groups (a ∷ []) = refl
length-encode_groups (a ∷ b ∷ []) = refl
length-encode_groups (a ∷ b ∷ c ∷ bs) = omega (arith, length-encode_groups bs)
