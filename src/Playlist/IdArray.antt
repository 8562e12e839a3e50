-- ===== src/Playlist/IdArray.antt =====
-- The list of ids: from the device's text to the client's numbers.
use libupnpp.Prelude.{
  ℕ, ◌+◌, ◌-◌, ◌*◌, ◌/◌, ◌%◌, ◌^◌, ◌≤◌, ◌<◌, true, false, List, [], ◌∷◌, ◌++◌, ◌≡◌, refl, ap, ◌∙◌,
  arith, some, ltb, Bytes, All,
}
use libupnpp.Prelude.Int.{ℤ, pos, negsuc, pos_part, neg_part}
use libupnpp.Base64.{encode_groups}
use libupnpp.Base64.RoundTrip.{IsByte, decode-encode_groups}
use libupnpp.Playlist.{int_of_word, words_of, decoded_ids, ohpl_id_array_to_vec}

-- Two's complement, and a word as four bytes, the most significant first.
abbrev pub word_of : ℤ → ℕ
word_of (pos n) = n
word_of (negsuc n) = 2 ^ 32 - 1 - n

abbrev pub bytes_of : List ℤ → Bytes
bytes_of [] = []
bytes_of (z ∷ ids) =
    word_of z / 2 ^ 24
    ∷ word_of z / 2 ^ 16 % 2 ^ 8
    ∷ word_of z / 2 ^ 8 % 2 ^ 8
    ∷ word_of z % 2 ^ 8
    ∷ bytes_of ids

abbrev pub IsInt : ℤ → Type 0
IsInt z = (pos_part z < 2 ^ 31) × (neg_part z ≤ 2 ^ 31)

word_bound : (z : ℤ) → IsInt z → word_of z < 2 ^ 32
word_bound (pos n) (h, k) = omega (arith, h)
word_bound (negsuc n) (h, k) = omega arith

int_of_word_back : (z : ℤ) → IsInt z → int_of_word (word_of z) ≡ z
int_of_word_back (pos n) (h, k) = ground (arith, h)
int_of_word_back (negsuc n) (h, k) =
    let high : ltb (2 ^ 32 - 1 - n) (2 ^ 31) ≡ false = ground (arith, k) in
    rw high (ap negsuc (omega (arith, k)))

word_again :
    (w : ℕ)
    → w < 2 ^ 32
    → w / 2 ^ 24 * 2 ^ 24 + w / 2 ^ 16 % 2 ^ 8 * 2 ^ 16 + w / 2 ^ 8 % 2 ^ 8 * 2 ^ 8 + w % 2 ^ 8 ≡ w
word_again w h = omega (arith, h)

bytes_of-IsByte : (ids : List ℤ) → All IsInt ids → All IsByte (bytes_of ids)
bytes_of-IsByte [] h = tt
bytes_of-IsByte (z ∷ ids) (h, hs) =
    let b = word_bound z h in
    (omega (arith, b), (omega arith, (omega arith, (omega arith, bytes_of-IsByte ids hs))))

words_of-bytes_of : (ids : List ℤ) → All IsInt ids → words_of (bytes_of ids) ≡ ids
unfolding words_of
words_of-bytes_of [] h = refl
words_of-bytes_of (z ∷ ids) (h, hs) =
    ap (λ w. int_of_word w ∷ words_of (bytes_of ids)) (word_again (word_of z) (word_bound z h))
    ∙ ap (λ i. i ∷ words_of (bytes_of ids)) (int_of_word_back z h)
    ∙ ap (◌∷◌ z) (words_of-bytes_of ids hs)

-- Every list of 32-bit ids, written as bytes with the most significant first and encoded in base64, is
-- read back as it was, signs included, behind the ids that the caller has.
pub ohpl_id_array_to_vec-bytes_of :
    (ids old : List ℤ)
    → All IsInt ids
    → ohpl_id_array_to_vec (encode_groups (bytes_of ids)) old ≡ some (true, old ++ ids)
unfolding ohpl_id_array_to_vec decoded_ids
ohpl_id_array_to_vec-bytes_of ids old h =
    ap (decoded_ids old) (decode-encode_groups (bytes_of ids) (bytes_of-IsByte ids h))
    ∙ ap (λ l. some (true, old ++ l)) (words_of-bytes_of ids h)
