-- ===== src/Base64/Table.antt =====
-- The bounds of the table `b64values`: which texts the decoder has a result for.
use libupnpp.Prelude.{
  ℕ, ◌<◌, ◌≡◌, refl, ◌≢◌, Bool, true, false, List, [], ◌∷◌, ◌++◌, Bytes, All, get_elem?, Option,
  none, some, passed_by, passed_by-below,
}
use libupnpp.Base64.Cases.{scan_cases}
use libupnpp.Base64.{
  b64values, code_of, Decoder, start, put_value, Scan, scan, finish, base64_decode,
}
use libupnpp.Base64.RoundTrip.{scan-code}

in_table : Option ℕ → Bool
in_table none = false
in_table (some v) = true

entries : passed_by 255 (λ c. in_table (get_elem? b64values c)) ≡ true
unfolding passed_by in_table
entries = refl

in_table_cases : (o : Option ℕ) → in_table o ≡ true → (v : ℕ) × (o ≡ some v)
unfolding in_table
in_table_cases none h = cc
in_table_cases (some v) h = (v, refl)

entry : (c : ℕ) → c < 255 → (v : ℕ) × (get_elem? b64values c ≡ some v)
entry c h = in_table_cases (get_elem? b64values c) (passed_by-below 255 _ c h entries)

scan_defined : (s : Bytes) (d : Decoder) → All (λ c. c < 255) s → scan s d ≢ Scan.out_of_table
scan_defined [] d h = λ e. unfold scan in cc
scan_defined (c ∷ s) d (hc, hs) =
    let (v, inside) = entry c hc in
    scan_cases (λ r. r ≢ Scan.out_of_table) c s d (λ outside. cc) (λ e. cc) (λ e. cc)
      (scan_defined s d hs) (λ w. scan_defined s (put_value d.state d w) hs)

finish_defined : (r : Scan) → r ≢ Scan.out_of_table → finish r ≢ none
unfolding finish
finish_defined (Scan.pad_seen d) h = λ e. cc
finish_defined (Scan.end_seen d) h = λ e. cc
finish_defined (Scan.bad_char d) h = λ e. cc
finish_defined Scan.out_of_table h = absurd (h refl)

-- A text without byte 255 is decoded inside the bounds of the table.
pub base64_decode_defined : (s : Bytes) → All (λ c. c < 255) s → base64_decode s ≢ none
unfolding base64_decode
base64_decode_defined s h = finish_defined (scan s start) (scan_defined s start h)

-- The values of a text of base64 characters.
abbrev pub codes_of : List ℕ → Bytes
codes_of [] = []
codes_of (v ∷ vs) = code_of v ∷ codes_of vs

scan_byte_255 :
    (vs : List ℕ) (rest : Bytes) (d : Decoder)
    → All (λ v. v < 64) vs
    → scan (codes_of vs ++ 255 ∷ rest) d ≡ Scan.out_of_table
scan_byte_255 [] rest d h = unfold scan in refl
scan_byte_255 (v ∷ vs) rest d (hv, hs) =
    rw (scan-code v (codes_of vs ++ 255 ∷ rest) d hv) (scan_byte_255 vs rest _ hs)

-- Byte 255 behind any number of base64 characters is looked up past the end of the table.
pub base64_decode_byte_255 :
    (vs : List ℕ) (rest : Bytes)
    → All (λ v. v < 64) vs
    → base64_decode (codes_of vs ++ 255 ∷ rest) ≡ none
unfolding base64_decode finish
base64_decode_byte_255 vs rest h = rw (scan_byte_255 vs rest start h)
