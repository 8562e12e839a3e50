-- ===== src/Base64/Tests.antt =====
-- The theorems on base64 at concrete texts, and some runs.
use libupnpp.Prelude.{true, [], ◌∷◌, ◌≡◌, refl, arith, some, codes}
use libupnpp.Base64.{base64_decode, base64_encode}
use libupnpp.Base64.RoundTrip.{decode-encode}

encode_run : base64_encode (codes "libu") ≡ codes "bGlidQ=="
unfolding base64_encode
encode_run = refl

decode_run : base64_decode (codes "bGli\ndQ==") ≡ some (true, codes "libu")
unfolding base64_decode
decode_run = refl

decode-encode_example :
    base64_decode (base64_encode (0 ∷ 255 ∷ 7 ∷ 200 ∷ [])) ≡ some (true, 0 ∷ 255 ∷ 7 ∷ 200 ∷ [])
decode-encode_example =
    decode-encode (0 ∷ 255 ∷ 7 ∷ 200 ∷ [])
      (omega arith, (omega arith, (omega arith, (omega arith, tt)))) (omega arith)
