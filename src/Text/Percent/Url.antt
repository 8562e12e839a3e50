-- ===== src/Text/Percent/Url.antt =====
-- Decoding of percent-encoded URLs.
use libupnpp.Prelude.{
  ℕ, ◌+◌, ◌*◌, ◌/◌, ◌%◌, ◌<◌, Bool, true, false, [], ◌∷◌, ◌++◌, Option, none, some, Bytes, ◌==◌,
  ◌≡◌, ◌≢◌, refl, ap, ◌∙◌, arith, one_of, leb, ◌||◌, get_or, passed_by, passed_by-below, All, Lacks,
  Bool-cases, inl, inr, ◌⊎◌,
}
use libupnpp.Text.Percent.{h2d, decoded, pc_decode, hex_upper, sanitized, re_sanitize_url}

-- A byte of the text that decoding has to give back: not a percent sign, unless that is encoded.
abbrev pub IsEncodable : Bytes → ℕ → Type 0
IsEncodable chars c = (c < 256) × ((c ≢ b'%') ⊎ (one_of chars c ≡ true))

digit_is : Option ℕ → ℕ → Bool
digit_is none v = false
digit_is (some w) v = w == v

digit_is→eq : (o : Option ℕ) (v : ℕ) → digit_is o v ≡ true → o ≡ some v
unfolding digit_is
digit_is→eq none v h = cc
digit_is→eq (some w) v h = ground arith

digits : passed_by 16 (λ v. digit_is (h2d (get_or hex_upper v 0)) v) ≡ true
unfolding passed_by digit_is h2d
digits = refl

h2d-hex_upper : (v : ℕ) → v < 16 → h2d (get_or hex_upper v 0) ≡ some v
h2d-hex_upper v h = digit_is→eq (h2d (get_or hex_upper v 0)) v (passed_by-below 16 _ v h digits)

decode_plain : (c : ℕ) (s : Bytes) → c ≢ b'%' → pc_decode (c ∷ s) ≡ c ∷ pc_decode s
unfolding pc_decode
decode_plain c [] h = refl
decode_plain c (d ∷ []) h = refl
decode_plain c (d ∷ e ∷ s) h = ground arith

decode_escape :
    (c : ℕ) (s : Bytes)
    → c < 256
    → pc_decode (b'%' ∷ get_or hex_upper (c / 16 % 16) 0 ∷ get_or hex_upper (c % 16) 0 ∷ s)
      ≡ c ∷ pc_decode s
decode_escape c s h =
    let high : h2d (get_or hex_upper (c / 16 % 16) 0) ≡ some (c / 16 % 16) =
      h2d-hex_upper (c / 16 % 16) (omega arith) in
    let low : h2d (get_or hex_upper (c % 16) 0) ≡ some (c % 16) =
      h2d-hex_upper (c % 16) (omega arith) in
    let whole : (c / 16 % 16 * 16 + c % 16) % 256 ≡ c = omega arith in
    opened (get_or hex_upper (c / 16 % 16) 0) (get_or hex_upper (c % 16) 0) high low
    ∙ ap (λ t. t ∷ pc_decode s) whole
  where
    opened :
        (x y : ℕ)
        → h2d x ≡ some (c / 16 % 16)
        → h2d y ≡ some (c % 16)
        → pc_decode (b'%' ∷ x ∷ y ∷ s) ≡ ((c / 16 % 16 * 16 + c % 16) % 256) ∷ pc_decode s
    opened x y hx hy = unfold pc_decode decoded in (rw (hx, hy) refl)

decode_char :
    (chars : Bytes) (c : ℕ) (s : Bytes)
    → IsEncodable chars c
    → pc_decode (sanitized chars c ++ s) ≡ c ∷ pc_decode s
unfolding sanitized
decode_char chars c s (h, k) = elim (Bool-cases (leb c 0x20 || leb 0x7f c || one_of chars c)) [
  | inl e ↦ rw e (decode_escape c s h)
  | inr e ↦ rw e (decode_plain c s (ground arith))
]

-- Decoding a sanitized URL gives it back, whatever characters the option has encoded, if its bytes are
-- not percent signs or the option has these encoded too.
pub pc_decode-re_sanitize_url :
    (chars s : Bytes) → All (IsEncodable chars) s → pc_decode (re_sanitize_url chars s) ≡ s
unfolding re_sanitize_url
pc_decode-re_sanitize_url chars [] h = unfold pc_decode in refl
pc_decode-re_sanitize_url chars (c ∷ s) (hc, h) =
    decode_char chars c (re_sanitize_url chars s) hc
    ∙ ap (◌∷◌ c) (pc_decode-re_sanitize_url chars s h)

-- A text without percent signs is decoded as itself.
pub pc_decode-Lacks : (s : Bytes) → Lacks b'%' s → pc_decode s ≡ s
pc_decode-Lacks [] h = unfold pc_decode in refl
pc_decode-Lacks (c ∷ s) (hc, h) = decode_plain c s hc ∙ ap (◌∷◌ c) (pc_decode-Lacks s h)
