-- ===== src/Text/Decimal/Duration.antt =====
-- Durations are printed and read back.
use libupnpp.Prelude.Int.{ℤ, ◌+ℤ◌, scale, sub_ℕ, pos_part, neg_part}
use libupnpp.Prelude.{
  ℕ, zero, suc, Bool, true, false, ◌+◌, ◌-◌, ◌*◌, ◌/◌, ◌^◌, ◌<◌, [], ◌∷◌, ◌++◌, some, Bytes, ltb,
  ◌≡◌, refl, sym, ap, ◌∙◌, arith, append-nil, Bool-cases, inl, inr, subst,
}
use libupnpp.Text.Decimal.{
  ulltodecstr, print_d, print_02d, signed_d, signed_02d, duration_fields, negate, minus,
  upnpduration, upnpdurationtos, scan_digits, scan_int, scan_colon, scan_three, next_number,
  second_number, third_number, seconds_of,
}
use libupnpp.Text.Decimal.Print.{
  IsDecimal, ulltodecstr-IsDecimal, scan_number-IsDecimal, scan_int-IsDecimal, scan_end,
}

print_d-IsDecimal : (n : ℕ) → n < 2 ^ 64 → IsDecimal n (print_d n)
print_d-IsDecimal n h =
    let (s, e, d) = ulltodecstr-IsDecimal n h in subst (IsDecimal n) (sym (printed s e)) d
  where
    printed : (s : Bytes) → ulltodecstr n ≡ some s → print_d n ≡ s
    printed s e = unfold print_d in rw (e, print_d) refl

print_02d-IsDecimal : (n : ℕ) → n < 2 ^ 64 → IsDecimal n (print_02d n)
unfolding print_02d
print_02d-IsDecimal n h =
    let d = print_d-IsDecimal n h in
    elim (Bool-cases (ltb n 10)) [
      | inl e ↦ rw e (record {
        spells = d.spells;
        all_digits = ((omega arith, omega arith), d.all_digits);
        some_digit = λ q. cc;
      })
      | inr e ↦ rw e d
    ]

-- A colon ends a number.
scan_stop : (rest : Bytes) (m : ℕ) → scan_digits m (b':' ∷ rest) ≡ (m, b':' ∷ rest)
unfolding scan_digits
scan_stop rest m = refl

scan_colon_step :
    (z : ℤ) (s : Bytes) {r : ℤ × Bytes}
    → scan_int s ≡ some r
    → scan_colon (some (z, b':' ∷ s)) ≡ some (z, r)
unfolding scan_colon
scan_colon_step z s e = ap (next_number z) e

scan_joined :
    {a b : ℤ × Bytes} {h m z : ℤ} (w : Bytes) (rest : Bytes)
    → scan_int w ≡ some a
    → scan_colon (some a) ≡ some (h, b)
    → scan_colon (some b) ≡ some (m, (z, rest))
    → scan_three w ≡ some (h, (m, z))
unfolding scan_three
scan_joined {h} w rest p q r =
    ap (λ o. second_number (scan_colon o)) p ∙ ap second_number q ∙ ap (third_number h) r

-- The conversion `%d` reads the text as this number, and stops behind it.
abbrev ReadsAs : ℤ → Bytes → Type 0
ReadsAs z s =
    (rest : Bytes)
    → ((m : ℕ) → scan_digits m rest ≡ (m, rest))
    → scan_int (s ++ rest) ≡ some (z, rest)

scan_fields :
    (s t u : Bytes) {h m z : ℤ}
    → ReadsAs h s
    → ReadsAs m t
    → ReadsAs z u
    → scan_three (s ++ (b':' ∷ (t ++ (b':' ∷ u)))) ≡ some (h, (m, z))
scan_fields s t u {h} {m} {z} hs ht hu =
    let last : scan_int u ≡ some (z, []) = ap scan_int (sym (append-nil u)) ∙ hu [] scan_end in
    scan_joined (s ++ (b':' ∷ (t ++ (b':' ∷ u)))) [] (hs (b':' ∷ (t ++ (b':' ∷ u))) (scan_stop _))
      (scan_colon_step h (t ++ (b':' ∷ u)) (ht (b':' ∷ u) (scan_stop u))) (scan_colon_step m u last)

-- A number, or the negation of one.
abbrev pub signed_of : Bool → ℕ → ℤ
signed_of false n = ℤ.pos n
signed_of true n = negate n

minus_read : (s : Bytes) {n : ℕ} → IsDecimal (suc n) s → ReadsAs (ℤ.negsuc n) (b'-' ∷ s)
unfolding scan_int minus
minus_read s d rest k = ap minus (scan_number-IsDecimal s rest d k)

signed_d-ReadsAs :
    (below : Bool) (n : ℕ) → n < 2 ^ 64 → ReadsAs (signed_of below n) (signed_d below n)
unfolding signed_d
signed_d-ReadsAs false n h rest k = scan_int-IsDecimal (print_d n) rest (print_d-IsDecimal n h) k
signed_d-ReadsAs true zero h rest k = scan_int-IsDecimal (print_d 0) rest (print_d-IsDecimal 0 h) k
signed_d-ReadsAs true (suc n) h rest k =
    minus_read (print_d (suc n)) (print_d-IsDecimal (suc n) h) rest k

signed_02d-ReadsAs :
    (below : Bool) (n : ℕ) → n < 2 ^ 64 → ReadsAs (signed_of below n) (signed_02d below n)
unfolding signed_02d
signed_02d-ReadsAs false n h rest k =
    scan_int-IsDecimal (print_02d n) rest (print_02d-IsDecimal n h) k
signed_02d-ReadsAs true zero h rest k =
    scan_int-IsDecimal (print_02d 0) rest (print_02d-IsDecimal 0 h) k
signed_02d-ReadsAs true (suc n) h rest k =
    minus_read (print_d (suc n)) (print_d-IsDecimal (suc n) h) rest k

pos_part-negate : (n : ℕ) → pos_part (negate n) ≡ 0
pos_part-negate zero = refl
pos_part-negate (suc n) = refl

neg_part-negate : (n : ℕ) → neg_part (negate n) ≡ n
neg_part-negate zero = refl
neg_part-negate (suc n) = refl

sub_zero : (n : ℕ) → sub_ℕ 0 n ≡ negate n
sub_zero zero = refl
sub_zero (suc n) = ground arith

scale-negate : (k n : ℕ) → scale k (negate n) ≡ negate (k * n)
unfolding scale
scale-negate k n =
    rw (pos_part-negate n, neg_part-negate n)
      (ap (λ a. sub_ℕ a (k * n)) (omega arith) ∙ sub_zero (k * n))

add-negate : (a b : ℕ) → negate a +ℤ negate b ≡ negate (a + b)
unfolding ◌+ℤ◌
add-negate a b =
    rw (pos_part-negate a, neg_part-negate a, pos_part-negate b, neg_part-negate b)
      (sub_zero (a + b))

seconds_sum :
    (below : Bool) (h m z : ℕ)
    → scale 3600 (signed_of below h) +ℤ scale 60 (signed_of below m) +ℤ signed_of below z
      ≡ signed_of below (3600 * h + 60 * m + z)
seconds_sum false h m z = unfold scale ◌+ℤ◌ in (ground arith)
seconds_sum true h m z =
    rw (scale-negate 3600 h, scale-negate 60 m, add-negate (3600 * h) (60 * m))
      (add-negate (3600 * h + 60 * m) z)

seconds_lem : (s : Bytes) → upnpdurationtos s ≡ seconds_of (scan_three s)
unfolding upnpdurationtos
seconds_lem s = refl

seconds_of-some : (h m z : ℤ) → seconds_of (some (h, (m, z))) ≡ scale 3600 h +ℤ scale 60 m +ℤ z
unfolding seconds_of
seconds_of-some h m z = refl

duration_fields_lem :
    (below : Bool) (ms : ℕ)
    → ms < 2 ^ 32
    → upnpdurationtos (duration_fields below ms) ≡ signed_of below (ms / 1000)
unfolding duration_fields
duration_fields_lem below ms h =
    let hours = ms / (3600 * 1000) in
    let ms1 = ms - hours * 3600 * 1000 in
    let minutes = ms1 / (60 * 1000) in
    let ms2 = ms1 - minutes * 60 * 1000 in
    let secs = ms2 / 1000 in
    seconds_lem _
    ∙ ap seconds_of (
        scan_fields (signed_d below hours) (signed_02d below minutes) (signed_02d below secs)
          (signed_d-ReadsAs below hours (omega arith))
          (signed_02d-ReadsAs below minutes (omega arith))
          (signed_02d-ReadsAs below secs (omega arith)))
    ∙ seconds_of-some (signed_of below hours) (signed_of below minutes) (signed_of below secs)
    ∙ seconds_sum below hours minutes secs
    ∙ ap (signed_of below) (omega arith)

-- A duration is read back as its number of whole seconds, and one before zero with its sign.
pub upnpdurationtos-upnpduration :
    (below : Bool) (ms : ℕ)
    → ms < 2 ^ 32
    → upnpdurationtos (upnpduration (signed_of below ms)) ≡ signed_of below (ms / 1000)
unfolding upnpduration
upnpdurationtos-upnpduration false ms h = duration_fields_lem false ms h
upnpdurationtos-upnpduration true zero h = duration_fields_lem false zero h
upnpdurationtos-upnpduration true (suc n) h = duration_fields_lem true (suc n) h
