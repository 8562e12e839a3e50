-- ===== src/Text/Decimal/Print.antt =====
-- The printed numbers are read back.
use libupnpp.Prelude.Int.{ℤ, neg_part, pos_part}
use libupnpp.Prelude.{
  ℕ, zero, suc, ◌+◌, ◌/◌, ◌%◌, ◌^◌, ◌<◌, true, false, [], ◌∷◌, ◌++◌, none, some, Bytes, codes, ◌==◌,
  ◌≡◌, ◌≢◌, refl, sym, ap, ◌∙◌, arith, All, append-nil, subst, Bool-cases, inl, inr,
}
use libupnpp.Text.Decimal.{
  digits_loop, rbuf_slots, ulltodecstr, lltodecstr, i2s, int64_min, is_digit, scan_digits,
  scan_number, signed, minus, scan_int, number_or_zero, atoi,
}
use libupnpp.Text.Decimal.Digits.{IsDigit, value, digits_loop-Written, scan_digits-value}

-- A decimal text of a number.
pub record IsDecimal (val : ℕ) (s : Bytes) : Type 0 where
  pub spells : value 0 s ≡ val
  pub all_digits : All IsDigit s
  pub some_digit : s ≢ []

pub scan_number-IsDecimal :
    (s rest : Bytes) {val : ℕ}
    → IsDecimal val s
    → ((m : ℕ) → scan_digits m rest ≡ (m, rest))
    → scan_number (s ++ rest) ≡ some (val, rest)
scan_number-IsDecimal [] rest d k = absurd (d.some_digit refl)
scan_number-IsDecimal (c ∷ s) rest {val} d k =
    let e : scan_digits 0 (c ∷ (s ++ rest)) ≡ (value 0 (c ∷ s), rest) =
      scan_digits-value (c ∷ s) rest 0 d.all_digits (k 0) k in
    begin c s rest d.all_digits.0 ∙ ap some (e ∙ ap (λ v. (v, rest)) d.spells)
  where
    begin :
        (x : ℕ) (t r : Bytes)
        → IsDigit x
        → scan_number (x ∷ (t ++ r)) ≡ some (scan_digits 0 (x ∷ (t ++ r)))
    begin x t r h = unfold scan_number is_digit in ground arith

-- A number is scanned up to a text that does not begin with a digit.
pub scan_int-IsDecimal :
    (s rest : Bytes) {val : ℕ}
    → IsDecimal val s
    → ((m : ℕ) → scan_digits m rest ≡ (m, rest))
    → scan_int (s ++ rest) ≡ some (ℤ.pos val, rest)
scan_int-IsDecimal [] rest d k = absurd (d.some_digit refl)
scan_int-IsDecimal (c ∷ s) rest d k =
    digit_first c (s ++ rest) d.all_digits.0
    ∙ unfold signed in ap signed (scan_number-IsDecimal (c ∷ s) rest d k)
  where
    digit_first : (x : ℕ) (t : Bytes) → IsDigit x → scan_int (x ∷ t) ≡ signed (scan_number (x ∷ t))
    digit_first x t h = unfold scan_int in ground arith

pub scan_end : (m : ℕ) → scan_digits m [] ≡ (m, [])
unfolding scan_digits
scan_end m = refl

-- One more slot is one more slot left.
one_more_slot :
    (slots val : ℕ) (out : Bytes) {s : Bytes} {left : ℕ}
    → digits_loop slots val out ≡ some (s, left)
    → digits_loop (suc slots) val out ≡ some (s, suc left)
one_more_slot zero val out e = unfold digits_loop in cc
one_more_slot (suc slots) val out {s} {left} e =
    step (one_more_slot slots (val / 10) ((b'0' + val % 10) ∷ out) {s = s} {left = left}) e
  where
    step :
        (digits_loop slots (val / 10) ((b'0' + val % 10) ∷ out) ≡ some (s, left)
          → digits_loop (suc slots) (val / 10) ((b'0' + val % 10) ∷ out) ≡ some (s, suc left))
        → digits_loop (suc slots) val out ≡ some (s, left)
        → digits_loop (suc (suc slots)) val out ≡ some (s, suc left)
    step ih q = elim (Bool-cases (val / 10 == 0)) [
      | inl done ↦ last done q
      | inr more ↦ next more q ih
    ]
      where
        last :
            (val / 10 == 0) ≡ true
            → digits_loop (suc slots) val out ≡ some (s, left)
            → digits_loop (suc (suc slots)) val out ≡ some (s, suc left)
        last done q = unfold digits_loop in (ground arith)

        next :
            (val / 10 == 0) ≡ false
            → digits_loop (suc slots) val out ≡ some (s, left)
            → (digits_loop slots (val / 10) ((b'0' + val % 10) ∷ out) ≡ some (s, left)
                → digits_loop (suc slots) (val / 10) ((b'0' + val % 10) ∷ out) ≡ some (s, suc left))
            → digits_loop (suc (suc slots)) val out ≡ some (s, suc left)
        next more q ih = open_round (suc slots) more ∙ ih (sym (open_round slots more) ∙ q)
          where
            open_round :
                (k : ℕ)
                → (val / 10 == 0) ≡ false
                → digits_loop (suc k) val out ≡ digits_loop k (val / 10) ((b'0' + val % 10) ∷ out)
            open_round k m = unfold digits_loop in rw m refl

-- A number of 64 bits fits the buffer, and leaves room for a sign.
loop-IsDecimal :
    (val : ℕ)
    → val < 2 ^ 64
    → (s : Bytes) × (left : ℕ) × (digits_loop rbuf_slots val [] ≡ some (s, suc left))
      × IsDecimal val s
loop-IsDecimal val h =
    let w = digits_loop-Written 28 val [] (omega arith) (omega arith) in
    (
      w.digits,
      w.left,
      one_more_slot 28 val [] (w.run ∙ ap (λ t. some (t, w.left)) (append-nil w.digits)),
      record { spells = w.spells; all_digits = w.all_digits; some_digit = w.some_digit },
    )

zero-IsDecimal : (val : ℕ) → (val == 0) ≡ true → IsDecimal val (codes "0")
zero-IsDecimal val h = record {
  spells = ground arith;
  all_digits = omega arith;
  some_digit = λ e. cc;
}

-- Every uint64 is printed inside the buffer, as digits that spell it.
pub ulltodecstr-IsDecimal :
    (val : ℕ) → val < 2 ^ 64 → (s : Bytes) × (ulltodecstr val ≡ some s) × IsDecimal val s
unfolding ulltodecstr
ulltodecstr-IsDecimal val h = elim (Bool-cases (val == 0)) [
  | inl e ↦ (codes "0", rw e refl, zero-IsDecimal val e)
  | inr e ↦ let (s, left, run, d) = loop-IsDecimal val h in (s, rw (e, run) refl, d)
]

pub atoi-IsDecimal : (s : Bytes) {val : ℕ} → IsDecimal val s → atoi s ≡ ℤ.pos val
atoi-IsDecimal s {val} d =
    let e : scan_int s ≡ some (ℤ.pos val, []) =
      ap scan_int (sym (append-nil s)) ∙ scan_int-IsDecimal s [] d scan_end in
    unfold atoi number_or_zero in rw e refl

atoi_minus : (s : Bytes) {n : ℕ} → IsDecimal (suc n) s → atoi (b'-' ∷ s) ≡ ℤ.negsuc n
atoi_minus s {n} d =
    let e : scan_number s ≡ some (suc n, []) =
      ap scan_number (sym (append-nil s)) ∙ scan_number-IsDecimal s [] d scan_end in
    unfold atoi scan_int number_or_zero minus in rw e refl

-- Every int64 but the least is printed inside the buffer, and `atoi` reads it back with its sign.
pub atoi-i2s :
    (z : ℤ)
    → pos_part z < 2 ^ 63
    → neg_part z < 2 ^ 63
    → (s : Bytes) × (i2s z ≡ some s) × (atoi s ≡ z)
unfolding i2s
atoi-i2s (ℤ.pos val) h k = elim (Bool-cases (val == 0)) [
  | inl e ↦ (codes "0", rw e refl, atoi-IsDecimal (codes "0") (zero-IsDecimal val e))
  | inr e ↦
      let (s, left, run, d) = loop-IsDecimal val (omega arith) in
      (s, rw (e, run) refl, atoi-IsDecimal s d)
]
atoi-i2s (ℤ.negsuc n) h k =
    let small : (n + 1 == int64_min) ≡ false = ground arith in
    let (s, left, run, d) = loop-IsDecimal (n + 1) (omega arith) in
    let same : n + 1 ≡ suc n = omega arith in
    (b'-' ∷ s, rw (small, run) refl, atoi_minus s (subst (λ v. IsDecimal v s) same d))

-- The least int64 is negated with overflow: the printer has no result.
pub i2s_int64_min : (n : ℕ) → n + 1 ≡ 2 ^ 63 → i2s (ℤ.negsuc n) ≡ none
unfolding i2s
i2s_int64_min n h = rw h refl

pub i2s_zero : i2s (ℤ.pos 0) ≡ some (codes "0")
unfolding i2s
i2s_zero = refl

pub i2s_one : i2s (ℤ.pos 1) ≡ some (codes "1")
unfolding i2s ulltodecstr lltodecstr digits_loop
i2s_one = refl

pub atoi_nil : atoi [] ≡ ℤ.pos 0
unfolding atoi scan_int number_or_zero
atoi_nil = refl

pub atoi_one : atoi (codes "1") ≡ ℤ.pos 1
unfolding atoi scan_int number_or_zero scan_number scan_digits is_digit signed
atoi_one = refl
