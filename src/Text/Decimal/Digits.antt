-- ===== src/Text/Decimal/Digits.antt =====
-- The digit loop, and reading what it writes.
use native.Mathlib.Nat.{pow-suc}
use libupnpp.Prelude.{
  ℕ, zero, suc, ◌+◌, ◌-◌, ◌*◌, ◌/◌, ◌%◌, ◌^◌, ◌<◌, ◌≤◌, false, [], ◌∷◌, ◌++◌, some, Bytes, ◌==◌,
  ◌≡◌, ◌≢◌, refl, sym, ap, ◌∙◌, arith, All, All-append, append-ne-nil, append_assoc, length,
  length-append, Bool-cases, inl, inr,
}
use libupnpp.Text.Decimal.{digits_loop, scan_digits}

abbrev pub IsDigit : ℕ → Type 0
IsDigit c = (b'0' ≤ c) × (c ≤ b'9')

-- The number that digits spell behind `n`.
abbrev pub value : ℕ → Bytes → ℕ
value n [] = n
value n (c ∷ s) = value (n * 10 + (c - b'0')) s

value-append : (n : ℕ) (s t : Bytes) → value n (s ++ t) ≡ value (value n s) t
value-append n [] t = refl
value-append n (c ∷ s) t = value-append (n * 10 + (c - b'0')) s t

-- What the loop writes for a value before a text, with `slots` free.
pub record Written (slots val : ℕ) (out : Bytes) : Type 0 where
  pub digits : Bytes
  pub left : ℕ
  pub run : digits_loop slots val out ≡ some (digits ++ out, left)
  pub spells : value 0 digits ≡ val
  pub all_digits : All IsDigit digits
  pub some_digit : digits ≢ []
  pub used : length digits + left ≡ slots

pub digits_loop-Written :
    (slots val : ℕ) (out : Bytes) → val < 10 ^ slots → 0 < slots → Written slots val out
digits_loop-Written zero val out h p = absurd (omega arith)
digits_loop-Written (suc slots) val out h p = elim (Bool-cases (val / 10 == 0)) [
  | inl e ↦ record {
    digits = (b'0' + val % 10) ∷ [];
    left = slots;
    run = unfold digits_loop in rw e refl;
    spells = ground arith;
    all_digits = ((omega arith, omega arith), tt);
    some_digit = λ q. cc;
    used = omega arith;
  }
  | inr e ↦
      extend e (digits_loop-Written slots (val / 10) ((b'0' + val % 10) ∷ out) (fits e) (room e))
]
  where
    fits : (val / 10 == 0) ≡ false → val / 10 < 10 ^ slots
    fits e = omega (arith, pow-suc 10 slots)

    room : (val / 10 == 0) ≡ false → 0 < slots
    room e = positive slots h e
      where
        positive : (k : ℕ) → val < 10 ^ suc k → (val / 10 == 0) ≡ false → 0 < k
        positive zero q r = absurd (ground (arith, q))
        positive (suc k) q r = omega arith

    extend :
        (val / 10 == 0) ≡ false
        → Written slots (val / 10) ((b'0' + val % 10) ∷ out)
        → Written (suc slots) val out
    extend e w = record {
      digits = w.digits ++ (b'0' + val % 10) ∷ [];
      left = w.left;
      run =
          unfold digits_loop in
          (rw e (w.run ∙ ap (λ t. some (t, w.left)) (sym (append_assoc w.digits _ out))));
      spells = value-append 0 w.digits _ ∙ rw w.spells (omega arith);
      all_digits = All-append _ w.digits _ w.all_digits ((omega arith, omega arith), tt);
      some_digit = append-ne-nil w.digits _ w.some_digit;
      used = omega (arith, w.used, length-append w.digits ((b'0' + val % 10) ∷ []));
    }

-- Reading digits in front of a text that does not begin with one.
pub scan_digits-value :
    (s rest : Bytes) (n : ℕ)
    → All IsDigit s
    → scan_digits n rest ≡ (n, rest)
    → ((m : ℕ) → scan_digits m rest ≡ (m, rest))
    → scan_digits n (s ++ rest) ≡ (value n s, rest)
unfolding scan_digits
scan_digits-value [] rest n h e k = e
scan_digits-value (c ∷ s) rest n (hc, h) e k =
    let go : scan_digits (n * 10 + (c - b'0')) (s ++ rest) ≡ (value (n * 10 + (c - b'0')) s, rest) =
      scan_digits-value s rest (n * 10 + (c - b'0')) h (k _) k in
    ground arith
