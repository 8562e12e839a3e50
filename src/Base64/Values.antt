-- ===== src/Base64/Values.antt =====
-- Facts about the two tables and about `|=` on disjoint bits, each checked at every value.
use libupnpp.Prelude.{
  ℕ, ◌+◌, ◌*◌, ◌%◌, ◌<◌, ◌≡◌, refl, bit_or, Option, none, some, Bool, true, false, ◌&&◌, not, arith,
  get_elem?, ◌==◌, ==_iff, passed_by, passed_by-below,
}
use libupnpp.Base64.{b64values, pad64, code_of}

-- A table entry is the number.
holds : Option ℕ → ℕ → Bool
holds none v = false
holds (some w) v = w == v

holds→eq : (o : Option ℕ) (v : ℕ) → holds o v ≡ true → o ≡ some v
unfolding holds
holds→eq none v h = cc
holds→eq (some w) v h = ground arith

code_table :
    passed_by 64 (λ v. holds (get_elem? b64values (code_of v)) v && not (code_of v == pad64)) ≡ true
unfolding passed_by holds
code_table = refl

-- The code of a value is not the pad, and the table gives the value back.
pub value-code :
    (v : ℕ) → v < 64 → (get_elem? b64values (code_of v) ≡ some v) × ((code_of v == pad64) ≡ false)
value-code v h =
    let t : (holds (get_elem? b64values (code_of v)) v && not (code_of v == pad64)) ≡ true =
      passed_by-below 64 _ v h code_table in
    (holds→eq (get_elem? b64values (code_of v)) v (ground arith), ground arith)

or_table : passed_by 64 (λ x. passed_by 4 (λ y. bit_or (x * 4 % 256) y == x * 4 + y)) ≡ true
unfolding passed_by
or_table = refl

or_table_4 : passed_by 16 (λ x. passed_by 16 (λ y. bit_or (x * 16 % 256) y == x * 16 + y)) ≡ true
unfolding passed_by
or_table_4 = refl

or_table_6 : passed_by 4 (λ x. passed_by 64 (λ y. bit_or (x * 64 % 256) y == x * 64 + y)) ≡ true
unfolding passed_by
or_table_6 = refl

-- `|=` adds, where the low bits are free: two, four or six of them.
pub or_low : (x y : ℕ) → x < 64 → y < 4 → bit_or (x * 4 % 256) y ≡ x * 4 + y
or_low x y hx hy = (==_iff _ _).0 (passed_by-below 4 _ y hy (passed_by-below 64 _ x hx or_table))

pub or_low_4 : (x y : ℕ) → x < 16 → y < 16 → bit_or (x * 16 % 256) y ≡ x * 16 + y
or_low_4 x y hx hy =
    (==_iff _ _).0 (passed_by-below 16 _ y hy (passed_by-below 16 _ x hx or_table_4))

pub or_low_6 : (x y : ℕ) → x < 4 → y < 64 → bit_or (x * 64 % 256) y ≡ x * 64 + y
or_low_6 x y hx hy =
    (==_iff _ _).0 (passed_by-below 64 _ y hy (passed_by-below 4 _ x hx or_table_6))
