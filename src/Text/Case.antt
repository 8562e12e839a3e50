-- ===== src/Text/Case.antt =====
-- libupnpp/smallut.cpp: `stringtolower`, `stringtoupper`, `stringlowercmp`, `stringuppercmp` and
-- `stringicmp`, with `tolower` and `toupper` of the C locale. A char is signed where it is compared,
-- so bytes from 128 stand below the others. The results -1, 0 and 1 are the data type `Sign`.
pub mod Compare
use libupnpp.Prelude.{
  ℕ, ◌+◌, ◌-◌, ◌%◌, Bool, true, false, [], ◌∷◌, List, map, Bytes, ◌==◌, ltb, leb, if◌then◌else◌,
  ◌&&◌, length, not,
}

unfoldable pub tolower : ℕ → ℕ
tolower c = if leb b'A' c && leb c b'Z' then c + 32 else c

unfoldable pub toupper : ℕ → ℕ
toupper c = if leb b'a' c && leb c b'z' then c - 32 else c

unfoldable pub stringtolower : Bytes → Bytes
unfolding tolower
stringtolower i = map tolower i

unfoldable pub stringtoupper : Bytes → Bytes
unfolding toupper
stringtoupper i = map toupper i

pub data Sign : Type 0 where
  minus zero plus : Sign

-- `a > b` on signed chars.
abbrev char_gt : ℕ → ℕ → Bool
char_gt a b = ltb ((b + 128) % 256) ((a + 128) % 256)

-- The first loop runs to the end of the first text, which is the shorter one.
short_first : (ℕ → ℕ) → Bytes → Bytes → Bool → Sign
short_first fold [] s2 same_size = if same_size then Sign.zero else Sign.minus
short_first fold (c ∷ s1) [] same_size = Sign.minus
short_first fold (c ∷ s1) (d ∷ s2) same_size =
    let rest = short_first fold s1 s2 same_size in
    if not (c == fold d) then (if char_gt c (fold d) then Sign.plus else Sign.minus) else rest

-- The second runs to the end of the second text.
short_second : (ℕ → ℕ) → Bytes → Bytes → Bool → Sign
short_second fold s1 [] same_size = if same_size then Sign.zero else Sign.plus
short_second fold [] (d ∷ s2) same_size = Sign.plus
short_second fold (c ∷ s1) (d ∷ s2) same_size =
    let rest = short_second fold s1 s2 same_size in
    if not (c == fold d) then (if char_gt c (fold d) then Sign.plus else Sign.minus) else rest

folded_cmp : (ℕ → ℕ) → Bytes → Bytes → Sign
unfolding short_first short_second
folded_cmp fold s1 s2 =
    if ltb (length s1) (length s2)
    then short_first fold s1 s2 (length s1 == length s2)
    else short_second fold s1 s2 (length s1 == length s2)

-- The first text is lower case already.
unfoldable pub stringlowercmp : Bytes → Bytes → Sign
unfolding folded_cmp tolower
stringlowercmp s1 s2 = folded_cmp tolower s1 s2

-- The first text is upper case already.
unfoldable pub stringuppercmp : Bytes → Bytes → Sign
unfolding folded_cmp toupper
stringuppercmp s1 s2 = folded_cmp toupper s1 s2
