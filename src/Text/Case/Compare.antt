-- ===== src/Text/Case/Compare.antt =====
-- The comparisons against the lexicographic order of the folded text.
use libupnpp.Prelude.{
  ℕ, ◌<◌, ◌≤◌, Bool, false, [], ◌∷◌, map, Bytes, ◌==◌, ltb, if◌then◌else◌, length, ◌≡◌, ◌↔◌, refl,
  sym, ◌∙◌, arith, Bool-cases, inl, inr,
}
use libupnpp.Text.Case.{
  Sign, char_gt, short_first, short_second, folded_cmp, stringlowercmp, stringuppercmp, tolower,
  toupper,
}

-- The order of texts of signed chars, a prefix being less.
abbrev pub lexicographic : Bytes → Bytes → Sign
lexicographic [] [] = Sign.zero
lexicographic [] (d ∷ s2) = Sign.minus
lexicographic (c ∷ s1) [] = Sign.plus
lexicographic (c ∷ s1) (d ∷ s2) =
    if c == d then lexicographic s1 s2 else if char_gt c d then Sign.plus else Sign.minus

short_first-lexicographic :
    (fold : ℕ → ℕ) (s1 s2 : Bytes)
    → length s1 < length s2
    → short_first fold s1 s2 false ≡ lexicographic s1 (map fold s2)
unfolding short_first
short_first-lexicographic fold [] [] h = absurd (omega arith)
short_first-lexicographic fold [] (d ∷ s2) h = refl
short_first-lexicographic fold (c ∷ s1) [] h = absurd (omega arith)
short_first-lexicographic fold (c ∷ s1) (d ∷ s2) h =
    ground (arith, short_first-lexicographic fold s1 s2 (omega arith))

short_second-lexicographic :
    (fold : ℕ → ℕ) (s1 s2 : Bytes) (same : Bool)
    → length s2 ≤ length s1
    → same ≡ (length s1 == length s2)
    → short_second fold s1 s2 same ≡ lexicographic s1 (map fold s2)
unfolding short_second
short_second-lexicographic fold [] [] same h e = ground arith
short_second-lexicographic fold (c ∷ s1) [] same h e = ground arith
short_second-lexicographic fold [] (d ∷ s2) same h e = absurd (omega arith)
short_second-lexicographic fold (c ∷ s1) (d ∷ s2) same h e =
    ground (arith, short_second-lexicographic fold s1 s2 same (omega arith))

folded_cmp-lexicographic :
    (fold : ℕ → ℕ) (s1 s2 : Bytes) → folded_cmp fold s1 s2 ≡ lexicographic s1 (map fold s2)
unfolding folded_cmp
folded_cmp-lexicographic fold s1 s2 = elim (Bool-cases (ltb (length s1) (length s2))) [
  | inl e ↦
      let differ : (length s1 == length s2) ≡ false = ground arith in
      rw (e, differ) (short_first-lexicographic fold s1 s2 (ground arith))
  | inr e ↦
      rw e (short_second-lexicographic fold s1 s2 (length s1 == length s2) (ground arith) refl)
]

-- Both comparisons, whichever text is longer, order the first text and the folded second one as texts
-- of signed chars.
pub stringcmp-lexicographic :
    (s1 s2 : Bytes)
    → (stringlowercmp s1 s2 ≡ lexicographic s1 (map tolower s2))
      × (stringuppercmp s1 s2 ≡ lexicographic s1 (map toupper s2))
unfolding stringlowercmp stringuppercmp
stringcmp-lexicographic s1 s2 =
    (folded_cmp-lexicographic tolower s1 s2, folded_cmp-lexicographic toupper s1 s2)

lexicographic-zero : (s t : Bytes) → lexicographic s t ≡ Sign.zero → s ≡ t
lexicographic-zero [] [] h = refl
lexicographic-zero [] (d ∷ t) h = cc
lexicographic-zero (c ∷ s) [] h = cc
lexicographic-zero (c ∷ s) (d ∷ t) h = ground (arith, lexicographic-zero s t)

lexicographic_self : (s : Bytes) → lexicographic s s ≡ Sign.zero
lexicographic_self [] = refl
lexicographic_self (c ∷ s) = ground (arith, lexicographic_self s)

-- `!stringuppercmp(S, s)` says that `s` is `S` when it is put into upper case.
pub stringuppercmp-zero :
    (s1 s2 : Bytes) → (stringuppercmp s1 s2 ≡ Sign.zero) ↔ (s1 ≡ map toupper s2)
stringuppercmp-zero s1 s2 = (
  λ h. lexicographic-zero s1 (map toupper s2) (sym (stringcmp-lexicographic s1 s2).1 ∙ h),
  λ e. (stringcmp-lexicographic s1 s2).1 ∙ rw e (lexicographic_self (map toupper s2)),
)
