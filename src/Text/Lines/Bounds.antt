-- ===== src/Text/Lines/Bounds.antt =====
-- What is cut is a prefix of what was given, and the lines come to an end.
use mathlib.Core.List.{reverse, reverse-append, reverse-reverse}
use libupnpp.Prelude.{
  ℕ, zero, suc, ◌+◌, ◌≤◌, ◌<◌, Bool, [], ◌∷◌, ◌++◌, ◌≡◌, refl, sym, ap, ◌∙◌, append_assoc,
  append-nil, Option, none, some, leb, leb→le, Bytes, one_of, until, from, until-from, length,
  length-append, length-drop, take, drop, take-append-drop, arith, Bool-cases, inl, inr,
}
use libupnpp.Text.Prefix.Greatest.{IsPrefix}
use libupnpp.Text.Lines.{
  separators, without_first, before_last, truncate_to_word, add_line, next_line, lines_loop,
  break_into_lines,
}

IsPrefix-trans : (a b c : Bytes) → IsPrefix a b → IsPrefix b c → IsPrefix a c
IsPrefix-trans a b c (r, e) (q, f) = (r ++ q, f ∙ ap (λ t. t ++ q) e ∙ append_assoc a r q)

take-IsPrefix : (n : ℕ) (s : Bytes) → IsPrefix (take n s) s
take-IsPrefix n s = (drop n s, sym (take-append-drop n s))

length-IsPrefix : (p s : Bytes) → IsPrefix p s → length p ≤ length s
length-IsPrefix p s (r, e) = omega (arith, ap length e, length-append p r)

length-take-le : (n : ℕ) (s : Bytes) → length (take n s) ≤ n
length-take-le zero s = omega arith
length-take-le (suc n) [] = omega arith
length-take-le (suc n) (c ∷ s) = omega (arith, length-take-le n s)

-- A text that ends with another, turned round.
suffix-IsPrefix : (u v s : Bytes) → u ++ v ≡ reverse s → IsPrefix (reverse v) s
suffix-IsPrefix u v s e =
    (reverse u, sym (reverse-reverse s) ∙ ap reverse (sym e) ∙ reverse-append u v)

without_first-IsPrefix :
    (u v s : Bytes) → u ++ v ≡ reverse s → IsPrefix (reverse (without_first v)) s
without_first-IsPrefix u [] s e = suffix-IsPrefix u [] s e
without_first-IsPrefix u (c ∷ v) s e =
    suffix-IsPrefix (u ++ c ∷ []) v s (append_assoc u (c ∷ []) v ∙ e)

before_last-IsPrefix : (p : ℕ → Bool) (s : Bytes) → IsPrefix (before_last p s) s
unfolding before_last
before_last-IsPrefix p s =
    without_first-IsPrefix (until p (reverse s)) (from p (reverse s)) s (until-from p (reverse s))

-- A truncated text is a prefix of the text and not longer than was asked.
pub truncate_to_word_bounds :
    (input : Bytes) (maxlen : ℕ)
    → IsPrefix (truncate_to_word input maxlen) input
      × (length (truncate_to_word input maxlen) ≤ maxlen)
unfolding truncate_to_word
truncate_to_word_bounds input maxlen =
    let cut = before_last-IsPrefix (one_of separators) (take maxlen input) in
    elim (Bool-cases (leb (length input) maxlen)) [
      | inl e ↦ rw e (([], sym (append-nil input)), leb→le _ _ e)
      | inr e ↦ rw e (
        IsPrefix-trans _ _ _ cut (take-IsPrefix maxlen input),
        omega (arith, length-IsPrefix _ _ cut, length-take-le maxlen input),
      )
    ]

abbrev IsText : Option Bytes → Type 0
IsText none = ⊥
IsText (some t) = Unit

add_line-IsText :
    (loop : ℕ → Bytes → Bytes → Option Bytes) (maxlines nlines : ℕ) (oq query line : Bytes)
    → ((n : ℕ) (o q : Bytes) → length q < length query → IsText (loop n o q))
    → 0 < length query
    → IsText (add_line loop maxlines nlines oq query line)
add_line-IsText loop maxlines nlines oq query [] h z = tt
add_line-IsText loop maxlines nlines oq query (c ∷ line) h z =
    elim (Bool-cases (leb maxlines nlines)) [
      | inl e ↦ rw e tt
      | inr e ↦ rw e (
          h (nlines + 1) _ (drop (length (c ∷ line)) query)
            (omega (arith, z, length-drop (length (c ∷ line)) query)))
    ]

lines_loop-IsText :
    (fuel ll maxlines nlines : ℕ) (oq query : Bytes)
    → length query < fuel
    → IsText (lines_loop fuel ll maxlines nlines oq query)
unfolding lines_loop
lines_loop-IsText zero ll maxlines nlines oq query h = absurd (omega (arith, h))
lines_loop-IsText (suc fuel) ll maxlines nlines oq [] h = tt
lines_loop-IsText (suc fuel) ll maxlines nlines oq (c ∷ s) h =
    add_line-IsText (lines_loop fuel ll maxlines) maxlines nlines oq (c ∷ s) (next_line ll (c ∷ s))
      (λ n o q shorter. lines_loop-IsText fuel ll maxlines n o q (omega (arith, h, shorter)))
      (omega arith)

IsText-some : (o : Option Bytes) → IsText o → (t : Bytes) × (o ≡ some t)
IsText-some none h = elim h [ ]
IsText-some (some t) h = (t, refl)

-- Every text is broken into lines, whatever the length of a line and the number of lines.
pub break_into_lines-total :
    (s : Bytes) (ll maxlines : ℕ) → (t : Bytes) × (break_into_lines s ll maxlines ≡ some t)
unfolding break_into_lines
break_into_lines-total s ll maxlines =
    IsText-some (break_into_lines s ll maxlines)
      (lines_loop-IsText (suc (length s)) ll maxlines 0 [] s (omega arith))
