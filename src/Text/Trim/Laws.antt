-- ===== src/Text/Trim/Laws.antt =====
-- What the trimming and prefix tests promise.
use mathlib.Core.List.{reverse, reverse-append, reverse-reverse, reverse-cons}
use libupnpp.Prelude.{
  ℕ, zero, suc, ◌+◌, ◌-◌, ◌<◌, ◌≤◌, Bool, true, false, not, [], ◌∷◌, ◌++◌, some, Bytes, one_of,
  until, from, length, length-append, drop, take, beq, beq→eq, beq_refl, Avoids, All, All-append,
  ◌≡◌, ◌↔◌, refl, sym, ap, ◌∙◌, arith, take-append-drop, take-append, until-from, All-until,
  append_assoc, from_head, List-cases, inl, inr, subst, length-from-le, until_all,
  until-append_from,
}
use libupnpp.Text.Trim.{
  rtrimstring, ltrimstring, trimstring, neut_loop, neutchars, beginswith, endswith,
}

-- A text begins with another if and only if it is that text with something behind it.
pub beginswith_iff : (bg sml : Bytes) → (beginswith bg sml ≡ true) ↔ ((r : Bytes) × (bg ≡ sml ++ r))
unfolding beginswith
beginswith_iff bg sml = (
  λ h. (drop (length sml) bg, split h),
  λ p. rw p.1 (rw (take-append sml p.0 (length sml) refl) (beq_refl sml)),
)
  where
    split : beq (take (length sml) bg) sml ≡ true → bg ≡ sml ++ drop (length sml) bg
    split h =
        sym (take-append-drop (length sml) bg) ∙ ap (λ t. t ++ drop (length sml) bg) (beq→eq _ _ h)

drop-append : (xs ys : Bytes) (n : ℕ) → n ≡ length xs → drop n (xs ++ ys) ≡ ys
drop-append [] ys zero h = refl
drop-append [] ys (suc n) h = absurd (omega arith)
drop-append (x ∷ xs) ys zero h = absurd (omega arith)
drop-append (x ∷ xs) ys (suc n) h = drop-append xs ys n (omega arith)

-- A text ends with another if and only if it is that text with something before it.
pub endswith_iff : (bg sml : Bytes) → (endswith bg sml ≡ true) ↔ ((r : Bytes) × (bg ≡ r ++ sml))
unfolding endswith
endswith_iff bg sml = (λ h. (take (length bg - length sml) bg, split h), λ p. rw p.1 (back p.0))
  where
    split : endswith bg sml ≡ true → bg ≡ take (length bg - length sml) bg ++ sml
    split h =
        let e : drop (length bg - length sml) bg ≡ sml = beq→eq _ _ (ground arith) in
        sym (take-append-drop (length bg - length sml) bg)
        ∙ ap (◌++◌ (take (length bg - length sml) bg)) e

    back : (r : Bytes) → endswith (r ++ sml) sml ≡ true
    back r =
        rw
          (
            drop-append r sml (length (r ++ sml) - length sml) (omega (arith, length-append r sml)),
            beq_refl,
          )
          (ground (arith, length-append r sml))

-- A text of characters of the set.
abbrev pub Only : Bytes → Bytes → Type 0
Only ws = All (λ c. one_of ws c ≡ true)

until-Only : (ws s : Bytes) → Only ws (until (λ c. not (one_of ws c)) s)
until-Only ws s = weaken (until (λ c. not (one_of ws c)) s) (All-until (λ c. not (one_of ws c)) s)
  where
    weaken : (t : Bytes) → All (λ c. not (one_of ws c) ≡ false) t → Only ws t
    weaken [] _ = tt
    weaken (c ∷ t) (h, hs) = (ground arith, weaken t hs)

All-reverse {κ} : (P : ℕ → Type κ) (s : Bytes) → All P s → All P (reverse s)
All-reverse P [] h = tt
All-reverse P (c ∷ s) (hc, h) =
    rw (reverse-cons c s) (All-append P (reverse s) (c ∷ []) (All-reverse P s h) (hc, tt))

-- The text `t` is `s` less characters of the set at both ends, and none is left at an end.
pub record IsTrimmed (ws s t : Bytes) : Type 0 where
  pub before : Bytes
  pub behind : Bytes
  pub spelled : s ≡ before ++ (t ++ behind)
  pub before_only : Only ws before
  pub behind_only : Only ws behind
  pub first_kept : (c : ℕ) (u : Bytes) → t ≡ c ∷ u → one_of ws c ≡ false
  pub last_kept : (c : ℕ) (u : Bytes) → t ≡ u ++ c ∷ [] → one_of ws c ≡ false

rtrimstring_split :
    (s ws : Bytes) → s ≡ rtrimstring s ws ++ reverse (until (λ c. not (one_of ws c)) (reverse s))
unfolding rtrimstring
rtrimstring_split s ws =
    let p : ℕ → Bool = λ c. not (one_of ws c) in
    sym (reverse-reverse s)
    ∙ ap reverse (sym (until-from p (reverse s)))
    ∙ reverse-append (until p (reverse s)) (from p (reverse s))

rtrimstring_last : (s ws u : Bytes) (c : ℕ) → rtrimstring s ws ≡ u ++ c ∷ [] → one_of ws c ≡ false
unfolding rtrimstring
rtrimstring_last s ws u c e =
    let p : ℕ → Bool = λ c. not (one_of ws c) in
    let back : from p (reverse s) ≡ c ∷ reverse u =
      sym (reverse-reverse (from p (reverse s))) ∙ ap reverse e ∙ reverse-append u (c ∷ []) in
    ground (arith, from_head p (reverse s) back)

-- Trimming takes characters of the set away at both ends, as many as there are, and nothing else.
pub trimstring-IsTrimmed : (s ws : Bytes) → IsTrimmed ws s (trimstring s ws)
unfolding trimstring ltrimstring
trimstring-IsTrimmed s ws = record {
  before = until p (rtrimstring s ws);
  behind = reverse (until p (reverse s));
  spelled =
      rtrimstring_split s ws
      ∙ ap (λ t. t ++ reverse (until p (reverse s))) (sym (until-from p (rtrimstring s ws)))
      ∙ append_assoc (until p (rtrimstring s ws)) _ _;
  before_only = until-Only ws (rtrimstring s ws);
  behind_only = All-reverse _ _ (until-Only ws (reverse s));
  first_kept = λ c u e. ground (arith, from_head p (rtrimstring s ws) e);
  last_kept = λ c u e. rtrimstring_last s ws (until p (rtrimstring s ws) ++ u) c (
      sym (until-from p (rtrimstring s ws))
      ∙ ap (◌++◌ (until p (rtrimstring s ws))) e
      ∙ sym (append_assoc (until p (rtrimstring s ws)) u (c ∷ [])));
}
  where
    p : ℕ → Bool
    p c = not (one_of ws c)

neut_next :
    (fuel : ℕ) (rest chars : Bytes) (rep : ℕ) (out : Bytes) {c d : ℕ} {s after : Bytes}
    → from (λ x. not (one_of chars x)) rest ≡ c ∷ s
    → from (one_of chars) (c ∷ s) ≡ d ∷ after
    → neut_loop (suc fuel) rest chars rep out
      ≡ neut_loop fuel (d ∷ after) chars rep (out ++ (until (one_of chars) (c ∷ s) ++ rep ∷ []))
unfolding neut_loop
neut_next fuel rest chars rep out e f = rw (e, neut_loop, f) refl

neut_loop-Avoids :
    (fuel : ℕ) (rest chars : Bytes) (rep : ℕ) (out : Bytes)
    → length rest < fuel
    → one_of chars rep ≡ false
    → Avoids chars out
    → (r : Bytes) × (neut_loop fuel rest chars rep out ≡ some r) × Avoids chars r
neut_loop-Avoids zero rest chars rep out h k a = absurd (omega arith)
neut_loop-Avoids (suc fuel) rest chars rep out h k a =
    elim (List-cases (from (λ x. not (one_of chars x)) rest)) [
      | inl e ↦ (out, unfold neut_loop in (rw (e, neut_loop) refl), a)
      | inr (c, s, e) ↦ elim (List-cases (from (one_of chars) (c ∷ s))) [
        | inl f ↦ (
          out ++ (c ∷ s),
          unfold neut_loop in (rw (e, neut_loop, f) refl),
          All-append _ out (c ∷ s) a (
              subst (Avoids chars) (until_all (one_of chars) (c ∷ s) f)
                (All-until (one_of chars) (c ∷ s))),
        )
        | inr (d, after, f) ↦
            let u = until (one_of chars) (c ∷ s) in
            let sum : length (c ∷ s) ≡ length u + length (d ∷ after) =
              ap length (until-append_from (one_of chars) (c ∷ s) f)
              ∙ length-append u (d ∷ after) in
            let (r, run, ok) =
              neut_loop-Avoids fuel (d ∷ after) chars rep (out ++ (u ++ rep ∷ []))
                (omega (arith, size c s e, some_text c s e)) k
                (All-append _ out (u ++ rep ∷ []) a
                  (All-append _ u (rep ∷ []) (All-until (one_of chars) (c ∷ s)) (k, tt))) in
            (r, neut_next fuel rest chars rep out e f ∙ run, ok)
      ]
    ]
  where
    size :
        (c : ℕ) (s : Bytes)
        → from (λ x. not (one_of chars x)) rest ≡ c ∷ s
        → length (c ∷ s) ≤ length rest
    size c s e =
        let l : length (c ∷ s) ≡ length (from (λ x. not (one_of chars x)) rest) =
          ap length (sym e) in
        omega (arith, length-from-le (λ x. not (one_of chars x)) rest)

    some_text :
        (c : ℕ) (s : Bytes)
        → from (λ x. not (one_of chars x)) rest ≡ c ∷ s
        → 0 < length (until (one_of chars) (c ∷ s))
    some_text c s e =
        let clear : one_of chars c ≡ false =
          ground (arith, from_head (λ x. not (one_of chars x)) rest e) in
        unfold until in (rw clear (omega arith))

-- The replacement of a set of characters ends, and none of them is in the result, if the replacing
-- character is not one of them.
pub neutchars-Avoids :
    (s chars : Bytes) (rep : ℕ)
    → one_of chars rep ≡ false
    → (r : Bytes) × (neutchars s chars rep ≡ some r) × Avoids chars r
unfolding neutchars
neutchars-Avoids s chars rep h = neut_loop-Avoids (suc (length s)) s chars rep [] (omega arith) h tt
