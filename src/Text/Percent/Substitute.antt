-- ===== src/Text/Percent/Substitute.antt =====
-- Substitution of percent sequences.
use libupnpp.Prelude.{
  ℕ, zero, suc, ◌<◌, ◌≤◌, [], ◌∷◌, Option, some, Bytes, ◌==◌, ◌≡◌, ◌≢◌, refl, ap, ◌∙◌, arith,
  if◌then◌else◌, length, Bool-cases, inl, inr,
}
use libupnpp.Text.Percent.{subst_loop, pc_subst, pc_subst_chars}

-- A text with its percent signs doubled.
abbrev pub double_percents : Bytes → Bytes
double_percents [] = []
double_percents (c ∷ s) =
    if c == b'%' then b'%' ∷ b'%' ∷ double_percents s else c ∷ double_percents s

plain_step :
    (subs : ℕ → Option Bytes) (c : ℕ) (s : Bytes)
    → c ≢ b'%'
    → pc_subst_chars subs (c ∷ s) ≡ c ∷ pc_subst_chars subs s
unfolding pc_subst_chars
plain_step subs c [] h = refl
plain_step subs c (d ∷ s) h = ground arith

chars_doubled : (subs : ℕ → Option Bytes) (s : Bytes) → pc_subst_chars subs (double_percents s) ≡ s
chars_doubled subs [] = unfold pc_subst_chars in refl
chars_doubled subs (c ∷ s) = elim (Bool-cases (c == b'%')) [
  | inl e ↦
      let p : c ≡ b'%' = ground arith in
      rw e (percent s ∙ rw p (ap (◌∷◌ b'%') (chars_doubled subs s)))
  | inr e ↦
      rw e
        (plain_step subs c (double_percents s) (ground arith) ∙ ap (◌∷◌ c) (chars_doubled subs s))
]
  where
    percent :
        (t : Bytes)
        → pc_subst_chars subs (b'%' ∷ b'%' ∷ double_percents t)
          ≡ b'%' ∷ pc_subst_chars subs (double_percents t)
    percent t = unfold pc_subst_chars in refl

loop_doubled :
    (mapper : Bytes → Bytes) (s : Bytes) (f : ℕ)
    → length s < f
    → subst_loop f mapper (double_percents s) ≡ some s
unfolding subst_loop
loop_doubled mapper s zero h = absurd (omega arith)
loop_doubled mapper [] (suc f) h = refl
loop_doubled mapper (c ∷ s) (suc f) h = ground (arith, loop_doubled mapper s f)

length-double_percents : (s : Bytes) → length s ≤ length (double_percents s)
length-double_percents [] = omega arith
length-double_percents (c ∷ s) = ground (arith, length-double_percents s)

-- Doubled percent signs are protected: both substitutions give the text back, whatever they map.
pub pc_subst-double_percents :
    (subs : ℕ → Option Bytes) (mapper : Bytes → Bytes) (s : Bytes)
    → (pc_subst_chars subs (double_percents s) ≡ s) × (pc_subst mapper (double_percents s) ≡ some s)
unfolding pc_subst
pc_subst-double_percents subs mapper s = (
  chars_doubled subs s,
  loop_doubled mapper s (suc (length (double_percents s)))
      (omega (arith, length-double_percents s)),
)
