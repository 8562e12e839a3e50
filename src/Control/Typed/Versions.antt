-- ===== src/Control/Typed/Versions.antt =====
-- Which service types a typed service takes.
use libupnpp.Prelude.{
  ℕ, ◌<◌, ◌^◌, [], ◌∷◌, ◌++◌, ◌&&◌, ◌≡◌, refl, ap, ◌∙◌, arith, none, some, leb, Bytes, beq, All,
  Lacks,
}
use libupnpp.Prelude.Int.{pos}
use libupnpp.Text.Decimal.{ulltodecstr}
use libupnpp.Text.Decimal.Digits.{IsDigit}
use libupnpp.Text.Decimal.Print.{IsDecimal, ulltodecstr-IsDecimal, atoi-IsDecimal}
use libupnpp.Control.Typed.{
  last_colon, version_of, cut_type, new_typed_service, leb_int, service_type_match,
}

last_colon-Lacks : (n : Bytes) → Lacks 58 n → last_colon n ≡ none
last_colon-Lacks [] h = refl
last_colon-Lacks (c ∷ n) (h, hs) = rw (last_colon-Lacks n hs) (ground (arith, h))

last_colon-append : (p n : Bytes) → Lacks 58 n → last_colon (p ++ 58 ∷ n) ≡ some (p, n)
last_colon-append [] n h = rw (last_colon-Lacks n h) refl
last_colon-append (c ∷ p) n h = rw (last_colon-append p n h) refl

digits-Lacks : (s : Bytes) → All IsDigit s → Lacks 58 s
digits-Lacks [] h = tt
digits-Lacks (c ∷ s) (h, hs) = (ground (arith, h), digits-Lacks s hs)

version_text : (s : Bytes) {v : ℕ} → IsDecimal v s → version_of s ≡ pos v
version_text [] d = absurd (d.some_digit refl)
version_text (c ∷ s) d = atoi-IsDecimal (c ∷ s) d

cut_versioned :
    (base s : Bytes) {v : ℕ}
    → IsDecimal v s
    → cut_type (base ++ 58 ∷ s) (last_colon (base ++ 58 ∷ s)) ≡ (base, pos v)
cut_versioned base s d =
    ap (cut_type (base ++ 58 ∷ s)) (last_colon-append base s (digits-Lacks s d.all_digits))
    ∙ ap (λ z. (base, z)) (version_text s d)

-- Types are written as a base, a colon and a version. A typed service takes the types with its own base
-- and a version that is not above its own, and no others.
pub service_type_match-new_typed_service :
    (base other : Bytes) (v w : ℕ)
    → v < 2 ^ 31
    → w < 2 ^ 31
    → (s : Bytes) × (t : Bytes) × (ulltodecstr v ≡ some s)
      × (ulltodecstr w ≡ some t)
      × (service_type_match (new_typed_service (base ++ 58 ∷ s)) (other ++ 58 ∷ t)
          ≡ (beq base other && leb w v))
unfolding service_type_match new_typed_service
service_type_match-new_typed_service base other v w hv hw =
    let (s, es, ds) = ulltodecstr-IsDecimal v (omega (arith, hv)) in
    let (t, et, dt) = ulltodecstr-IsDecimal w (omega (arith, hw)) in
    (
      s,
      t,
      es,
      et,
      ap
            (λ c.
              beq c.0 (cut_type (other ++ 58 ∷ t) (last_colon (other ++ 58 ∷ t))).0
              && leb_int (cut_type (other ++ 58 ∷ t) (last_colon (other ++ 58 ∷ t))).1 c.1)
            (cut_versioned base s ds)
          ∙ ap (λ c. beq base c.0 && leb_int c.1 (pos v)) (cut_versioned other t dt),
    )
