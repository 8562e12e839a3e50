-- ===== src/Base64/Cases.antt =====
-- One round of the decoding loop, by cases.
use libupnpp.Prelude.{ℕ, ◌≡◌, ◌∷◌, Bytes, get_elem?, none, inl, inr, ◌==◌, Bool-cases, Option-cases}
use libupnpp.Base64.{b64values, pad64, Decoder, put_value, Scan, scan}

-- What holds at each way that a round can take holds of the loop from that character on.
pub scan_cases {ℓ} :
    (P : Scan → Type ℓ) (ch : ℕ) (rest : Bytes) (d : Decoder)
    → (get_elem? b64values ch ≡ none → P Scan.out_of_table)
    → P (Scan.pad_seen d)
    → P (Scan.bad_char d)
    → P (scan rest d)
    → ((v : ℕ) → P (scan rest (put_value d.state d v)))
    → P (scan (ch ∷ rest) d)
unfolding scan
scan_cases P ch rest d outside pad bad skip take = elim (Option-cases (get_elem? b64values ch)) [
  | inl e ↦ rw e (outside e)
  | inr (value, e) ↦ rw e (elim (Bool-cases (value == 255)) [
    | inl p ↦ rw p skip
    | inr p ↦ rw p (elim (Bool-cases (ch == pad64)) [
      | inl q ↦ rw q pad
      | inr q ↦
          rw q (elim (Bool-cases (value == 256)) [ inl r ↦ rw r bad | inr r ↦ rw r (take value) ])
    ])
  ])
]
