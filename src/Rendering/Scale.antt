-- ===== src/Rendering/Scale.antt =====
-- The two scales of the volume.
use libupnpp.Prelude.{
  ℕ, zero, ◌+◌, ◌-◌, ◌%◌, ◌≤◌, ◌<◌, Bool, true, false, ◌&&◌, ◌≡◌, refl, ap, arith, if◌then◌else◌,
  Bool-cases, inl, inr, ltb,
}
use libupnpp.Prelude.Int.{ℤ, pos, negsuc}
use libupnpp.Rendering.{VolParams, Doubles, full_scale, not_below, not_above, dev_vol_to_0100}

clamped :
    (lo hi : ℕ) (z : ℤ)
    → lo < hi
    → (lo ≤ not_above hi (not_below lo z)) × (not_above hi (not_below lo z) ≤ hi)
clamped lo hi (pos n) h = ground (arith, h)
clamped lo hi (negsuc n) h = ground (arith, h)

-- Whatever volume a device tells, the program gets one from 0 to 100, for every range that is not
-- empty. The division of doubles must not exceed 100 within the range.
pub dev_vol_to_0100_bounds :
    (dbl : Doubles) (p : VolParams) (z : ℤ)
    → ((r v : ℕ) → 0 < r → v ≤ r → dbl.per_cent r v ≤ 100)
    → p.volmin < p.volmax
    → (n : ℕ) × (dev_vol_to_0100 dbl p z ≡ pos n) × (n ≤ 100)
unfolding dev_vol_to_0100
dev_vol_to_0100_bounds dbl p z near range =
    let (lo, hi) = clamped p.volmin p.volmax z range in
    let v = not_above p.volmax (not_below p.volmin z) in
    elim (Bool-cases (full_scale p)) [
      | inl e ↦ (
        v,
        ap
            (λ b.
              if b
              then pos v
              else if ltb p.volmin p.volmax
              then pos (dbl.per_cent (p.volmax - p.volmin) (v - p.volmin))
              else libupnpp.Prelude.Int.sub_ℕ v p.volmin)
            e,
        ground (arith, e, hi),
      )
      | inr e ↦ (
        dbl.per_cent (p.volmax - p.volmin) (v - p.volmin),
        rw (e, libupnpp.Prelude.lt→ltb p.volmin p.volmax range) refl,
        near (p.volmax - p.volmin) (v - p.volmin) (omega (arith, range))
            (omega (arith, lo, hi, range)),
      )
    ]

-- Within a step of the wish: not below it when the volume goes up, not above it when it goes down.
abbrev pub Near : Bool → ℕ → ℕ → ℕ → Type 0
Near true step n v = (n ≤ v) × (v < n + step)
Near false step n v = (v ≤ n) × (n < v + step)

abbrev pub SteppedTo : ℕ → ℕ → Bool → ℕ → ℤ → Type 0
SteppedTo lo step up n z = (v : ℕ) × (z ≡ pos (lo + v)) × (v % step ≡ 0) × Near up step n v
