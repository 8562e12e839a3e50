-- ===== src/Rendering/Events.antt =====
-- `RenderingControl::evtCallback`: what the client's object is told of an event. The decoding of the
-- `LastChange` text is an argument.
use libupnpp.Prelude.{
  ℕ, ◌≤◌, ◌<◌, Bool, true, false, List, [], ◌∷◌, ◌++◌, ◌≡◌, Option, none, some, Bool-cases, inl,
  inr, if◌then◌else◌, Bytes, codes, beq, All, All-append,
}
use libupnpp.Prelude.Int.{ℤ, pos}
use libupnpp.Text.Decimal.{atoi}
use libupnpp.Text.Trim.{beginswith}
use libupnpp.Soap.{string_to_bool}
use libupnpp.Rendering.{VolParams, Doubles, dev_vol_to_0100}
use libupnpp.Rendering.Scale.{dev_vol_to_0100_bounds}

-- `reporter->changed`
pub data Report : Type 0 where
  volume_changed : Bytes → ℤ → Report
  mute_changed : Bytes → Bool → Report

abbrev mute_report : Bytes → Option Bool → List Report
mute_report name none = []
mute_report name (some b) = Report.mute_changed name b ∷ []

abbrev report_prop : Doubles → VolParams → Bytes → Bytes → List Report
unfolding dev_vol_to_0100
report_prop dbl p name value =
    if beginswith name (codes "Volume")
    then Report.volume_changed name (dev_vol_to_0100 dbl p (atoi value)) ∷ []
    else if beginswith name (codes "Mute")
    then mute_report name (string_to_bool value)
    else []

abbrev report_props : Doubles → VolParams → List (Bytes × Bytes) → List Report
unfolding report_prop
report_props dbl p [] = []
report_props dbl p ((name, value) ∷ props) =
    report_prop dbl p name value ++ report_props dbl p props

-- The rest of the variables is looked at only if the text was decoded.
abbrev report_change :
    Doubles → VolParams → Option (List (Bytes × Bytes)) → List Report → List Report
unfolding report_props
report_change dbl p none rest = []
report_change dbl p (some props) rest = report_props dbl p props ++ rest

abbrev report_vars :
    (Bytes → Option (List (Bytes × Bytes)))
    → Doubles
    → VolParams
    → List (Bytes × Bytes)
    → List Report
unfolding report_change
report_vars decode dbl p [] = []
report_vars decode dbl p ((name, value) ∷ vars) =
    let rest = report_vars decode dbl p vars in
    if beq name (codes "LastChange") then report_change dbl p (decode value) rest else rest

-- The flag tells whether there is a reporter.
unfoldable pub evt_callback :
    (Bytes → Option (List (Bytes × Bytes)))
    → Doubles
    → VolParams
    → Bool
    → List (Bytes × Bytes)
    → List Report
unfolding report_vars
evt_callback decode dbl p reporter vars = if reporter then report_vars decode dbl p vars else []

abbrev InScale : Report → Type 0
InScale (Report.volume_changed name z) = (n : ℕ) × (z ≡ pos n) × (n ≤ 100)
InScale (Report.mute_changed name b) = Unit

abbrev pub AllInScale : List Report → Type 0
AllInScale = All InScale

mute_report-InScale : (name : Bytes) (o : Option Bool) → AllInScale (mute_report name o)
mute_report-InScale name none = tt
mute_report-InScale name (some b) = (tt, tt)

module _ (dbl : Doubles) (p : VolParams) (near : (r v : ℕ) → 0 < r → v ≤ r → dbl.per_cent r v ≤ 100)
    (range : p.volmin < p.volmax) where
  report_prop-InScale : (name value : Bytes) → AllInScale (report_prop dbl p name value)
  unfolding report_prop
  report_prop-InScale name value = elim (Bool-cases (beginswith name (codes "Volume"))) [
    | inl e ↦ rw e (dev_vol_to_0100_bounds dbl p (atoi value) near range, tt)
    | inr e ↦ elim (Bool-cases (beginswith name (codes "Mute"))) [
      | inl f ↦ rw (e, f) (mute_report-InScale name (string_to_bool value))
      | inr f ↦ rw (e, f) tt
    ]
  ]

  report_props-InScale : (props : List (Bytes × Bytes)) → AllInScale (report_props dbl p props)
  unfolding report_props
  report_props-InScale [] = tt
  report_props-InScale ((name, value) ∷ props) =
      All-append InScale (report_prop dbl p name value) (report_props dbl p props)
        (report_prop-InScale name value) (report_props-InScale props)

  report_change-InScale :
      (o : Option (List (Bytes × Bytes))) (rest : List Report)
      → AllInScale rest
      → AllInScale (report_change dbl p o rest)
  unfolding report_change
  report_change-InScale none rest h = tt
  report_change-InScale (some props) rest h =
      All-append InScale (report_props dbl p props) rest (report_props-InScale props) h

  report_vars-InScale :
      (decode : Bytes → Option (List (Bytes × Bytes))) (vars : List (Bytes × Bytes))
      → AllInScale (report_vars decode dbl p vars)
  unfolding report_vars
  report_vars-InScale decode [] = tt
  report_vars-InScale decode ((name, value) ∷ vars) =
      elim (Bool-cases (beq name (codes "LastChange"))) [
        | inl e ↦ rw e (
            report_change-InScale (decode value) (report_vars decode dbl p vars)
              (report_vars-InScale decode vars))
        | inr e ↦ rw e (report_vars-InScale decode vars)
      ]

  -- Every volume that a client's object is told of by an event lies from 0 to 100, whatever the event
  -- holds. The device's range must not be empty, and the division of doubles not exceed 100 within it.
  pub evt_callback-InScale :
      (decode : Bytes → Option (List (Bytes × Bytes))) (reporter : Bool)
      (vars : List (Bytes × Bytes))
      → AllInScale (evt_callback decode dbl p reporter vars)
  unfolding evt_callback
  evt_callback-InScale decode true vars = report_vars-InScale decode vars
  evt_callback-InScale decode false vars = tt
